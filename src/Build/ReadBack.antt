-- ===== src/Build/ReadBack.antt =====
-- What a receiver reads in the frames that router/sr_router.c builds.
use cscd58_nat.Base.{
  ℕ, ◌+◌, ◌^◌, ◌<◌, ◌≡◌, refl, [], ◌∷◌, arith, Buffer, length, drop, load16, load32, ntohs,
}
use cscd58_nat.Proto.Ether
use cscd58_nat.Proto.Arp
use cscd58_nat.Build.{sr_create_etherframe, sr_create_arppacket}

six_bytes :
    (b : Buffer) → length b ≡ 6 → (b₀ b₁ b₂ b₃ b₄ b₅ : ℕ) × (b ≡ b₀ ∷ b₁ ∷ b₂ ∷ b₃ ∷ b₄ ∷ b₅ ∷ [])
six_bytes (b₀ ∷ b₁ ∷ b₂ ∷ b₃ ∷ b₄ ∷ b₅ ∷ []) h = (b₀, b₁, b₂, b₃, b₄, b₅, refl)
six_bytes [] h = absurd (omega arith)
six_bytes (b₀ ∷ []) h = absurd (omega arith)
six_bytes (b₀ ∷ b₁ ∷ []) h = absurd (omega arith)
six_bytes (b₀ ∷ b₁ ∷ b₂ ∷ []) h = absurd (omega arith)
six_bytes (b₀ ∷ b₁ ∷ b₂ ∷ b₃ ∷ []) h = absurd (omega arith)
six_bytes (b₀ ∷ b₁ ∷ b₂ ∷ b₃ ∷ b₄ ∷ []) h = absurd (omega arith)
six_bytes (b₀ ∷ b₁ ∷ b₂ ∷ b₃ ∷ b₄ ∷ b₅ ∷ b₆ ∷ bs) h = absurd (omega arith)

-- A frame from one hardware address to another, with its type and its payload.
pub record IsFrame (dest source : Buffer) (type : ℕ) (load frame : Buffer) : Type 0 where
  pub dhost : Ether.dhost frame ≡ dest
  pub shost : Ether.shost frame ≡ source
  pub ether_type : ntohs (Ether.ether_type frame) ≡ type
  pub payload : drop Ether.size frame ≡ load
  pub size : length frame ≡ Ether.size + length load

pub sr_create_etherframe-IsFrame :
    (payload dest source : Buffer) (type : ℕ)
    → length dest ≡ 6
    → length source ≡ 6
    → type < 2 ^ 16
    → IsFrame dest source type payload (sr_create_etherframe payload dest source type)
unfolding sr_create_etherframe load16 ntohs
sr_create_etherframe-IsFrame payload dest source type d s small =
    let (d₀, d₁, d₂, d₃, d₄, d₅, dest_is) = six_bytes dest d in
    let (s₀, s₁, s₂, s₃, s₄, s₅, source_is) = six_bytes source s in
    rw (dest_is, source_is)
      (record {
        dhost = refl;
        shost = refl;
        ether_type = omega arith;
        payload = refl;
        size = omega arith;
      })

-- An ARP packet for Ethernet and IP, and what it says.
pub record IsArp (code : ℕ) (source : Buffer) (from : ℕ) (dest : Buffer) (to : ℕ) (packet : Buffer)
    : Type 0 where
  pub hrd : ntohs (Arp.hrd packet) ≡ Arp.hrd_ethernet
  pub pro : ntohs (Arp.pro packet) ≡ Arp.pro_ip
  pub op : ntohs (Arp.op packet) ≡ code
  pub sha : Arp.sha packet ≡ source
  pub sip : Arp.sip packet ≡ from
  pub tha : Arp.tha packet ≡ dest
  pub tip : Arp.tip packet ≡ to

pub reply-IsArp :
    (source dest : Buffer) (sip tip : ℕ)
    → length source ≡ 6
    → length dest ≡ 6
    → sip < 2 ^ 32
    → tip < 2 ^ 32
    → IsArp Arp.op_reply source sip dest tip (sr_create_arppacket Arp.op_reply source sip dest tip)
unfolding sr_create_arppacket load16 load32 ntohs
reply-IsArp source dest sip tip s d small small' =
    let (d₀, d₁, d₂, d₃, d₄, d₅, dest_is) = six_bytes dest d in
    let (s₀, s₁, s₂, s₃, s₄, s₅, source_is) = six_bytes source s in
    rw (dest_is, source_is)
      (record {
        hrd = refl;
        pro = refl;
        op = refl;
        sha = refl;
        sip = omega arith;
        tha = refl;
        tip = omega arith;
      })
