-- ===== src/Router/Translate/Segment.antt =====
-- The rewriting of a TCP segment by `nat_handle_tcp` of router/sr_router.c: its faults, and the other
-- fields of the packet.
use cscd58_nat.Base.{
  ℕ, ◌+◌, ◌-◌, ◌*◌, ◌%◌, ◌^◌, ◌≤◌, ◌<◌, ◌≡◌, ◌⊎◌, inl, inr, refl, ap, ◌∙◌, ◌++◌, some, Buffer,
  length, take, drop, arith, store16, store32, load8-store16_ne, load8-store32_ne,
  load32-store16_ne, load16-store16_ne, load16-store32_ne, load32-store32_ne, load16-store16,
  load32-store32, length-store16, length-store32,
}
use mathlib.Core.Path.{subst}
use cscd58_nat.Proto.Ip
use cscd58_nat.Proto.Tcp
use cscd58_nat.Cksum.{cksum}
use cscd58_nat.Router.Translate.{pseudo_header, refresh_tcp}
use cscd58_nat.Router.Translate.Refresh.{refresh_ip_sum_total}

-- Both headers lie in the buffer and do not overlap.
pub record TcpFits (p : Buffer) : Type 0 where
  pub apart : Ip.size ≤ Ip.header_len p
  pub header : Ip.header_len p + Tcp.size ≤ length p

-- The two packets agree on the addresses, the header length, the ports of the segment at `o` and the
-- size of the buffer.
pub record SameEnds (o : ℕ) (p q : Buffer) : Type 0 where
  pub src : Ip.src q ≡ Ip.src p
  pub dst : Ip.dst q ≡ Ip.dst p
  pub hl : Ip.header_len q ≡ Ip.header_len p
  pub src_port : Tcp.src_port q o ≡ Tcp.src_port p o
  pub dst_port : Tcp.dst_port q o ≡ Tcp.dst_port p o
  pub size : length q ≡ length p

SameEnds-trans : {o : ℕ} {p q r : Buffer} → SameEnds o p q → SameEnds o q r → SameEnds o p r
SameEnds-trans a b = record {
  src = b.src ∙ a.src;
  dst = b.dst ∙ a.dst;
  hl = b.hl ∙ a.hl;
  src_port = b.src_port ∙ a.src_port;
  dst_port = b.dst_port ∙ a.dst_port;
  size = b.size ∙ a.size;
}

-- A checksum of either header is written.
store16-SameEnds :
    (o : ℕ) (p : Buffer) (a v : ℕ)
    → Ip.size ≤ o
    → (a ≡ 10) ⊎ (a ≡ o + 16)
    → SameEnds o p (store16 p a v)
store16-SameEnds o p a v h place = record {
  src = load32-store16_ne p a v 12 (omega arith);
  dst = load32-store16_ne p a v 16 (omega arith);
  hl = ap (λ (b : ℕ). b % 16 * 4) (load8-store16_ne p a v 0 (omega arith));
  src_port = load16-store16_ne p a v o (omega arith);
  dst_port = load16-store16_ne p a v (o + 2) (omega arith);
  size = length-store16 p a v;
}

-- The checksums are written, and the ends stay.
pub refresh_tcp-SameEnds :
    (p : Buffer)
    → TcpFits p
    → (q : Buffer) × (refresh_tcp p ≡ some q) × SameEnds (Ip.header_len p) p q
unfolding refresh_tcp
refresh_tcp-SameEnds p fits =
    let o = Ip.header_len p in
    let p₁ = Tcp.set_checksum p o 0 in
    let sum = cksum (pseudo_header p₁ (length p - o) ++ drop o p₁) in
    let p₂ = Tcp.set_checksum p₁ o sum in
    let p₃ = Ip.set_sum p₂ 0 in
    let s₁ = store16-SameEnds o p (o + 16) 0 fits.apart (inr refl) in
    let s₂ = SameEnds-trans s₁ (store16-SameEnds o p₁ (o + 16) sum fits.apart (inr refl)) in
    let s₃ = SameEnds-trans s₂ (store16-SameEnds o p₂ 10 0 fits.apart (inl refl)) in
    let ip_sum = cksum (take Ip.size (drop 0 p₃)) in
    (
      Ip.set_sum p₃ ip_sum,
      refresh_ip_sum_total p₂ (omega (arith, s₂.size, fits.header, fits.apart)),
      SameEnds-trans s₃ (store16-SameEnds o p₃ 10 ip_sum fits.apart (inl refl)),
    )

-- A port at `b` and an address at `a` are written.
abbrev pub readdressed : Buffer → ℕ → ℕ → ℕ → ℕ → Buffer
readdressed p b port a ip = store32 (store16 p b port) a ip

-- The ends of the packet `q` at its own header length, by what they are in `p` at `o`.
record HasEnds (o : ℕ) (p q : Buffer) : Type 0 where
  src : Ip.src q ≡ Ip.src p
  dst : Ip.dst q ≡ Ip.dst p
  src_port : Tcp.src_port q (Ip.header_len q) ≡ Tcp.src_port p o
  dst_port : Tcp.dst_port q (Ip.header_len q) ≡ Tcp.dst_port p o

refresh-readdressed :
    (p : Buffer) (b port a ip : ℕ)
    → TcpFits p
    → Ip.size ≤ b
    → (a ≡ 12) ⊎ (a ≡ 16)
    → let p₂ = readdressed p b port a ip in
      (q : Buffer) × (refresh_tcp p₂ ≡ some q) × HasEnds (Ip.header_len p) p₂ q
refresh-readdressed p b port a ip fits above place =
    let o = Ip.header_len p in
    let p₁ = store16 p b port in
    let p₂ = readdressed p b port a ip in
    let hl : Ip.header_len p₂ ≡ o =
      ap (λ (b : ℕ). b % 16 * 4)
        (load8-store32_ne p₁ a ip 0 (omega arith) ∙ load8-store16_ne p b port 0 (omega arith)) in
    let long : length p₂ ≡ length p = length-store32 p₁ a ip ∙ length-store16 p b port in
    let fits' : TcpFits p₂ = record {
      apart = rw hl fits.apart;
      header = rw (hl, long) fits.header;
    } in
    let (q, e, same) = refresh_tcp-SameEnds p₂ fits' in
    (
      q,
      e,
      record {
        src = same.src;
        dst = same.dst;
        src_port =
            ap (Tcp.src_port q) (same.hl ∙ hl)
            ∙ subst (λ k. Tcp.src_port q k ≡ Tcp.src_port p₂ k) hl same.src_port;
        dst_port =
            ap (Tcp.dst_port q) (same.hl ∙ hl)
            ∙ subst (λ k. Tcp.dst_port q k ≡ Tcp.dst_port p₂ k) hl same.dst_port;
      },
    )

-- An outbound segment as it leaves: from a new address and port, to the same ones.
pub refresh_source :
    (p : Buffer) (port ip : ℕ)
    → TcpFits p
    → port < 2 ^ 16
    → ip < 2 ^ 32
    → (q : Buffer) × (refresh_tcp (Ip.set_src (Tcp.set_src_port p (Ip.header_len p) port) ip)
        ≡ some q)
      × (Ip.src q ≡ ip)
      × (Ip.dst q ≡ Ip.dst p)
      × (Tcp.src_port q (Ip.header_len q) ≡ port)
      × (Tcp.dst_port q (Ip.header_len q) ≡ Tcp.dst_port p (Ip.header_len p))
refresh_source p port ip fits small small' =
    let o = Ip.header_len p in
    let p₁ = store16 p o port in
    let long : length p₁ ≡ length p = length-store16 p o port in
    let (q, e, ends) = refresh-readdressed p o port 12 ip fits fits.apart (inl refl) in
    (
      q,
      e,
      ends.src ∙ load32-store32 p₁ 12 ip (omega (arith, long, fits.apart, fits.header)) small',
      ends.dst
          ∙ load32-store32_ne p₁ 12 ip 16 (inr (omega arith))
          ∙ load32-store16_ne p o port 16 (omega (arith, fits.apart)),
      ends.src_port
          ∙ load16-store32_ne p₁ 12 ip o (omega (arith, fits.apart))
          ∙ load16-store16 p o port (omega (arith, fits.header)) small,
      ends.dst_port
          ∙ load16-store32_ne p₁ 12 ip (o + 2) (omega (arith, fits.apart))
          ∙ load16-store16_ne p o port (o + 2) (omega arith),
    )

-- An inbound segment as it is passed on: to a new address and port, from the same ones.
pub refresh_dest :
    (p : Buffer) (port ip : ℕ)
    → TcpFits p
    → port < 2 ^ 16
    → ip < 2 ^ 32
    → (q : Buffer) × (refresh_tcp (Ip.set_dst (Tcp.set_dst_port p (Ip.header_len p) port) ip)
        ≡ some q)
      × (Ip.src q ≡ Ip.src p)
      × (Ip.dst q ≡ ip)
      × (Tcp.src_port q (Ip.header_len q) ≡ Tcp.src_port p (Ip.header_len p))
      × (Tcp.dst_port q (Ip.header_len q) ≡ port)
refresh_dest p port ip fits small small' =
    let o = Ip.header_len p in
    let b = o + 2 in
    let p₁ = store16 p b port in
    let long : length p₁ ≡ length p = length-store16 p b port in
    let (q, e, ends) =
      refresh-readdressed p b port 16 ip fits (omega (arith, fits.apart)) (inr refl) in
    (
      q,
      e,
      ends.src
          ∙ load32-store32_ne p₁ 16 ip 12 (inl (omega arith))
          ∙ load32-store16_ne p b port 12 (omega (arith, fits.apart)),
      ends.dst ∙ load32-store32 p₁ 16 ip (omega (arith, long, fits.apart, fits.header)) small',
      ends.src_port
          ∙ load16-store32_ne p₁ 16 ip o (omega (arith, fits.apart))
          ∙ load16-store16_ne p b port o (omega arith),
      ends.dst_port
          ∙ load16-store32_ne p₁ 16 ip b (omega (arith, fits.apart))
          ∙ load16-store16 p b port (omega (arith, fits.header)) small,
    )
