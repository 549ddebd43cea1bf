-- ===== src/Router/Translate/Refresh.antt =====
-- The rewriting of the checksums: its faults, and the other fields of the packet.
use cscd58_nat.Base.{
  ℕ, ◌+◌, ◌-◌, ◌*◌, ◌%◌, ◌≤◌, ◌≡◌, ◌⊎◌, inl, inr, refl, ap, ◌∙◌, some, Buffer, length, take, drop,
  arith, ntohs, load8, store16, load8-store16_ne, load32-store16_ne, load16-store16_ne,
  length-store16,
}
use cscd58_nat.Proto.Ip
use cscd58_nat.Proto.Icmp
use cscd58_nat.Cksum.{cksum, cksum_at}
use cscd58_nat.Router.Translate.{refresh_ip_sum, refresh_icmp}

pub cksum_at_total :
    (p : Buffer) (o n : ℕ) → o + n ≤ length p → cksum_at p o n ≡ some (cksum (take n (drop o p)))
unfolding cksum_at
cksum_at_total p o n h = ground arith

-- The extents that the translation of an ICMP packet reads and writes lie in the buffer, and the
-- header does not overlap the message.
pub record IcmpFits (p : Buffer) : Type 0 where
  pub apart : Ip.size ≤ Ip.header_len p
  pub header : Ip.header_len p + Icmp.size ≤ length p
  pub message : Ip.header_len p + (ntohs (Ip.len p) - Ip.size) ≤ length p

-- The two packets agree on the addresses, the first byte, the total length, the identifier of the
-- message at `o` and the size of the buffer.
pub record SameRoute (o : ℕ) (p q : Buffer) : Type 0 where
  pub src : Ip.src q ≡ Ip.src p
  pub dst : Ip.dst q ≡ Ip.dst p
  pub first : load8 q 0 ≡ load8 p 0
  pub ip_len : Ip.len q ≡ Ip.len p
  pub identifier : Icmp.identifier q o ≡ Icmp.identifier p o
  pub size : length q ≡ length p

SameRoute-trans : {o : ℕ} {p q r : Buffer} → SameRoute o p q → SameRoute o q r → SameRoute o p r
SameRoute-trans a b = record {
  src = b.src ∙ a.src;
  dst = b.dst ∙ a.dst;
  first = b.first ∙ a.first;
  ip_len = b.ip_len ∙ a.ip_len;
  identifier = b.identifier ∙ a.identifier;
  size = b.size ∙ a.size;
}

store16-SameRoute :
    (o : ℕ) (p : Buffer) (a v : ℕ)
    → Ip.size ≤ o
    → (a ≡ 10) ⊎ (a ≡ o + 2)
    → SameRoute o p (store16 p a v)
store16-SameRoute o p a v h place = record {
  src = load32-store16_ne p a v 12 (omega arith);
  dst = load32-store16_ne p a v 16 (omega arith);
  first = load8-store16_ne p a v 0 (omega arith);
  ip_len = load16-store16_ne p a v 2 (omega arith);
  identifier = load16-store16_ne p a v (o + 4) (omega arith);
  size = length-store16 p a v;
}

pub refresh_ip_sum_total :
    (p : Buffer)
    → Ip.size ≤ length p
    → refresh_ip_sum p
      ≡ some (Ip.set_sum (Ip.set_sum p 0) (cksum (take Ip.size (drop 0 (Ip.set_sum p 0)))))
unfolding refresh_ip_sum
refresh_ip_sum_total p h =
    rw (cksum_at_total (Ip.set_sum p 0) 0 Ip.size (omega (arith, length-store16 p 10 0)))

pub header_len-SameRoute :
    {o : ℕ} {p q : Buffer} → SameRoute o p q → Ip.header_len q ≡ Ip.header_len p
header_len-SameRoute s = ap (λ (b : ℕ). b % 16 * 4) s.first

-- Where the extents lie in the buffer the checksums are written, and nothing else changes.
pub refresh_icmp-SameRoute :
    (p : Buffer)
    → IcmpFits p
    → (q : Buffer) × (refresh_icmp p ≡ some q) × SameRoute (Ip.header_len p) p q
unfolding refresh_icmp
refresh_icmp-SameRoute p fits =
    let o = Ip.header_len p in
    let p₁ = Icmp.set_sum p o 0 in
    let n = ntohs (Ip.len p) - Ip.size in
    let p₂ = Icmp.set_sum p₁ o (cksum (take n (drop o p₁))) in
    let p₃ = Ip.set_sum p₂ 0 in
    let s₁ : SameRoute o p p₁ = store16-SameRoute o p (o + 2) 0 fits.apart (inr refl) in
    let s₂ : SameRoute o p p₂ =
      SameRoute-trans s₁ (store16-SameRoute o p₁ (o + 2) _ fits.apart (inr refl)) in
    let s₃ : SameRoute o p p₃ =
      SameRoute-trans s₂ (store16-SameRoute o p₂ 10 0 fits.apart (inl refl)) in
    let sum = cksum (take Ip.size (drop 0 p₃)) in
    (
      Ip.set_sum p₃ sum,
      rw (
        cksum_at_total p₁ o n (omega (arith, s₁.size, fits.message)),
        refresh_ip_sum_total p₂ (omega (arith, s₂.size, fits.header, fits.apart)),
      ),
      SameRoute-trans s₃ (store16-SameRoute o p₃ 10 sum fits.apart (inl refl)),
    )
