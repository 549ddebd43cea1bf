-- ===== src/Router/Output/Accepted.antt =====
-- The headers that the router writes, against the receiver's checksum test.
use cscd58_nat.Base.{
  ℕ, ◌+◌, ◌*◌, ◌%◌, ◌^◌, ◌≤◌, ◌<◌, ◌≡◌, inl, inr, ap, ◌∙◌, some, Buffer, length, take, drop, arith,
  bind_parts, load8, store8, load16, store16, store16-store16, load16-store16, load8-store16_ne,
  load8-store8_ne, load8-store8, load32-store16_ne, load32-store8_ne, length-store16, length-store8,
  store16-store8, store32,
}
use cscd58_nat.Proto.Ip
use cscd58_nat.Cksum.{cksum, cksum_at}
use cscd58_nat.Cksum.Sum.{cksum-lt}
use cscd58_nat.Router.Output.{decrement_ttl}
use cscd58_nat.Build.{sr_create_ippacket, ip_fields}

-- The test of `sr_handle_ippacket`, over the header length that the packet states.
abbrev pub SumAccepted : Buffer → Type 0
SumAccepted p = cksum_at (Ip.set_sum p 0) 0 (Ip.header_len p) ≡ some (Ip.sum p)

cksum_at-lt : (p : Buffer) (o n s : ℕ) → cksum_at p o n ≡ some s → s < 2 ^ 16
unfolding cksum_at
cksum_at-lt p o n s e = ground (arith, cksum-lt (take n (drop o p)))

-- A header whose sum was computed with the field cleared is accepted.
pub set_sum-SumAccepted :
    (p : Buffer) (s : ℕ)
    → Ip.size ≤ length p
    → Ip.set_sum p 0 ≡ p
    → cksum_at p 0 (Ip.header_len p) ≡ some s
    → SumAccepted (Ip.set_sum p s)
set_sum-SumAccepted p s h cleared e =
    rw
      (
        store16-store16 p 10 s 0,
        load16-store16 p 10 s (omega arith) (cksum_at-lt p 0 (Ip.header_len p) s e),
        load8-store16_ne p 10 s 0 (inl (omega arith)),
        cleared,
      )
      e

-- What is known of a packet for which `decrement_ttl` does not fault: it has a checksum that the next router accepts, its TTL
-- is one less modulo 256, and its addresses, protocol and length are those of the packet received.
decrement_ttl-some :
    (p q : Buffer)
    → Ip.size ≤ length p
    → decrement_ttl p ≡ some q
    → SumAccepted q
      × (Ip.ttl q ≡ (Ip.ttl p + 255) % 256)
      × (Ip.src q ≡ Ip.src p)
      × (Ip.dst q ≡ Ip.dst p)
      × (Ip.proto q ≡ Ip.proto p)
      × (length q ≡ length p)
unfolding decrement_ttl
decrement_ttl-some p q h e =
    let ttl = (Ip.ttl p + 255) % 256 in
    let cleared = Ip.set_ttl (Ip.set_sum p 0) ttl in
    let (s, computed, same) =
      bind_parts (cksum_at cleared 0 (Ip.header_len cleared)) (λ s. some (Ip.set_sum cleared s)) q
        e in
    let q_is : q ≡ Ip.set_sum cleared s = ground arith in
    let long : length cleared ≡ length p =
      length-store8 (Ip.set_sum p 0) 8 ttl ∙ length-store16 p 10 0 in
    rw q_is (
      set_sum-SumAccepted cleared s (omega arith)
          (rw (
            store16-store8 (Ip.set_sum p 0) 10 0 8 ttl (inl (omega arith)),
            store16-store16 p 10 0 0,
          ))
          computed,
      load8-store16_ne cleared 10 s 8 (inl (omega arith))
          ∙ load8-store8 (Ip.set_sum p 0) 8 ttl (omega (arith, length-store16 p 10 0))
          ∙ omega arith,
      load32-store16_ne cleared 10 s 12 (inr (omega arith))
          ∙ load32-store8_ne (Ip.set_sum p 0) 8 ttl 12 (inr (omega arith))
          ∙ load32-store16_ne p 10 0 12 (inr (omega arith)),
      load32-store16_ne cleared 10 s 16 (inr (omega arith))
          ∙ load32-store8_ne (Ip.set_sum p 0) 8 ttl 16 (inr (omega arith))
          ∙ load32-store16_ne p 10 0 16 (inr (omega arith)),
      load8-store16_ne cleared 10 s 9 (inl (omega arith))
          ∙ load8-store8_ne (Ip.set_sum p 0) 8 ttl 9 (omega arith)
          ∙ load8-store16_ne p 10 0 9 (inl (omega arith)),
      length-store16 cleared 10 s ∙ long,
    )

-- A packet that `sr_forward_ippacket` sends on, where the header that it states lies in the buffer,
-- has a checksum that the next router accepts, its TTL is one less modulo 256, and its addresses,
-- protocol and length are those of the packet received.
pub decrement_ttl-SumAccepted :
    (p : Buffer)
    → Ip.size ≤ length p
    → Ip.header_len p ≤ length p
    → (q : Buffer) × (decrement_ttl p ≡ some q)
      × SumAccepted q
      × (Ip.ttl q ≡ (Ip.ttl p + 255) % 256)
      × (Ip.src q ≡ Ip.src p)
      × (Ip.dst q ≡ Ip.dst p)
      × (Ip.proto q ≡ Ip.proto p)
      × (length q ≡ length p)
unfolding decrement_ttl cksum_at
decrement_ttl-SumAccepted p h hl =
    let ttl = (Ip.ttl p + 255) % 256 in
    let cleared = Ip.set_ttl (Ip.set_sum p 0) ttl in
    let first : load8 cleared 0 ≡ load8 p 0 =
      load8-store8_ne (Ip.set_sum p 0) 8 ttl 0 (omega arith)
      ∙ load8-store16_ne p 10 0 0 (omega arith) in
    let long : length cleared ≡ length p =
      length-store8 (Ip.set_sum p 0) 8 ttl ∙ length-store16 p 10 0 in
    let n = Ip.header_len cleared in
    let fits : n ≤ length cleared = rw (ap (λ (b : ℕ). b % 16 * 4) first, long) hl in
    let s = cksum (take n (drop 0 cleared)) in
    let e : decrement_ttl p ≡ some (Ip.set_sum cleared s) = ground arith in
    let (ok, t, src, dst, proto, size) = decrement_ttl-some p (Ip.set_sum cleared s) h e in
    (Ip.set_sum cleared s, e, ok, t, src, dst, proto, size)

-- The headers that the router builds pass the test, whatever the payload and the addresses.
pub sr_create_ippacket-SumAccepted :
    (payload : Buffer) (protocol source dest : ℕ)
    → SumAccepted (sr_create_ippacket payload protocol source dest)
unfolding sr_create_ippacket cksum_at load16 load8 store32 store16 store8
sr_create_ippacket-SumAccepted payload protocol source dest =
    ground (arith, cksum-lt (ip_fields (length payload) protocol source dest))
