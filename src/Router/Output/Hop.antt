-- ===== src/Router/Output/Hop.antt =====
-- What `sr_forward_ippacket` of router/sr_router.c makes of a packet before it is sent on.
use cscd58_nat.Base.{
  ℕ, ◌+◌, ◌%◌, ◌≤◌, ◌<◌, ◌≡◌, ◌∙◌, some, Buffer, length, take, drop, arith, store8, store16, load8,
  take-set, drop-set, ◌≢◌, get_or, Outside, get_or-store8, get_or-store16, bind_parts,
}
use cscd58_nat.Proto.Ip
use cscd58_nat.Cksum.{cksum_at}
use cscd58_nat.Cksum.Sum.{AllBytes, get_or-AllBytes}
use cscd58_nat.Router.Output.{decrement_ttl}
use cscd58_nat.Router.Output.Accepted.{SumAccepted, decrement_ttl-SumAccepted}

-- A packet one hop later: the TTL is one less, the checksum is that of the new header, and all other
-- bytes are the same.
pub record IsHop (p q : Buffer) : Type 0 where
  pub sum : SumAccepted q
  pub ttl : Ip.ttl q + 1 ≡ Ip.ttl p
  pub front : take 8 q ≡ take 8 p
  pub proto : Ip.proto q ≡ Ip.proto p
  pub rest : drop 12 q ≡ drop 12 p

front-store16 : (n : ℕ) (p : Buffer) (o v : ℕ) → n ≤ o → take n (store16 p o v) ≡ take n p
unfolding store16
front-store16 n p o v h = take-set n _ (o + 1) _ (omega arith) ∙ take-set n p o _ h

rest-store16 : (n : ℕ) (p : Buffer) (o v : ℕ) → o + 2 ≤ n → drop n (store16 p o v) ≡ drop n p
unfolding store16
rest-store16 n p o v h = drop-set n _ (o + 1) _ (omega arith) ∙ drop-set n p o _ (omega arith)

-- Where the bytes do not change.
pub decrement_ttl_rest :
    (p q : Buffer)
    → decrement_ttl p ≡ some q
    → (take 8 q ≡ take 8 p)
      × (drop 12 q ≡ drop 12 p)
      × ((i : ℕ) → i ≢ 8 → Outside 10 2 i → get_or q i 0 ≡ get_or p i 0)
unfolding decrement_ttl store8
decrement_ttl_rest p q e =
    let ttl = (Ip.ttl p + 255) % 256 in
    let cleared = Ip.set_ttl (Ip.set_sum p 0) ttl in
    let (s, computed, same) =
      bind_parts (cksum_at cleared 0 (Ip.header_len cleared)) (λ s. some (Ip.set_sum cleared s)) q
        e in
    let q_is : q ≡ Ip.set_sum cleared s = ground arith in
    rw q_is (
      front-store16 8 cleared 10 s (omega arith)
          ∙ take-set 8 (Ip.set_sum p 0) 8 _ (omega arith)
          ∙ front-store16 8 p 10 0 (omega arith),
      rest-store16 12 cleared 10 s (omega arith)
          ∙ drop-set 12 (Ip.set_sum p 0) 8 _ (omega arith)
          ∙ rest-store16 12 p 10 0 (omega arith),
      λ i other outside.
          get_or-store16 cleared 10 s i outside
          ∙ get_or-store8 (Ip.set_sum p 0) 8 _ i (omega arith)
          ∙ get_or-store16 p 10 0 i outside,
    )

-- A packet that is long enough for the header that it states, and whose TTL is not 0, is forwarded
-- as what it is one hop later.
pub decrement_ttl-IsHop :
    (p : Buffer)
    → AllBytes p
    → Ip.size ≤ length p
    → Ip.header_len p ≤ length p
    → 0 < Ip.ttl p
    → (q : Buffer) × (decrement_ttl p ≡ some q) × IsHop p q × (length q ≡ length p)
unfolding load8
decrement_ttl-IsHop p bytes h hl positive =
    let (q, e, ok, t, src, dst, proto, size) = decrement_ttl-SumAccepted p h hl in
    let (front, rest, each) = decrement_ttl_rest p q e in
    (
      q,
      e,
      record {
        sum = ok;
        ttl = omega (arith, get_or-AllBytes p 8 bytes);
        front = front;
        proto = proto;
        rest = rest;
      },
      size,
    )
