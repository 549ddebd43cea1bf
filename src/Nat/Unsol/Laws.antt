-- ===== src/Nat/Unsol/Laws.antt =====
-- What becomes of the unsolicited packets.
use cscd58_nat.Base.{
  ℕ, ◌≡◌, ◌≢◌, refl, List, [], ◌∷◌, ◌++◌, some, true, false, arith, Buffer, ntohl, ◌>>=◌, ==_refl,
  Bool-cases, inl, inr,
}
use cscd58_nat.Proto.Ip
use cscd58_nat.PrivateIp.{is_private_ip}
use cscd58_nat.Nat.Types.{UnsolPkt, pkts}
use cscd58_nat.Nat.Unsol.{
  same_segment, without_segment, frees_head, holds_segment, sr_nat_remove_unsolicited_packet,
  sr_nat_insert_unsolicited_packet,
}

-- Every stored packet's source address has the property.
abbrev pub AllFrom : (ℕ → Type 0) → List UnsolPkt → Type 0
AllFrom P [] = Unit {0}
AllFrom P (u ∷ us) = P (Ip.src u.ip_packet) × AllFrom P us

AllFrom-map :
    {P Q : ℕ → Type 0} (us : List UnsolPkt)
    → ((src : ℕ) → P src → Q src)
    → AllFrom P us
    → AllFrom Q us
AllFrom-map [] f h = tt
AllFrom-map (u ∷ us) f h = (f (Ip.src u.ip_packet) h.0, AllFrom-map us f h.1)

-- A segment with another source address is left in the list.
without_segment-other :
    (ip_packet : Buffer) (us : List UnsolPkt)
    → AllFrom (λ src. src ≢ Ip.src ip_packet) us
    → (without_segment ip_packet us ≡ us) × (frees_head ip_packet us ≡ false)
unfolding without_segment frees_head same_segment
without_segment-other ip_packet [] h = (refl, refl)
without_segment-other ip_packet (u ∷ us) h = ground (arith, without_segment-other ip_packet us h.1)

-- The translation of an outbound segment never removes a stored SYN that came from outside: where
-- the segment's source address is private and those of the stored packets are not, the list stays.
pub sr_nat_remove_unsolicited_packet-inbound :
    (ip_packet : Buffer) (us : List UnsolPkt)
    → is_private_ip (ntohl (Ip.src ip_packet)) ≡ true
    → AllFrom (λ src. is_private_ip (ntohl src) ≡ false) us
    → sr_nat_remove_unsolicited_packet (pkts us) ip_packet ≡ some (pkts us)
unfolding sr_nat_remove_unsolicited_packet
sr_nat_remove_unsolicited_packet-inbound ip_packet us h all =
    ground (arith, without_segment-other ip_packet us (AllFrom-map us other all))
  where
    other : (src : ℕ) → is_private_ip (ntohl src) ≡ false → src ≢ Ip.src ip_packet
    other src f e = let t : is_private_ip (ntohl src) ≡ true = rw e h in cc

same_segment_refl : (p : Buffer) → same_segment p p ≡ true
unfolding same_segment
same_segment_refl p = simp ==_refl

holds_segment-append :
    (p : Buffer) (us : List UnsolPkt) (u : UnsolPkt)
    → same_segment p u.ip_packet ≡ true
    → holds_segment p (us ++ u ∷ []) ≡ true
unfolding holds_segment
holds_segment-append p [] u h = rw h
holds_segment-append p (v ∷ us) u h = ground (arith, holds_segment-append p us u h)

-- A packet that is received again, at any later time, is not stored twice.
pub sr_nat_insert_unsolicited_packet_twice :
    (p : Buffer) (us : List UnsolPkt) (now later : ℕ)
    → (sr_nat_insert_unsolicited_packet (pkts us) p now >>= λ h.
        sr_nat_insert_unsolicited_packet h p later)
      ≡ sr_nat_insert_unsolicited_packet (pkts us) p now
unfolding sr_nat_insert_unsolicited_packet
sr_nat_insert_unsolicited_packet_twice p us now later = elim (Bool-cases (holds_segment p us)) [
  | inl t ↦ rw (t, t)
  | inr f ↦ rw (
    f,
    holds_segment-append p us (record { ip_packet = p; last_updated = now }) (same_segment_refl p),
  )
]
