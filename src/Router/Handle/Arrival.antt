-- ===== src/Router/Handle/Arrival.antt =====
-- A frame on its way into and out of the router: the tests of `sr_handlepacket` in
-- router/sr_router.c and of `sr_send_packet` in router/sr_vns_comm.c.
use cscd58_nat.Base.{
  ℕ, ◌≤◌, ◌<◌, ◌^◌, ◌≡◌, ◌⊎◌, inl, inr, refl, List, [], ◌∷◌, some, true, false, arith, Buffer,
  length, take, drop, load8, ntohs, ==_refl, ltb,
}
use cscd58_nat.Proto.Ether
use cscd58_nat.If.{SrIf, sr_get_interface}
use cscd58_nat.Instance.{Sr}
use cscd58_nat.Send.{same_bytes, sr_send_packet, sr_ether_addrs_match_interface}
use cscd58_nat.Build.{sr_create_etherframe}
use cscd58_nat.Build.ReadBack.{IsFrame, sr_create_etherframe-IsFrame}
use cscd58_nat.Router.Handle.{wrong_destination, handle_payload, sr_handlepacket}

same_bytes_refl : (b : Buffer) → same_bytes b b ≡ true
unfolding same_bytes
same_bytes_refl [] = refl
same_bytes_refl (x ∷ b) = ground (arith, ==_refl x, same_bytes_refl b)

-- A frame with a whole header that arrives on an interface of the router, whose six bytes of address
-- it is for; or its first byte is 0xFF.
pub record Arrives (if_list : List SrIf) (packet : Buffer) (interface : List ℕ) (i : SrIf)
    (type : ℕ) : Type 0 where
  pub known : sr_get_interface if_list interface ≡ some i
  pub address : length i.addr ≡ 6
  pub long : Ether.size ≤ length packet
  pub ours : (load8 packet 0 ≡ 0xFF) ⊎ (Ether.dhost packet ≡ i.addr)
  pub ether_type : ntohs (Ether.ether_type packet) ≡ type

right_destination :
    (packet : Buffer) (i : SrIf)
    → (load8 packet 0 ≡ 0xFF) ⊎ (Ether.dhost packet ≡ i.addr)
    → wrong_destination packet i ≡ false
unfolding wrong_destination
right_destination packet i (inl e) = ground arith
right_destination packet i (inr e) = rw e (ground (arith, same_bytes_refl i.addr))

pub sr_handlepacket-Arrives :
    (sr : Sr) (packet : Buffer) (interface : List ℕ) (now : ℕ) (i : SrIf) (type : ℕ)
    → Arrives sr.if_list packet interface i type
    → sr_handlepacket sr packet interface now
      ≡ handle_payload sr (drop Ether.size packet) type interface now
unfolding sr_handlepacket
sr_handlepacket-Arrives sr packet interface now i type a =
    rw (a.known, right_destination packet i a.ours, a.ether_type, sr_handlepacket)
      (ground (arith, a.long))

-- The state after one more frame has been written.
abbrev pub sent_on : Sr → List ℕ → Buffer → Sr
sent_on sr iface frame = record sr {
  sent = record { iface = take 16 iface; frame = frame } ∷ sr.sent;
}

-- A frame from the interface's own address is written.
pub send_built_frame :
    (sr : Sr) (load dest : Buffer) (type : ℕ) (name : List ℕ) (i : SrIf)
    → sr_get_interface sr.if_list name ≡ some i
    → length i.addr ≡ 6
    → length dest ≡ 6
    → type < 2 ^ 16
    → let frame = sr_create_etherframe load dest i.addr type in
      (sr_send_packet sr frame name ≡ sent_on sr name frame) × IsFrame dest i.addr type load frame
unfolding sr_send_packet sr_ether_addrs_match_interface
send_built_frame sr load dest type name i known address d small =
    let frame = sr_create_etherframe load dest i.addr type in
    let is = sr_create_etherframe-IsFrame load dest i.addr type d address small in
    let long : ltb (length frame) Ether.size ≡ false = ground (arith, is.size) in
    (
      rw
          (
            long,
            known,
            is.shost,
            same_bytes_refl i.addr,
            sr_send_packet,
            sr_ether_addrs_match_interface,
          )
          refl,
      is,
    )
