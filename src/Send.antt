-- ===== src/Send.antt =====
-- `sr_send_packet` and `sr_arp_req_not_for_us` of router/sr_vns_comm.c.
use cscd58_nat.Base.{
  ℕ, ◌+◌, List, [], ◌∷◌, Option, none, some, Bool, true, false, not, ◌==◌, ◌&&◌, ltb, if◌then◌else◌,
  take, length, drop, Buffer, ntohs, ◌>>=◌,
}
use cscd58_nat.Proto.Ether
use cscd58_nat.Proto.Arp
use cscd58_nat.If.{SrIf, sr_get_interface}
use cscd58_nat.Instance.{Sr}

-- `memcmp(a, b, n) == 0` on two arrays of the same length.
unfoldable pub same_bytes : List ℕ → List ℕ → Bool
same_bytes [] [] = true
same_bytes [] (y ∷ b) = false
same_bytes (x ∷ a) [] = false
same_bytes (x ∷ a) (y ∷ b) = x == y && same_bytes a b

-- The interface exists and its address is the frame's source address.
unfoldable pub sr_ether_addrs_match_interface : List SrIf → Buffer → List ℕ → Bool
unfolding same_bytes sr_get_interface
sr_ether_addrs_match_interface if_list buf name = elim (sr_get_interface if_list name) [
  | none ↦ false
  | some iface ↦ same_bytes (Ether.shost buf) iface.addr
]

-- A frame that is too short, or whose source address is not the interface's, is not written. The
-- message carries 16 characters of the interface's name. That `write` takes the whole message is
-- assumed: the callers only print its failure.
unfoldable pub sr_send_packet : Sr → Buffer → List ℕ → Sr
unfolding sr_ether_addrs_match_interface
sr_send_packet sr buf iface =
    if ltb (length buf) Ether.size
    then sr
    else if not (sr_ether_addrs_match_interface sr.if_list buf iface)
    then sr
    else record sr { sent = record { iface = take 16 iface; frame = buf } ∷ sr.sent }

-- An ARP request for another address than the interface's. A frame too short for an ARP packet is
-- none; otherwise the interface has to exist.
unfoldable pub sr_arp_req_not_for_us : List SrIf → Buffer → List ℕ → Option Bool
unfolding sr_get_interface
sr_arp_req_not_for_us if_list packet interface =
    if ltb (length packet) (Ether.size + Arp.size) then some false else (do
      iface ← sr_get_interface if_list interface
      let a_hdr = drop Ether.size packet
      some (
          Ether.ether_type packet == ntohs Ether.ethertype_arp
          && Arp.op a_hdr == ntohs Arp.op_request
          && not (Arp.tip a_hdr == iface.ip)))
