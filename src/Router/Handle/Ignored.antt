-- ===== src/Router/Handle/Ignored.antt =====
-- Frames that have no effect: the early returns of `sr_handlepacket`, `sr_handle_arp` and
-- `sr_handle_ippacket` in router/sr_router.c.
use cscd58_nat.Base.{
  ℕ, ◌+◌, ◌-◌, ◌≤◌, ◌<◌, ◌≡◌, ◌≢◌, ◌⊎◌, inl, inr, ◌∙◌, refl, List, [], ◌∷◌, some, true, arith,
  Buffer, length, drop, load8, ntohs, Bool-cases,
}
use cscd58_nat.Proto.Ether
use cscd58_nat.Proto.Arp
use cscd58_nat.Proto.Ip
use cscd58_nat.Proto.Icmp
use cscd58_nat.Cksum.{cksum_at}
use cscd58_nat.If.{SrIf, sr_get_interface}
use cscd58_nat.Instance.{Sr}
use cscd58_nat.Send.{same_bytes}
use cscd58_nat.Router.Handle.{
  ip_broadcast_addr, matches_router_if, sum_matches, icmp_to_router, to_router, dispatch_ip,
  sr_handle_arp, sr_handle_ippacket, wrong_destination, handle_payload, sr_handlepacket,
}
use cscd58_nat.Router.Handle.Arrival.{Arrives, sr_handlepacket-Arrives}
use cscd58_nat.Router.Handle.Forward.{IsIp, sr_handle_ippacket-IsIp}

same_bytes-eq : (a b : Buffer) → same_bytes a b ≡ true → a ≡ b
unfolding same_bytes
same_bytes-eq [] [] h = refl
same_bytes-eq [] (y ∷ b) h = absurd (cc h)
same_bytes-eq (x ∷ a) [] h = absurd (cc h)
same_bytes-eq (x ∷ a) (y ∷ b) h = ground (arith, same_bytes-eq a b)

-- The checksum that the router computes is another than the one in the packet.
abbrev pub SumRefused : Buffer → Type 0
SumRefused p = (s : ℕ) × (cksum_at (Ip.set_sum p 0) 0 (Ip.header_len p) ≡ some s) × (s ≢ Ip.sum p)

-- The ICMP checksum is another than the one in the packet.
abbrev pub IcmpSumRefused : Buffer → Type 0
IcmpSumRefused p =
    let o = Ip.header_len p in
    (s : ℕ) × (cksum_at (Icmp.set_sum p o 0) o (length p - o) ≡ some s) × (s ≢ Icmp.sum p o)

-- Why an IP packet is ignored: its length, its checksum, or, for the router, that of its ICMP
-- message.
pub data IpIgnored (sr : Sr) (p : Buffer) : Type 0 where
  size : (length p ≤ Ip.size) ⊎ (Ip.maxpacket < length p) → IpIgnored sr p
  sum : Ip.size < length p → length p ≤ Ip.maxpacket → SumRefused p → IpIgnored sr p
  icmp_sum :
      IsIp p
      → (matches_router_if (Ip.dst p) sr.if_list ≡ true) ⊎ (Ip.dst p ≡ ip_broadcast_addr)
      → Ip.proto p ≡ Ip.protocol_icmp
      → Ip.header_len p + Icmp.size ≤ length p
      → IcmpSumRefused p
      → IpIgnored sr p

-- An ARP packet that is neither a request nor a reply for Ethernet and IP.
abbrev pub OtherArp : Buffer → Type 0
OtherArp a =
    (Arp.size ≤ length a)
    × ((ntohs (Arp.hrd a) ≢ Arp.hrd_ethernet)
        ⊎ (ntohs (Arp.pro a) ≢ Arp.pro_ip)
        ⊎ ((ntohs (Arp.op a) ≢ Arp.op_request) × (ntohs (Arp.op a) ≢ Arp.op_reply)))

-- Why a frame is ignored: it is for another host, it has another type, its ARP packet is neither a
-- request nor a reply for Ethernet and IP, or its IP packet is ignored.
pub data Ignored (sr : Sr) (packet : Buffer) (interface : List ℕ) (i : SrIf) : Type 0 where
  other_host :
      Ether.size ≤ length packet
      → sr_get_interface sr.if_list interface ≡ some i
      → load8 packet 0 ≢ 0xFF
      → Ether.dhost packet ≢ i.addr
      → Ignored sr packet interface i
  other_type :
      (type : ℕ)
      → Arrives sr.if_list packet interface i type
      → type ≢ Ether.ethertype_arp
      → type ≢ Ether.ethertype_ip
      → Ignored sr packet interface i
  other_arp :
      Arrives sr.if_list packet interface i Ether.ethertype_arp
      → OtherArp (drop Ether.size packet)
      → Ignored sr packet interface i
  ip :
      Arrives sr.if_list packet interface i Ether.ethertype_ip
      → IpIgnored sr (drop Ether.size packet)
      → Ignored sr packet interface i

wrong_destination-true :
    (packet : Buffer) (i : SrIf)
    → load8 packet 0 ≢ 0xFF
    → Ether.dhost packet ≢ i.addr
    → wrong_destination packet i ≡ true
unfolding wrong_destination
wrong_destination-true packet i first other =
    elim (Bool-cases (same_bytes (Ether.dhost packet) i.addr)) [
      | inl t ↦ absurd (other (same_bytes-eq (Ether.dhost packet) i.addr t))
      | inr f ↦ ground arith
    ]

sr_handle_ippacket-IpIgnored :
    (sr : Sr) (p : Buffer) (interface : List ℕ) (now : ℕ)
    → IpIgnored sr p
    → sr_handle_ippacket sr p interface now ≡ some sr
unfolding sr_handle_ippacket sum_matches dispatch_ip to_router icmp_to_router
sr_handle_ippacket-IpIgnored sr p interface now (size wrong) = ground arith
sr_handle_ippacket-IpIgnored sr p interface now (sum long short (s, e, other)) =
    rw (e, sr_handle_ippacket, sum_matches) (ground arith)
sr_handle_ippacket-IpIgnored sr p interface now (icmp_sum is ours proto whole (s, e, other)) =
    sr_handle_ippacket-IsIp sr p interface now is
    ∙ rw (proto, e, dispatch_ip, to_router, icmp_to_router, sum_matches) (ground arith)

-- A frame that is ignored leaves the state of the router as it is: nothing is written.
pub ignored :
    (sr : Sr) (packet : Buffer) (interface : List ℕ) (now : ℕ) (i : SrIf)
    → Ignored sr packet interface i
    → sr_handlepacket sr packet interface now ≡ some sr
unfolding sr_handlepacket handle_payload sr_handle_arp
ignored sr packet interface now i (other_host long known first other) =
    rw (known, wrong_destination-true packet i first other, sr_handlepacket) (ground arith)
ignored sr packet interface now i (other_type type arrives a b) =
    sr_handlepacket-Arrives sr packet interface now i type arrives ∙ ground arith
ignored sr packet interface now i (other_arp arrives why) =
    sr_handlepacket-Arrives sr packet interface now i Ether.ethertype_arp arrives ∙ ground arith
ignored sr packet interface now i (ip arrives why) =
    sr_handlepacket-Arrives sr packet interface now i Ether.ethertype_ip arrives
    ∙ sr_handle_ippacket-IpIgnored sr (drop Ether.size packet) interface now why
