-- ===== src/Router/Handle/Forward.antt =====
-- IP packets that the router sends on: `sr_handle_ippacket` and `sr_forward_ippacket` of
-- router/sr_router.c.
use cscd58_nat.Base.{
  ℕ, ◌≤◌, ◌<◌, ◌≡◌, ◌≢◌, ◌⊎◌, ap, ◌∙◌, List, some, false, arith, Buffer, length, drop, ==_refl,
}
use cscd58_nat.Proto.Ether
use cscd58_nat.Proto.Ip
use cscd58_nat.Cksum.Sum.{AllBytes}
use cscd58_nat.If.{SrIf, sr_get_interface}
use cscd58_nat.Rt.{RtEntry, sr_rt_lookup}
use cscd58_nat.Arp.{ArpEntry, sr_arpcache_lookup}
use cscd58_nat.Instance.{Sr}
use cscd58_nat.Build.{sr_create_etherframe}
use cscd58_nat.Build.ReadBack.{IsFrame}
use cscd58_nat.Router.Output.{send_or_queue, sr_forward_ippacket}
use cscd58_nat.Router.Output.Accepted.{SumAccepted}
use cscd58_nat.Router.Output.Hop.{IsHop, decrement_ttl-IsHop}
use cscd58_nat.Router.Handle.{
  ip_broadcast_addr, matches_router_if, sum_matches, to_elsewhere, dispatch_ip, sr_handle_ippacket,
  handle_payload, sr_handlepacket,
}
use cscd58_nat.Router.Handle.Arrival.{Arrives, sr_handlepacket-Arrives, sent_on, send_built_frame}

-- An IP packet, of bytes and of a length that the router takes, whose header lies in it and has the
-- right checksum.
pub record IsIp (p : Buffer) : Type 0 where
  pub bytes : AllBytes p
  pub long : Ip.size < length p
  pub short : length p ≤ Ip.maxpacket
  pub header : Ip.header_len p ≤ length p
  pub sum : SumAccepted p

-- A packet that is on its way to somewhere else, by the route `lpm`, and that is not translated.
pub record IsTransit (sr : Sr) (p : Buffer) (lpm : RtEntry) : Type 0 where
  pub ip : IsIp p
  pub elsewhere : matches_router_if (Ip.dst p) sr.if_list ≡ false
  pub unicast : Ip.dst p ≢ ip_broadcast_addr
  pub ttl : 1 < Ip.ttl p
  pub plain :
      (sr.nat_enabled ≡ false) ⊎ ((Ip.proto p ≢ Ip.protocol_icmp) × (Ip.proto p ≢ Ip.protocol_tcp))
  pub route : sr_rt_lookup sr.routing_table (Ip.dst p) ≡ some (some lpm)

pub sr_handle_ippacket-IsIp :
    (sr : Sr) (p : Buffer) (interface : List ℕ) (now : ℕ)
    → IsIp p
    → sr_handle_ippacket sr p interface now ≡ dispatch_ip sr p interface now
unfolding sr_handle_ippacket sum_matches
sr_handle_ippacket-IsIp sr p interface now is =
    rw (is.sum, ==_refl (Ip.sum p), sr_handle_ippacket, sum_matches)
      (ground (arith, is.long, is.short))

to_elsewhere-IsTransit :
    (sr : Sr) (p : Buffer) (interface : List ℕ) (now : ℕ) (lpm : RtEntry)
    → IsTransit sr p lpm
    → dispatch_ip sr p interface now ≡ sr_forward_ippacket sr p interface
unfolding dispatch_ip to_elsewhere
to_elsewhere-IsTransit sr p interface now lpm is =
    ground (arith, is.elsewhere, is.unicast, is.ttl, is.plain)

-- Such a packet, as it is one hop later, is sent or queued for the next hop.
pub sr_handlepacket-IsTransit :
    (sr : Sr) (packet : Buffer) (interface : List ℕ) (now : ℕ) (i : SrIf) (lpm : RtEntry)
    → Arrives sr.if_list packet interface i Ether.ethertype_ip
    → IsTransit sr (drop Ether.size packet) lpm
    → (q : Buffer) × (sr_handlepacket sr packet interface now
        ≡ send_or_queue sr (sr_arpcache_lookup sr.cache lpm.gw) lpm.gw q lpm.interface interface)
      × IsHop (drop Ether.size packet) q
      × (length q ≡ length (drop Ether.size packet))
unfolding handle_payload sr_forward_ippacket
sr_handlepacket-IsTransit sr packet interface now i lpm arrives is =
    let p = drop Ether.size packet in
    let (q, e, hop, size) =
      decrement_ttl-IsHop p is.ip.bytes (omega (arith, is.ip.long)) is.ip.header
        (omega (arith, is.ttl)) in
    (
      q,
      sr_handlepacket-Arrives sr packet interface now i Ether.ethertype_ip arrives
          ∙ sr_handle_ippacket-IsIp sr p interface now is.ip
          ∙ to_elsewhere-IsTransit sr p interface now lpm is
          ∙ rw (is.route, e, sr_forward_ippacket) (ground (arith, is.ip.long)),
      hop,
      size,
    )

-- A packet in transit that arrives on an interface of the router, where the ARP cache has an entry
-- with six bytes of address for the next hop and the route's interface exists, with six bytes of
-- address: the router writes one frame more, on the route's interface, from its address to the next
-- hop's, with the packet as it is one hop later; nothing else of the state changes.
pub forwarded :
    (sr : Sr) (packet : Buffer) (interface : List ℕ) (now : ℕ) (i out : SrIf) (lpm : RtEntry)
    (entry : ArpEntry)
    → Arrives sr.if_list packet interface i Ether.ethertype_ip
    → IsTransit sr (drop Ether.size packet) lpm
    → sr_get_interface sr.if_list lpm.interface ≡ some out
    → length out.addr ≡ 6
    → sr_arpcache_lookup sr.cache lpm.gw ≡ some entry
    → length entry.mac ≡ 6
    → (q : Buffer) × (frame : Buffer) × (sr_handlepacket sr packet interface now
        ≡ some (sent_on sr lpm.interface frame))
      × IsFrame entry.mac out.addr Ether.ethertype_ip q frame
      × IsHop (drop Ether.size packet) q
unfolding send_or_queue
forwarded sr packet interface now i out lpm entry arrives is known address cached mac =
    let (q, e, hop, size) = sr_handlepacket-IsTransit sr packet interface now i lpm arrives is in
    let (sent, frame) =
      send_built_frame sr q entry.mac Ether.ethertype_ip lpm.interface out known address mac
        (omega arith) in
    (
      q,
      sr_create_etherframe q entry.mac out.addr Ether.ethertype_ip,
      e ∙ rw (cached, known, send_or_queue) (ap some sent),
      frame,
      hop,
    )
