-- ===== src/Router/Output.antt =====
-- `sr_send_arp`, `sr_send_icmp` and `sr_forward_ippacket` of router/sr_router.c.
pub mod Accepted
pub mod Hop
use cscd58_nat.Base.{
  ℕ, ◌+◌, ◌*◌, ◌%◌, List, ◌++◌, Option, none, some, ◌==◌, if◌then◌else◌, Buffer, view, ◌>>=◌, ◌>>◌,
}
use cscd58_nat.Proto.Ether
use cscd58_nat.Proto.Ip
use cscd58_nat.Proto.Icmp
use cscd58_nat.Cksum.{cksum_at}
use cscd58_nat.If.{sr_get_interface}
use cscd58_nat.Rt.{RtEntry, sr_rt_lookup}
use cscd58_nat.Arp.{ArpEntry, sr_arpcache_lookup, sr_arpcache_queuereq}
use cscd58_nat.Instance.{Sr}
use cscd58_nat.Send.{sr_send_packet}
use cscd58_nat.Build.{
  sr_create_etherframe, sr_create_arppacket, sr_create_ippacket, sr_create_icmppacket,
}

unfoldable pub sr_send_arp : Sr → List ℕ → ℕ → Buffer → ℕ → Option Sr
sr_send_arp sr interface arp_type dest_ether_addr dest_ip_addr = do
  interface_info ← sr_get_interface sr.if_list interface
  let arp_packet =
      sr_create_arppacket arp_type interface_info.addr interface_info.ip dest_ether_addr
        dest_ip_addr
  let frame =
      sr_create_etherframe arp_packet dest_ether_addr interface_info.addr Ether.ethertype_arp
  some (sr_send_packet sr frame interface)

-- The source address: that of the echo request's destination, or of the interface.
unfoldable pub icmp_source : Sr → Buffer → List ℕ → ℕ → Option ℕ
icmp_source sr packet interface type =
    if type == Icmp.echoreply
    then some (Ip.dst packet)
    else (do interface_info ← sr_get_interface sr.if_list interface; some interface_info.ip)

-- Send out of the interface to the hardware address, or queue for the address asked for.
unfoldable pub send_or_queue : Sr → Option ArpEntry → ℕ → Buffer → List ℕ → List ℕ → Option Sr
send_or_queue sr none ip packet interface sender =
    some (record sr { cache = sr_arpcache_queuereq sr.cache ip packet interface sender })
send_or_queue sr (some arpentry) ip packet interface sender = do
  interface_info ← sr_get_interface sr.if_list interface
  let frame = sr_create_etherframe packet arpentry.mac interface_info.addr Ether.ethertype_ip
  some (sr_send_packet sr frame interface)

unfoldable pub sr_send_icmp : Sr → Buffer → List ℕ → ℕ → ℕ → Option Sr
unfolding icmp_source send_or_queue
sr_send_icmp sr packet interface type code = do
  icmp_packet ← sr_create_icmppacket packet type code
  view packet 0 Ip.size
  source ← icmp_source sr packet interface type
  let ip_packet = sr_create_ippacket icmp_packet Ip.protocol_icmp source (Ip.src packet)
  send_or_queue sr (sr_arpcache_lookup sr.cache (Ip.src packet)) (Ip.src packet) ip_packet interface
      interface

-- `ip_sum = 0; ip_ttl--; ip_sum = cksum(packet, ip_hl * 4)`; `ip_ttl` is a uint8_t.
unfoldable pub decrement_ttl : Buffer → Option Buffer
decrement_ttl packet = do
  let cleared = Ip.set_ttl (Ip.set_sum packet 0) ((Ip.ttl packet + 255) % 256)
  sum ← cksum_at cleared 0 (Ip.header_len cleared)
  some (Ip.set_sum cleared sum)

unfoldable pub sr_forward_ippacket : Sr → Buffer → List ℕ → Option Sr
unfolding decrement_ttl send_or_queue
sr_forward_ippacket sr packet interface = do
  view packet 0 Ip.size
  route ← sr_rt_lookup sr.routing_table (Ip.dst packet)
  elim route [
    | none ↦ sr_send_icmp sr packet interface Icmp.dstunreachable 0
    | some lpm ↦ do
      packet' ← decrement_ttl packet
      send_or_queue sr (sr_arpcache_lookup sr.cache lpm.gw) lpm.gw packet' lpm.interface interface
  ]
