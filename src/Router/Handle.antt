-- ===== src/Router/Handle.antt =====
-- `sr_handlepacket`, `sr_handle_arp` and `sr_handle_ippacket` of router/sr_router.c.
pub mod Arrival
pub mod ArpAnswer
pub mod Forward
pub mod Waiting
pub mod Resolved
pub mod Delayed
pub mod Message
pub mod Echo
pub mod Refused
pub mod Ignored
pub mod Passed
use cscd58_nat.Base.{
  ℕ, ◌-◌, List, [], ◌∷◌, Option, none, some, Bool, true, false, not, ◌==◌, ◌&&◌, ◌||◌, ltb, leb,
  if◌then◌else◌, Buffer, view, load8, drop, length, ntohs, ◌>>=◌, ◌>>◌,
}
use cscd58_nat.Proto.Ether
use cscd58_nat.Proto.Arp
use cscd58_nat.Proto.Ip
use cscd58_nat.Proto.Icmp
use cscd58_nat.Cksum.{cksum_at}
use cscd58_nat.If.{SrIf, sr_get_interface}
use cscd58_nat.Arp.{SrPacket, sr_arpcache_insert, sr_arpreq_destroy}
use cscd58_nat.Instance.{Sr}
use cscd58_nat.Send.{same_bytes, sr_send_packet}
use cscd58_nat.Build.{sr_create_etherframe}
use cscd58_nat.Router.Output.{sr_send_arp, sr_send_icmp, sr_forward_ippacket}
use cscd58_nat.Router.Translate.{dropped, refused, handled, Result, nat_handle_icmp, nat_handle_tcp}

-- `ip_broadcast_addr`
abbrev pub ip_broadcast_addr : ℕ
ip_broadcast_addr = 0xFFFFFFFF

-- `while(!matches_router_if && curr)`
unfoldable pub matches_router_if : ℕ → List SrIf → Bool
matches_router_if dest_ip [] = false
matches_router_if dest_ip (i ∷ is) = if i.ip == dest_ip then true else matches_router_if dest_ip is

-- The checksum test: the sum over `len` bytes at `offset`, with the field cleared, is what the
-- field held. The field is put back, so the packet stays as it was.
unfoldable pub sum_matches : Buffer → Buffer → ℕ → ℕ → ℕ → Option Bool
sum_matches packet cleared offset len sum = do
  computed ← cksum_at cleared offset len
  some (computed == sum)

unfoldable pub reply_or_translate : Sr → Buffer → List ℕ → ℕ → Option Sr
reply_or_translate sr packet interface now =
    let type = Icmp.icmp_type packet (Ip.header_len packet) in
    if type == 8
    then sr_send_icmp sr packet interface Icmp.echoreply 0
    else if sr.nat_enabled && type == 0
    then (nat_handle_icmp sr packet now >>= λ r.
        if r.0 then sr_forward_ippacket r.2 r.1 interface else some r.2)
    else some sr

unfoldable pub icmp_to_router : Sr → Buffer → List ℕ → ℕ → Option Sr
unfolding sum_matches reply_or_translate
icmp_to_router sr packet interface now = do
  let o = Ip.header_len packet
  view packet o Icmp.size
  good ← sum_matches packet (Icmp.set_sum packet o 0) o (length packet - o) (Icmp.sum packet o)
  (if good then reply_or_translate sr packet interface now else some sr)

abbrev after_tcp_to_router : List ℕ → Result → Option Sr
after_tcp_to_router interface r = elim r.code [
  | handled ↦ sr_forward_ippacket r.sr r.packet interface
  | dropped ↦ some r.sr
  | refused ↦ sr_send_icmp r.sr r.packet interface Icmp.dstunreachable 3
]

unfoldable pub to_router : Sr → Buffer → List ℕ → ℕ → Option Sr
unfolding icmp_to_router
to_router sr packet interface now =
    let protocol = Ip.proto packet in
    if protocol == Ip.protocol_icmp
    then icmp_to_router sr packet interface now
    else if sr.nat_enabled && protocol == Ip.protocol_tcp
    then (nat_handle_tcp sr packet true now >>= after_tcp_to_router interface)
    else if protocol == Ip.protocol_tcp || protocol == Ip.protocol_udp
    then sr_send_icmp sr packet interface Icmp.dstunreachable 3
    else sr_send_icmp sr packet interface Icmp.dstunreachable 2

abbrev after_tcp_elsewhere : List ℕ → Result → Option Sr
after_tcp_elsewhere interface r = elim r.code [
  | refused ↦ sr_send_icmp r.sr r.packet interface Icmp.dstunreachable 1
  | _ ↦ sr_forward_ippacket r.sr r.packet interface
]

-- `(ip_header->ip_ttl)-1 == 0` is a comparison of ints: it holds for a TTL of 1 only.
unfoldable pub to_elsewhere : Sr → Buffer → List ℕ → ℕ → Option Sr
to_elsewhere sr packet interface now =
    let protocol = Ip.proto packet in
    if Ip.ttl packet == 1
    then sr_send_icmp sr packet interface Icmp.timeexceeded 0
    else if sr.nat_enabled && protocol == Ip.protocol_icmp
    then (nat_handle_icmp sr packet now >>= λ r. sr_forward_ippacket r.2 r.1 interface)
    else if sr.nat_enabled && protocol == Ip.protocol_tcp
    then (nat_handle_tcp sr packet false now >>= after_tcp_elsewhere interface)
    else sr_forward_ippacket sr packet interface

unfoldable pub dispatch_ip : Sr → Buffer → List ℕ → ℕ → Option Sr
unfolding to_router to_elsewhere matches_router_if
dispatch_ip sr packet interface now =
    if matches_router_if (Ip.dst packet) sr.if_list || Ip.dst packet == ip_broadcast_addr
    then to_router sr packet interface now
    else to_elsewhere sr packet interface now

unfoldable pub sr_handle_ippacket : Sr → Buffer → List ℕ → ℕ → Option Sr
unfolding sum_matches dispatch_ip
sr_handle_ippacket sr packet interface now =
    if ltb Ip.maxpacket (length packet) || leb (length packet) Ip.size
    then some sr
    else (sum_matches packet (Ip.set_sum packet 0) 0 (Ip.header_len packet) (Ip.sum packet)
        >>= λ good. if good then dispatch_ip sr packet interface now else some sr)

-- The loop over the packets that waited for the reply. Each frame is handed to `interface`, where
-- the reply came in.
unfoldable pub send_waiting : Sr → Buffer → List ℕ → List SrPacket → Option Sr
send_waiting sr mac interface [] = some sr
send_waiting sr mac interface (p ∷ ps) = elim (sr_get_interface sr.if_list p.iface) [
  | none ↦ none
  | some curr_iface ↦
      send_waiting
        (sr_send_packet sr (sr_create_etherframe p.buf mac curr_iface.addr Ether.ethertype_ip)
          interface)
        mac interface ps
]

unfoldable pub handle_arp_reply : Sr → Buffer → ℕ → List ℕ → ℕ → Option Sr
unfolding send_waiting
handle_arp_reply sr mac ip interface now =
    let (req, cache) = sr_arpcache_insert sr.cache mac ip now in
    let sr' : Sr = record sr { cache = cache } in
    elim req [
      | none ↦ some sr'
      | some arp_req ↦ do
        sr'' ← send_waiting sr' mac interface arp_req.packets
        some (record sr'' { cache = sr_arpreq_destroy sr''.cache ip })
    ]

-- The request that the insertion takes off the queue is not used: its packets are lost.
unfoldable pub handle_arp_request : Sr → Buffer → ℕ → List ℕ → ℕ → Option Sr
handle_arp_request sr mac ip interface now =
    let (req, cache) = sr_arpcache_insert sr.cache mac ip now in
    sr_send_arp (record sr { cache = cache }) interface Arp.op_reply mac ip

unfoldable pub sr_handle_arp : Sr → Buffer → List ℕ → ℕ → Option Sr
unfolding handle_arp_reply handle_arp_request
sr_handle_arp sr packet interface now =
    view packet 0 Arp.size
    >> (if ntohs (Arp.hrd packet) == Arp.hrd_ethernet && ntohs (Arp.pro packet) == Arp.pro_ip
        then if ntohs (Arp.op packet) == Arp.op_request
          then handle_arp_request sr (Arp.sha packet) (Arp.sip packet) interface now
          else if ntohs (Arp.op packet) == Arp.op_reply
          then handle_arp_reply sr (Arp.sha packet) (Arp.sip packet) interface now
          else some sr
        else some sr)

-- The first `memcmp` compares one byte: its length argument is `ETHER_ADDR_LEN != 0`.
unfoldable pub wrong_destination : Buffer → SrIf → Bool
wrong_destination packet i =
    not (load8 packet 0 == 0xFF) && not (same_bytes (Ether.dhost packet) i.addr)

-- The payload goes to the handler of its type.
unfoldable pub handle_payload : Sr → Buffer → ℕ → List ℕ → ℕ → Option Sr
unfolding sr_handle_arp sr_handle_ippacket
handle_payload sr payload ethertype interface now =
    if ethertype == Ether.ethertype_arp
    then sr_handle_arp sr payload interface now
    else if ethertype == Ether.ethertype_ip
    then sr_handle_ippacket sr payload interface now
    else some sr

unfoldable pub sr_handlepacket : Sr → Buffer → List ℕ → ℕ → Option Sr
unfolding handle_payload wrong_destination
sr_handlepacket sr packet interface now =
    view packet 0 Ether.size
    >> (sr_get_interface sr.if_list interface >>= λ i.
        if wrong_destination packet i
        then some sr
        else handle_payload sr (drop Ether.size packet) (ntohs (Ether.ether_type packet)) interface
            now)
