-- ===== src/Router/Handle/Refused.antt =====
-- Packets that the router does not take and does not pass on: the ICMP errors of
-- `sr_handle_ippacket` and `sr_forward_ippacket` in router/sr_router.c.
use cscd58_nat.Base.{
  ℕ, ◌≤◌, ◌<◌, ◌^◌, ◌≡◌, ◌≢◌, ◌⊎◌, ◌∙◌, refl, List, ◌∷◌, some, none, true, false, arith, Buffer,
  length, take, drop, length-take,
}
use cscd58_nat.Proto.Ether
use cscd58_nat.Proto.Ip
use cscd58_nat.Proto.Icmp
use cscd58_nat.If.{SrIf, sr_get_interface}
use cscd58_nat.Rt.{sr_rt_lookup}
use cscd58_nat.Arp.{ArpEntry}
use cscd58_nat.Instance.{Sr}
use cscd58_nat.Build.{icmp_body}
use cscd58_nat.Router.Output.{icmp_source, sr_send_icmp, sr_forward_ippacket}
use cscd58_nat.Router.Handle.{
  ip_broadcast_addr, matches_router_if, to_router, to_elsewhere, dispatch_ip, handle_payload,
  sr_handlepacket,
}
use cscd58_nat.Router.Handle.Arrival.{Arrives, sr_handlepacket-Arrives, sent_on}
use cscd58_nat.Router.Handle.Forward.{IsIp, sr_handle_ippacket-IsIp}
use cscd58_nat.Router.Handle.Message.{IsKnown, IsIcmpFrame, sr_send_icmp-IsIcmpFrame}

-- The packet is not for the router.
pub record IsElsewhere (sr : Sr) (p : Buffer) : Type 0 where
  pub elsewhere : matches_router_if (Ip.dst p) sr.if_list ≡ false
  pub unicast : Ip.dst p ≢ ip_broadcast_addr

-- Why a packet is refused, by the type and the code of the message: it is for elsewhere and its TTL
-- is 1; it has no route and is not translated; it is for a port of the router; it is for the router
-- and has a protocol that is not known.
pub data Refusal (sr : Sr) (p : Buffer) : ℕ → ℕ → Type 0 where
  expired : IsElsewhere sr p → Ip.ttl p ≡ 1 → Refusal sr p Icmp.timeexceeded 0
  unroutable :
      IsElsewhere sr p
      → Ip.ttl p ≢ 1
      → (sr.nat_enabled ≡ false)
        ⊎ ((Ip.proto p ≢ Ip.protocol_icmp) × (Ip.proto p ≢ Ip.protocol_tcp))
      → sr_rt_lookup sr.routing_table (Ip.dst p) ≡ some none
      → Refusal sr p Icmp.dstunreachable 0
  closed_port :
      matches_router_if (Ip.dst p) sr.if_list ≡ true
      → (Ip.proto p ≡ Ip.protocol_udp) ⊎ ((Ip.proto p ≡ Ip.protocol_tcp) × (sr.nat_enabled ≡ false))
      → Refusal sr p Icmp.dstunreachable 3
  unknown_protocol :
      matches_router_if (Ip.dst p) sr.if_list ≡ true
      → Ip.proto p ≢ Ip.protocol_icmp
      → Ip.proto p ≢ Ip.protocol_tcp
      → Ip.proto p ≢ Ip.protocol_udp
      → Refusal sr p Icmp.dstunreachable 2

dispatch_ip-Refusal :
    (sr : Sr) (p : Buffer) (interface : List ℕ) (now type code : ℕ)
    → Ip.size ≤ length p
    → Refusal sr p type code
    → dispatch_ip sr p interface now ≡ sr_send_icmp sr p interface type code
unfolding dispatch_ip to_elsewhere to_router sr_forward_ippacket
dispatch_ip-Refusal sr p interface now type code long (expired away ttl) =
    ground (arith, away.elsewhere, away.unicast)
dispatch_ip-Refusal sr p interface now type code long (unroutable away ttl plain route) =
    ground (arith, away.elsewhere, away.unicast)
dispatch_ip-Refusal sr p interface now type code long (closed_port ours which) = ground arith
dispatch_ip-Refusal sr p interface now type code long (unknown_protocol ours a b c) = ground arith

-- Not an echo reply: the message quotes the first 28 bytes of the packet.
abbrev pub quoted : Buffer → Buffer
quoted p = 0 ∷ 0 ∷ 0 ∷ 0 ∷ take Icmp.data_size p

icmp_body-quoted :
    (sr : Sr) (p : Buffer) (type code : ℕ)
    → Icmp.data_size ≤ length p
    → Refusal sr p type code
    → icmp_body p type ≡ some (quoted p)
unfolding icmp_body
icmp_body-quoted sr p type code long (expired away ttl) = ground arith
icmp_body-quoted sr p type code long (unroutable away ttl plain route) = ground arith
icmp_body-quoted sr p type code long (closed_port ours which) = ground arith
icmp_body-quoted sr p type code long (unknown_protocol ours a b c) = ground arith

icmp_source-Refusal :
    (sr : Sr) (p : Buffer) (interface : List ℕ) (i : SrIf) (type code : ℕ)
    → sr_get_interface sr.if_list interface ≡ some i
    → Refusal sr p type code
    → icmp_source sr p interface type ≡ some i.ip
unfolding icmp_source
icmp_source-Refusal sr p interface i type code known (expired away ttl) =
    rw (known, icmp_source) refl
icmp_source-Refusal sr p interface i type code known (unroutable away ttl plain route) =
    rw (known, icmp_source) refl
icmp_source-Refusal sr p interface i type code known (closed_port ours which) =
    rw (known, icmp_source) refl
icmp_source-Refusal sr p interface i type code known (unknown_protocol ours a b c) =
    rw (known, icmp_source) refl

-- A packet of at least 28 bytes that arrives on an interface and is refused, where the ARP cache
-- knows its sender and the interface's IP address has 32 bits: the router writes one frame more, on
-- that interface, to the sender's hardware address, with an ICMP error from the interface's IP address
-- to the packet's source, with the type and the code of the refusal and the first 28 bytes of the
-- packet; nothing else of the state changes.
pub error_reported :
    (sr : Sr) (packet : Buffer) (interface : List ℕ) (now type code : ℕ) (i : SrIf)
    (entry : ArpEntry)
    → Arrives sr.if_list packet interface i Ether.ethertype_ip
    → i.ip < 2 ^ 32
    → let p = drop Ether.size packet in
      IsIp p
      → Icmp.data_size ≤ length p
      → Refusal sr p type code
      → IsKnown sr (Ip.src p) entry
      → (frame : Buffer) × (sr_handlepacket sr packet interface now
          ≡ some (sent_on sr interface frame))
        × IsIcmpFrame entry.mac i.addr i.ip (Ip.src p) type code (quoted p) frame
unfolding handle_payload
error_reported sr packet interface now type code i entry arrives small is long refused way =
    let p = drop Ether.size packet in
    let (frame, sent, answer) =
      sr_send_icmp-IsIcmpFrame sr p interface type code i entry (quoted p) i.ip is.bytes
        (omega (arith, is.long)) arrives.known arrives.address way
        (icmp_body-quoted sr p type code long refused) (omega (arith, length-take 28 p long))
        (icmp_source-Refusal sr p interface i type code arrives.known refused) small in
    (
      frame,
      sr_handlepacket-Arrives sr packet interface now i Ether.ethertype_ip arrives
          ∙ sr_handle_ippacket-IsIp sr p interface now is
          ∙ dispatch_ip-Refusal sr p interface now type code (omega (arith, is.long)) refused
          ∙ sent,
      answer,
    )
