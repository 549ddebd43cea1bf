-- ===== src/Router/Handle/Echo.antt =====
-- Echo requests to the router: `sr_handle_ippacket` and `sr_create_icmppacket` of router/sr_router.c.
use cscd58_nat.Base.{
  ℕ, ◌+◌, ◌-◌, ◌≤◌, ◌≡◌, ◌∙◌, refl, List, some, true, arith, Buffer, length, take, drop, ntohs,
  length-take, length-drop, ==_refl,
}
use cscd58_nat.Proto.Ether
use cscd58_nat.Proto.Ip
use cscd58_nat.Proto.Icmp
use cscd58_nat.Cksum.{cksum_at}
use cscd58_nat.Cksum.Sum.{load32-AllBytes}
use cscd58_nat.If.{SrIf}
use cscd58_nat.Arp.{ArpEntry}
use cscd58_nat.Instance.{Sr}
use cscd58_nat.Build.{icmp_body}
use cscd58_nat.Router.Output.{icmp_source, sr_send_icmp}
use cscd58_nat.Router.Handle.{
  matches_router_if, sum_matches, reply_or_translate, icmp_to_router, to_router, dispatch_ip,
  handle_payload, sr_handlepacket,
}
use cscd58_nat.Router.Handle.Arrival.{Arrives, sr_handlepacket-Arrives, sent_on}
use cscd58_nat.Router.Handle.Forward.{IsIp, sr_handle_ippacket-IsIp}
use cscd58_nat.Router.Handle.Message.{IsKnown, IsIcmpFrame, sr_send_icmp-IsIcmpFrame}

-- An echo request without IP options that holds a whole ICMP header, in a packet that is as long as
-- its header says, and whose ICMP checksum is right.
pub record IsEchoRequest (p : Buffer) : Type 0 where
  pub proto : Ip.proto p ≡ Ip.protocol_icmp
  pub plain : Ip.header_len p ≡ Ip.size
  pub whole : Ip.size + Icmp.size ≤ ntohs (Ip.len p)
  pub total : ntohs (Ip.len p) ≤ length p
  pub icmp_type : Icmp.icmp_type p Ip.size ≡ 8
  pub sum :
      cksum_at (Icmp.set_sum p Ip.size 0) Ip.size (length p - Ip.size) ≡ some (Icmp.sum p Ip.size)

-- The identifier, the sequence number and the data of the request.
abbrev pub echoed : Buffer → Buffer
echoed p = take (ntohs (Ip.len p) - Ip.size - 4) (drop (Ip.size + 4) p)

icmp_body-echoed : (p : Buffer) → IsEchoRequest p → icmp_body p Icmp.echoreply ≡ some (echoed p)
unfolding icmp_body
icmp_body-echoed p is = ground (arith, is.whole, is.total)

dispatch_ip-echo :
    (sr : Sr) (p : Buffer) (interface : List ℕ) (now : ℕ)
    → IsEchoRequest p
    → matches_router_if (Ip.dst p) sr.if_list ≡ true
    → dispatch_ip sr p interface now ≡ sr_send_icmp sr p interface Icmp.echoreply 0
unfolding dispatch_ip to_router icmp_to_router sum_matches reply_or_translate
dispatch_ip-echo sr p interface now is ours =
    rw
      (
        ours,
        is.proto,
        is.plain,
        is.sum,
        ==_refl (Icmp.sum p Ip.size),
        is.icmp_type,
        dispatch_ip,
        to_router,
        icmp_to_router,
        sum_matches,
        reply_or_translate,
      )
      (ground (arith, is.whole, is.total))

-- An echo request for an address of the router that arrives on an interface, where the ARP cache
-- knows its sender: the router writes one frame more, on that interface, to the sender's hardware
-- address, with an echo reply from the address that was asked to the one that asked, with the
-- request's identifier, sequence number and data; nothing else of the state changes, with or without
-- the translation switched on.
pub echo_answered :
    (sr : Sr) (packet : Buffer) (interface : List ℕ) (now : ℕ) (i : SrIf) (entry : ArpEntry)
    → Arrives sr.if_list packet interface i Ether.ethertype_ip
    → let p = drop Ether.size packet in
      IsIp p
      → IsEchoRequest p
      → matches_router_if (Ip.dst p) sr.if_list ≡ true
      → IsKnown sr (Ip.src p) entry
      → (frame : Buffer) × (sr_handlepacket sr packet interface now
          ≡ some (sent_on sr interface frame))
        × IsIcmpFrame entry.mac i.addr (Ip.dst p) (Ip.src p) Icmp.echoreply 0 (echoed p) frame
unfolding handle_payload icmp_source
echo_answered sr packet interface now i entry arrives is request ours way =
    let p = drop Ether.size packet in
    let short : length (echoed p) ≤ ntohs (Ip.len p) - 24 = omega (
      arith,
      length-take (ntohs (Ip.len p) - 20 - 4) (drop 24 p)
          (omega (arith, length-drop 24 p, request.total)),
    ) in
    let (frame, sent, answer) =
      sr_send_icmp-IsIcmpFrame sr p interface Icmp.echoreply 0 i entry (echoed p) (Ip.dst p)
        is.bytes (omega (arith, is.long)) arrives.known arrives.address way
        (icmp_body-echoed p request) (omega (arith, request.total, is.short, request.whole)) refl
        (load32-AllBytes p 16 is.bytes) in
    (
      frame,
      sr_handlepacket-Arrives sr packet interface now i Ether.ethertype_ip arrives
          ∙ sr_handle_ippacket-IsIp sr p interface now is
          ∙ dispatch_ip-echo sr p interface now request ours
          ∙ sent,
      answer,
    )
