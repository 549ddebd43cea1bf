-- ===== src/Router/Through.antt =====
-- ICMP packets that `sr_handlepacket` of router/sr_router.c translates and sends on, from inside to
-- outside and back.
use cscd58_nat.Base.{
  ℕ, ◌-◌, ◌<◌, ◌^◌, ◌≡◌, ◌≢◌, refl, sym, ap, ◌∙◌, List, some, true, false, arith, Buffer, length,
  drop, ntohs, ntohl, ==_refl, ◌>>=◌,
}
use mathlib.Core.Path.{subst}
use cscd58_nat.Proto.Ether
use cscd58_nat.Proto.Ip
use cscd58_nat.Proto.Icmp
use cscd58_nat.Cksum.{cksum_at}
use cscd58_nat.PrivateIp.{is_private_ip}
use cscd58_nat.If.{SrIf}
use cscd58_nat.Rt.{RtEntry, sr_rt_lookup}
use cscd58_nat.Arp.{ArpEntry}
use cscd58_nat.Nat.Types.{icmp, Mapping}
use cscd58_nat.Nat.Table.{sr_nat_lookup_external}
use cscd58_nat.Instance.{Sr}
use cscd58_nat.Router.Output.{sr_forward_ippacket}
use cscd58_nat.Router.Translate.{route_ip, icmp_mapping, nat_handle_icmp}
use cscd58_nat.Router.Translate.Refresh.{IcmpFits}
use cscd58_nat.Router.Translate.RoundTrip.{
  icmp_outbound_lem, icmp_inbound_lem, nat_handle_icmp_outward, nat_handle_icmp_inward,
}
use cscd58_nat.Router.Handle.{
  matches_router_if, sum_matches, reply_or_translate, icmp_to_router, to_router, to_elsewhere,
  dispatch_ip, handle_payload, sr_handlepacket,
}
use cscd58_nat.Router.Handle.Arrival.{Arrives, sr_handlepacket-Arrives, sent_on}
use cscd58_nat.Router.Handle.Forward.{IsIp, sr_handle_ippacket-IsIp}
use cscd58_nat.Router.Handle.Refused.{IsElsewhere}
use cscd58_nat.Router.Handle.Passed.{IsWay, IsPassed, sr_forward_ippacket-IsPassed}

-- An ICMP packet from a private address to one that is not, which is not for the router.
pub record IsInner (sr : Sr) (p : Buffer) : Type 0 where
  pub ip : IsIp p
  pub fits : IcmpFits p
  pub proto : Ip.proto p ≡ Ip.protocol_icmp
  pub private_src : is_private_ip (ntohl (Ip.src p)) ≡ true
  pub public_dst : is_private_ip (ntohl (Ip.dst p)) ≡ false
  pub away : IsElsewhere sr p
  pub ttl : Ip.ttl p ≢ 1

-- An echo reply to an address of the router, from an address that is not private, with the right ICMP
-- checksum.
pub record IsAnswer (sr : Sr) (r : Buffer) : Type 0 where
  pub ip : IsIp r
  pub fits : IcmpFits r
  pub proto : Ip.proto r ≡ Ip.protocol_icmp
  pub public_src : is_private_ip (ntohl (Ip.src r)) ≡ false
  pub ours : matches_router_if (Ip.dst r) sr.if_list ≡ true
  pub icmp_type : Icmp.icmp_type r (Ip.header_len r) ≡ Icmp.echoreply
  pub sum :
      cksum_at (Icmp.set_sum r (Ip.header_len r) 0) (Ip.header_len r) (length r - Ip.header_len r)
      ≡ some (Icmp.sum r (Ip.header_len r))

dispatch_ip-IsInner :
    (sr : Sr) (p : Buffer) (interface : List ℕ) (now : ℕ)
    → sr.nat_enabled ≡ true
    → IsInner sr p
    → dispatch_ip sr p interface now
      ≡ (nat_handle_icmp sr p now >>= λ r. sr_forward_ippacket r.2 r.1 interface)
unfolding dispatch_ip to_elsewhere
dispatch_ip-IsInner sr p interface now on is =
    ground (arith, is.away.elsewhere, is.away.unicast, is.ttl, is.proto)

dispatch_ip-IsAnswer :
    (sr : Sr) (r q : Buffer) (interface : List ℕ) (now : ℕ)
    → sr.nat_enabled ≡ true
    → IsAnswer sr r
    → nat_handle_icmp sr r now ≡ some (true, q, sr)
    → dispatch_ip sr r interface now ≡ sr_forward_ippacket sr q interface
unfolding dispatch_ip to_router icmp_to_router sum_matches reply_or_translate
dispatch_ip-IsAnswer sr r q interface now on is e =
    rw
      (
        is.ours,
        is.proto,
        is.sum,
        ==_refl (Icmp.sum r (Ip.header_len r)),
        is.icmp_type,
        e,
        dispatch_ip,
        to_router,
        icmp_to_router,
        sum_matches,
        reply_or_translate,
      )
      (ground (arith, is.fits.header))

-- The frame that an inner packet leaves as.
pub inner_out :
    (sr : Sr) (packet : Buffer) (interface : List ℕ) (now : ℕ) (i out : SrIf) (lpm : RtEntry)
    (hop : ArpEntry)
    → sr.nat_enabled ≡ true
    → Arrives sr.if_list packet interface i Ether.ethertype_ip
    → let p = drop Ether.size packet in
      IsInner sr p
      → IsWay sr (Ip.dst p) lpm out hop
      → out.ip < 2 ^ 32
      → let (m, nat') =
          icmp_mapping sr.nat
            (ntohl (Ip.src p))
            (ntohs (Icmp.identifier p (Ip.header_len p)))
            now in
        (frame : Buffer) × (sr_handlepacket sr packet interface now
          ≡ some (sent_on (record sr { nat = nat' }) lpm.interface frame))
        × IsPassed hop.mac out.addr out.ip (Ip.dst p) (ntohs m.aux_ext) frame
unfolding handle_payload route_ip
inner_out sr packet interface now i out lpm hop on arrives is way small =
    let p = drop Ether.size packet in
    let o = Ip.header_len p in
    let nat' = (icmp_mapping sr.nat (ntohl (Ip.src p)) (ntohs (Icmp.identifier p o)) now).1 in
    let sr' : Sr = record sr { nat = nat' } in
    let (q, out_is, src, dst, hl, ident, size) =
      icmp_outbound_lem sr p now lpm out.ip is.fits way.route (rw (way.iface) refl) small in
    let way' : IsWay sr' (Ip.dst q) lpm out hop = record {
      route = ap (sr_rt_lookup sr.routing_table) dst ∙ way.route;
      iface = way.iface;
      address = way.address;
      next = record { cached = way.next.cached; mac = way.next.mac };
    } in
    let (frame, sent, passed) =
      sr_forward_ippacket-IsPassed sr' q interface lpm out hop (omega (arith, hl, is.fits.apart))
        (omega (arith, hl, size, is.fits.header)) way' in
    let translated =
      nat_handle_icmp_outward sr p now is.fits is.private_src is.public_dst ∙ out_is in
    (
      frame,
      sr_handlepacket-Arrives sr packet interface now i Ether.ethertype_ip arrives
          ∙ sr_handle_ippacket-IsIp sr p interface now is.ip
          ∙ dispatch_ip-IsInner sr p interface now on is
          ∙ rw translated sent,
      record {
        datagram = passed.datagram;
        outer = passed.outer;
        sum = passed.sum;
        src = passed.src ∙ src;
        dst = passed.dst ∙ dst;
        identifier = passed.identifier ∙ ap (Icmp.identifier q) hl ∙ ident;
      },
    )

-- The frame that an answer is passed on as.
pub answer_in :
    (sr : Sr) (packet : Buffer) (interface : List ℕ) (now : ℕ) (i back : SrIf) (lpm : RtEntry)
    (host : ArpEntry) (m : Mapping)
    → sr.nat_enabled ≡ true
    → Arrives sr.if_list packet interface i Ether.ethertype_ip
    → let r = drop Ether.size packet in
      IsAnswer sr r
      → sr_nat_lookup_external sr.nat (ntohs (Icmp.identifier r (Ip.header_len r))) icmp ≡ some m
      → IsWay sr (ntohl m.ip_int) lpm back host
      → (frame : Buffer) × (sr_handlepacket sr packet interface now
          ≡ some (sent_on sr lpm.interface frame))
        × IsPassed host.mac back.addr (Ip.src r) (ntohl m.ip_int) (ntohs m.aux_int) frame
unfolding handle_payload
answer_in sr packet interface now i back lpm host m on arrives is found way =
    let r = drop Ether.size packet in
    let (q, in_is, dst, src, hl, ident, size) = icmp_inbound_lem sr r m is.fits found in
    let way' : IsWay sr (Ip.dst q) lpm back host =
      subst (λ k. IsWay sr k lpm back host) (sym dst) way in
    let (frame, sent, passed) =
      sr_forward_ippacket-IsPassed sr q interface lpm back host (omega (arith, hl, is.fits.apart))
        (omega (arith, hl, size, is.fits.header)) way' in
    let translated = nat_handle_icmp_inward sr r now is.fits is.public_src ∙ in_is in
    (
      frame,
      sr_handlepacket-Arrives sr packet interface now i Ether.ethertype_ip arrives
          ∙ sr_handle_ippacket-IsIp sr r interface now is.ip
          ∙ dispatch_ip-IsAnswer sr r q interface now on is translated
          ∙ sent,
      record {
        datagram = passed.datagram;
        outer = passed.outer;
        sum = passed.sum;
        src = passed.src ∙ src;
        dst = passed.dst ∙ dst;
        identifier = passed.identifier ∙ ap (Icmp.identifier q) hl ∙ ident;
      },
    )
