-- ===== src/Router/Translate/NoRoute.antt =====
-- Outbound TCP segments for which there is no route.
use cscd58_nat.Base.{
  ℕ, ◌<◌, ◌^◌, ◌≡◌, ◌∙◌, List, refl, none, some, true, false, Bool, Buffer, arith, ntohl, ntohs,
}
use cscd58_nat.Proto.Ip
use cscd58_nat.Proto.Tcp
use cscd58_nat.PrivateIp.{is_private_ip}
use cscd58_nat.Rt.{RtEntry, sr_rt_lookup}
use cscd58_nat.Nat.Types.{UnsolHead, tcp, Mapping}
use cscd58_nat.Nat.Table.{sr_nat_lookup_internal, sr_nat_insert_mapping}
use cscd58_nat.Nat.Unsol.{sr_nat_remove_unsolicited_packet}
use cscd58_nat.Instance.{Sr}
use cscd58_nat.Router.Translate.{handled, route_ip, translate_source, tcp_outbound, nat_handle_tcp}
use cscd58_nat.Router.Translate.Segment.{TcpFits}
use cscd58_nat.Router.Translate.TcpTrip.{connected, insert_connection_first, tcp_outbound_first}

translate_source-no_route :
    (sr : Sr) (p : Buffer) (m : Mapping)
    → sr_rt_lookup sr.routing_table (Ip.dst p) ≡ some none
    → translate_source sr p m ≡ none
unfolding translate_source
translate_source-no_route sr p m e = rw e

-- A whole TCP segment from a private address to one that is not, with no mapping for its sender yet,
-- where the removal of the segment from the unsolicited ones does not fault and there is no route to
-- its destination: the handler faults, on the NULL route. The route is all that it lacks: with any
-- routing table in its place that has a route to the destination, whose interface has an address of 32
-- bits, the same state handles the same segment, which leaves with that address as its source.
pub nat_handle_tcp_no_route :
    (sr : Sr) (p : Buffer) (to_nat : Bool) (now : ℕ) (rt : List RtEntry) (lpm : RtEntry) (ip : ℕ)
    (unsol : UnsolHead)
    → TcpFits p
    → is_private_ip (ntohl (Ip.src p)) ≡ true
    → is_private_ip (ntohl (Ip.dst p)) ≡ false
    → sr_nat_lookup_internal sr.nat
        (ntohl (Ip.src p))
        (ntohs (Tcp.src_port p (Ip.header_len p)))
        tcp
      ≡ none
    → sr_nat_remove_unsolicited_packet sr.nat.unsol_pkt p ≡ some unsol
    → sr_rt_lookup sr.routing_table (Ip.dst p) ≡ some none
    → sr_rt_lookup rt (Ip.dst p) ≡ some (some lpm)
    → let routed : Sr = record sr { routing_table = rt } in
      route_ip routed lpm ≡ some ip
      → ip < 2 ^ 32
      → (nat_handle_tcp sr p to_nat now ≡ none)
        × ((q : Buffer) × (sr' : Sr) × (nat_handle_tcp routed p to_nat now
              ≡ some (record { code = handled; packet = q; sr = sr' }))
            × (Ip.src q ≡ ip)
            × (Ip.dst q ≡ Ip.dst p))
unfolding nat_handle_tcp tcp_outbound
nat_handle_tcp_no_route sr p to_nat now rt lpm ip unsol fits ps pd fresh removed lost route iface
      small =
    let host = ntohl (Ip.src p) in
    let port = ntohs (Tcp.src_port p (Ip.header_len p)) in
    let m = (sr_nat_insert_mapping sr.nat host port tcp now).0 in
    let sr₁ : Sr = record sr { nat = connected sr.nat p host port now unsol } in
    let inserted = insert_connection_first sr.nat p host port now unsol removed in
    let outward : tcp_outbound sr p now ≡ translate_source sr₁ p m =
      rw (fresh, inserted, tcp_outbound) refl in
    let branch : nat_handle_tcp sr p to_nat now ≡ tcp_outbound sr p now =
      ground (arith, fits.header) in
    let (q, e, src, dst, _, _) =
      tcp_outbound_first (record sr { routing_table = rt }) p to_nat now lpm ip unsol fits ps pd
        fresh removed route iface small in
    (
      branch ∙ outward ∙ translate_source-no_route sr₁ p m lost,
      (
        q,
        record sr { routing_table = rt; nat = connected sr.nat p host port now unsol },
        e,
        src,
        dst,
      ),
    )
