-- ===== src/Router/Translate/Retransmit.antt =====
-- A segment from inside that is kept as unsolicited and comes again: `nat_handle_tcp` of
-- router/sr_router.c, and `sr_nat_remove_unsolicited_packet` and `sr_nat_timeout` of router/sr_nat.c.
use cscd58_nat.Base.{
  ℕ, ◌<◌, ◌^◌, ◌≡◌, refl, List, ◌∷◌, some, none, true, false, Bool, Buffer, arith, ap, ntohl, ntohs,
}
use cscd58_nat.Proto.Ip
use cscd58_nat.Proto.Tcp
use cscd58_nat.PrivateIp.{is_private_ip}
use cscd58_nat.Rt.{RtEntry, sr_rt_lookup}
use cscd58_nat.Nat.Types.{UnsolHead, UnsolPkt, pkts, dangling, tcp}
use cscd58_nat.Nat.Table.{sr_nat_lookup_internal}
use cscd58_nat.Nat.Unsol.{
  same_segment, frees_head, sr_nat_remove_unsolicited_packet, sr_nat_insert_unsolicited_packet,
}
use cscd58_nat.Instance.{Sr}
use cscd58_nat.Router.Periodic.{nat_round}
use cscd58_nat.Router.Translate.{handled, route_ip, nat_handle_tcp}
use cscd58_nat.Router.Translate.Segment.{TcpFits}
use cscd58_nat.Router.Translate.TcpTrip.{connected, tcp_outbound_first}

-- Two segments with headers of one length that agree in addresses, ports and sequence number.
pub record IsRepeat (p u : Buffer) : Type 0 where
  pub header : Ip.header_len u ≡ Ip.header_len p
  pub src : Ip.src u ≡ Ip.src p
  pub dst : Ip.dst u ≡ Ip.dst p
  pub src_port : Tcp.src_port u (Ip.header_len u) ≡ Tcp.src_port p (Ip.header_len p)
  pub dst_port : Tcp.dst_port u (Ip.header_len u) ≡ Tcp.dst_port p (Ip.header_len p)
  pub seq_num : Tcp.seq_num u (Ip.header_len u) ≡ Tcp.seq_num p (Ip.header_len p)

same_segment-IsRepeat : (p u : Buffer) → IsRepeat p u → same_segment p u ≡ true
unfolding same_segment
same_segment-IsRepeat p u h =
    let at = h.header in
    ground (
      arith,
      h.src,
      h.dst,
      ap (Tcp.src_port u) at,
      ap (Tcp.dst_port u) at,
      ap (Tcp.seq_num u) at,
      h.src_port,
      h.dst_port,
      h.seq_num,
    )

removal :
    (head : UnsolHead) (u : UnsolPkt) (us : List UnsolPkt) (p : Buffer)
    → head ≡ pkts (u ∷ us)
    → IsRepeat p u.ip_packet
    → sr_nat_remove_unsolicited_packet head p ≡ some dangling
unfolding sr_nat_remove_unsolicited_packet frees_head
removal head u us p e h =
    rw (e, same_segment-IsRepeat p u.ip_packet h, sr_nat_remove_unsolicited_packet, frees_head) refl

-- A whole TCP segment from a private address to one that is not, with no mapping for its sender, and
-- with a route to its destination whose interface has an address of 32 bits, where the first
-- unsolicited packet that is kept has the same header length, addresses, ports and sequence number:
-- the segment is translated, and the router then holds a pointer to freed memory as its list of
-- unsolicited packets. The next round of the NAT's thread faults, at any time, and so does the next
-- packet that is to be kept.
pub retransmission_frees_head :
    (sr : Sr) (p other : Buffer) (to_nat : Bool) (now later : ℕ) (lpm : RtEntry) (ip : ℕ)
    (u : UnsolPkt) (us : List UnsolPkt)
    → TcpFits p
    → is_private_ip (ntohl (Ip.src p)) ≡ true
    → is_private_ip (ntohl (Ip.dst p)) ≡ false
    → sr_nat_lookup_internal sr.nat
        (ntohl (Ip.src p))
        (ntohs (Tcp.src_port p (Ip.header_len p)))
        tcp
      ≡ none
    → sr.nat.unsol_pkt ≡ pkts (u ∷ us)
    → IsRepeat p u.ip_packet
    → sr_rt_lookup sr.routing_table (Ip.dst p) ≡ some (some lpm)
    → route_ip sr lpm ≡ some ip
    → ip < 2 ^ 32
    → (q : Buffer) × (sr' : Sr) × (nat_handle_tcp sr p to_nat now
        ≡ some (record { code = handled; packet = q; sr = sr' }))
      × (Ip.src q ≡ ip)
      × (sr'.nat.unsol_pkt ≡ dangling)
      × (nat_round sr' later ≡ none)
      × (sr_nat_insert_unsolicited_packet sr'.nat.unsol_pkt other later ≡ none)
unfolding nat_round sr_nat_insert_unsolicited_packet
retransmission_frees_head sr p other to_nat now later lpm ip u us fits ps pd fresh kept again route
      iface small =
    let host = ntohl (Ip.src p) in
    let port = ntohs (Tcp.src_port p (Ip.header_len p)) in
    let (q, e, src, _, _, _) =
      tcp_outbound_first sr p to_nat now lpm ip dangling fits ps pd fresh
        (removal sr.nat.unsol_pkt u us p kept again) route iface small in
    (q, record sr { nat = connected sr.nat p host port now dangling }, e, src, refl, refl, refl)
