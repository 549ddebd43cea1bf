-- ===== src/Router/Translate.antt =====
-- `nat_handle_icmp` and `nat_handle_tcp` of router/sr_router.c. They rewrite the packet in place, so
-- the packet is part of the result.
pub mod Refresh
pub mod RoundTrip
pub mod NoRoute
pub mod Retransmit
pub mod Segment
pub mod TcpTrip
use cscd58_nat.Base.{
  ℕ, ◌+◌, ◌-◌, ◌*◌, List, [], ◌∷◌, ◌++◌, Option, none, some, Bool, true, false, ◌==◌, ◌&&◌,
  if◌then◌else◌, Buffer, view, drop, length, ntohs, ntohl, ◌>>=◌, ◌>>◌,
}
use cscd58_nat.Proto.Ip
use cscd58_nat.Proto.Tcp
use cscd58_nat.Proto.Icmp
use cscd58_nat.Cksum.{cksum, cksum_at}
use cscd58_nat.PrivateIp.{is_private_ip}
use cscd58_nat.If.{sr_get_interface}
use cscd58_nat.Rt.{RtEntry, sr_rt_lookup}
use cscd58_nat.Nat.Types.{icmp, tcp, syn_sent, Mapping, SrNat, Connection}
use cscd58_nat.Nat.Table.{sr_nat_lookup_external, sr_nat_lookup_internal, sr_nat_insert_mapping}
use cscd58_nat.Nat.Conn.{
  Direction, inbound, outbound, sr_nat_insert_connection, sr_nat_update_connection,
}
use cscd58_nat.Nat.Unsol.{sr_nat_insert_unsolicited_packet}
use cscd58_nat.Build.{bytes16, bytes32}
use cscd58_nat.Instance.{Sr}

-- The status codes: -1 (the packet was dropped or kept), 0 and 1.
pub data Code : Type 0 where
  dropped refused handled : Code

-- The status, the packet as rewritten and the state.
pub record Result : Type 0 where
  pub code : Code
  pub packet : Buffer
  pub sr : Sr

-- `sr_get_interface(sr, lpm->interface)->ip` for the route to the address.
unfoldable pub route_ip : Sr → RtEntry → Option ℕ
route_ip sr lpm = do
  interface_info ← sr_get_interface sr.if_list lpm.interface
  some interface_info.ip

-- `ip_sum = 0; ip_sum = cksum(ip_header, sizeof(sr_ip_hdr_t))`
unfoldable pub refresh_ip_sum : Buffer → Option Buffer
refresh_ip_sum packet = do
  sum ← cksum_at (Ip.set_sum packet 0) 0 Ip.size
  some (Ip.set_sum (Ip.set_sum packet 0) sum)

-- The end of `nat_handle_icmp`. A total length below 20 makes `len` negative: nothing is summed.
unfoldable pub refresh_icmp : Buffer → Option Buffer
unfolding refresh_ip_sum
refresh_icmp packet = do
  let o = Ip.header_len packet
  let cleared = Icmp.set_sum packet o 0
  sum ← cksum_at cleared o (ntohs (Ip.len packet) - Ip.size)
  refresh_ip_sum (Icmp.set_sum cleared o sum)

-- The lookup of the mapping of an internal host, or else its insertion.
unfoldable pub icmp_mapping : SrNat → ℕ → ℕ → ℕ → Mapping × SrNat
icmp_mapping nat ip_int aux_int now = elim (sr_nat_lookup_internal nat ip_int aux_int icmp) [
  | some mapping ↦ (mapping, nat)
  | none ↦ sr_nat_insert_mapping nat ip_int aux_int icmp now
]

-- `true` is the result 1, `false` the result 0.
abbrev pub IcmpResult : Type 0
IcmpResult = Bool × Buffer × Sr

unfoldable pub icmp_outbound : Sr → Buffer → ℕ → Option IcmpResult
unfolding icmp_mapping route_ip refresh_icmp
icmp_outbound sr packet now = do
  let o = Ip.header_len packet
  route ← sr_rt_lookup sr.routing_table (Ip.dst packet)
  elim route [
    | none ↦ some (false, packet, sr)
    | some lpm ↦ do
      let (mapping, nat) =
          icmp_mapping sr.nat (ntohl (Ip.src packet)) (ntohs (Icmp.identifier packet o)) now
      ip ← route_ip sr lpm
      packet' ← refresh_icmp (Ip.set_src (Icmp.set_identifier packet o (ntohs mapping.aux_ext)) ip)
      some (true, packet', record sr { nat = nat })
  ]

unfoldable pub icmp_inbound : Sr → Buffer → Option IcmpResult
unfolding refresh_icmp
icmp_inbound sr packet =
    let o = Ip.header_len packet in
    elim (sr_nat_lookup_external sr.nat (ntohs (Icmp.identifier packet o)) icmp) [
      | none ↦ some (false, packet, sr)
      | some mapping ↦ do
        packet' ← refresh_icmp (
            Ip.set_dst (Icmp.set_identifier packet o (ntohs mapping.aux_int))
              (ntohl mapping.ip_int))
        some (true, packet', sr)
    ]

unfoldable pub nat_handle_icmp : Sr → Buffer → ℕ → Option IcmpResult
unfolding icmp_outbound icmp_inbound
nat_handle_icmp sr packet now =
    if is_private_ip (ntohl (Ip.src packet)) && is_private_ip (ntohl (Ip.dst packet))
    then some (false, packet, sr)
    else (view packet (Ip.header_len packet) Icmp.size
        >> (if is_private_ip (ntohl (Ip.src packet))
            then icmp_outbound sr packet now
            else icmp_inbound sr packet))

-- `sr_tcp_pseudo_hdr_t`
abbrev pub pseudo_header : Buffer → ℕ → Buffer
pseudo_header packet tcp_len =
    bytes32 (Ip.src packet)
    ++ (bytes32 (Ip.dst packet) ++ (0 ∷ Ip.proto packet ∷ bytes16 (ntohs tcp_len)))

-- The end of `nat_handle_tcp`: the checksum over the pseudo header and the segment.
unfoldable pub refresh_tcp : Buffer → Option Buffer
unfolding refresh_ip_sum
refresh_tcp packet = do
  let o = Ip.header_len packet
  let cleared = Tcp.set_checksum packet o 0
  let sum = cksum (pseudo_header cleared (length packet - o) ++ drop o cleared)
  refresh_ip_sum (Tcp.set_checksum cleared o sum)

abbrev finish : Buffer → Sr → Option Result
finish packet sr = do
  packet' ← refresh_tcp packet
  some (record { code = handled; packet = packet'; sr = sr })

-- Source port and address of an outbound segment. The route is not tested for NULL.
unfoldable pub translate_source : Sr → Buffer → Mapping → Option Result
unfolding route_ip refresh_tcp
translate_source sr packet mapping = do
  let o = Ip.header_len packet
  route ← sr_rt_lookup sr.routing_table (Ip.dst packet)
  lpm ← route
  ip ← route_ip sr lpm
  finish (Ip.set_src (Tcp.set_src_port packet o (ntohs mapping.aux_ext)) ip) sr

unfoldable pub tcp_outbound : Sr → Buffer → ℕ → Option Result
unfolding translate_source
tcp_outbound sr packet now =
    let o = Ip.header_len packet in
    let ip_int = ntohl (Ip.src packet) in
    let aux_int = ntohs (Tcp.src_port packet o) in
    elim (sr_nat_lookup_internal sr.nat ip_int aux_int tcp) [
      | none ↦ do
        let (mapping, nat) = sr_nat_insert_mapping sr.nat ip_int aux_int tcp now
        (conn, nat') ← sr_nat_insert_connection nat mapping.aux_ext packet syn_sent now
        _ ← conn
        translate_source (record sr { nat = nat' }) packet mapping
      | some mapping ↦ do
        (conn, nat) ← sr_nat_update_connection sr.nat mapping packet outbound now
        elim conn [
          | none ↦ some (record { code = refused; packet = packet; sr = record sr { nat = nat } })
          | some c ↦ translate_source (record sr { nat = nat }) packet mapping
        ]
    ]

-- An inbound SYN goes to its connection or is kept, and is never passed on.
unfoldable pub tcp_inbound_syn : Sr → Buffer → ℕ → Option Result
tcp_inbound_syn sr packet now =
    let o = Ip.header_len packet in
    elim (sr_nat_lookup_external sr.nat (ntohs (Tcp.dst_port packet o)) tcp) [
      | some mapping ↦ do
        (conn, nat) ← sr_nat_update_connection sr.nat mapping packet inbound now
        some (record { code = dropped; packet = packet; sr = record sr { nat = nat } })
      | none ↦ do
        unsol ← sr_nat_insert_unsolicited_packet sr.nat.unsol_pkt packet now
        some (record {
          code = dropped;
          packet = packet;
          sr = record sr { nat = record (sr.nat) { unsol_pkt = unsol } };
        })
    ]

-- Any other inbound segment; without a mapping it is passed on as it is.
unfoldable pub tcp_inbound_other : Sr → Buffer → ℕ → Option Result
unfolding refresh_tcp
tcp_inbound_other sr packet now =
    let o = Ip.header_len packet in
    elim (sr_nat_lookup_external sr.nat (ntohs (Tcp.dst_port packet o)) tcp) [
      | none ↦ finish packet sr
      | some mapping ↦ do
        (conn, nat) ← sr_nat_update_connection sr.nat mapping packet inbound now
        elim conn [
          | none ↦ some (record { code = refused; packet = packet; sr = record sr { nat = nat } })
          | some c ↦
              finish
                (Ip.set_dst (Tcp.set_dst_port packet o (ntohs mapping.aux_int))
                  (ntohl mapping.ip_int))
                (record sr { nat = nat })
        ]
    ]

unfoldable pub tcp_inbound : Sr → Buffer → ℕ → Option Result
unfolding tcp_inbound_syn tcp_inbound_other
tcp_inbound sr packet now =
    if Tcp.syn packet (Ip.header_len packet) == 1 && Tcp.ack packet (Ip.header_len packet) == 0
    then tcp_inbound_syn sr packet now
    else tcp_inbound_other sr packet now

unfoldable pub nat_handle_tcp : Sr → Buffer → Bool → ℕ → Option Result
unfolding tcp_outbound tcp_inbound
nat_handle_tcp sr packet is_to_nat now =
    if is_private_ip (ntohl (Ip.src packet)) && is_private_ip (ntohl (Ip.dst packet))
    then some (record { code = handled; packet = packet; sr = sr })
    else if is_private_ip (ntohl (Ip.src packet))
    then (view packet (Ip.header_len packet) Tcp.size >> tcp_outbound sr packet now)
    else if is_to_nat
    then (view packet (Ip.header_len packet) Tcp.size >> tcp_inbound sr packet now)
    else if is_private_ip (ntohl (Ip.dst packet))
    then some (record { code = refused; packet = packet; sr = sr })
    else some (record { code = handled; packet = packet; sr = sr })
