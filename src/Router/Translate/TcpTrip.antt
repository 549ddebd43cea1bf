-- ===== src/Router/Translate/TcpTrip.antt =====
-- The first segment of a TCP connection from inside, and the answer of its peer: `nat_handle_tcp` of
-- router/sr_router.c and the connections of router/sr_nat.c.
use cscd58_nat.Base.{
  ℕ, ◌^◌, ◌<◌, ◌≡◌, ◌∙◌, refl, sym, ap, [], ◌∷◌, some, none, Bool, true, false, Buffer, arith,
  ntohs, ntohl, ==_refl, ntohs-lt, ntohs-ntohs, ntohl-lt, ntohl-ntohl,
}
use cscd58_nat.Proto.Ip
use cscd58_nat.Proto.Tcp
use cscd58_nat.PrivateIp.{is_private_ip}
use cscd58_nat.Cksum.Sum.{AllBytes, load16-AllBytes, load32-AllBytes}
use cscd58_nat.Rt.{RtEntry, sr_rt_lookup}
use cscd58_nat.Nat.Types.{tcp, syn_sent, estab, Connection, Mapping, SrNat, UnsolHead}
use cscd58_nat.Nat.State.Reach.{determine_state-syn_ack}
use cscd58_nat.Nat.Table.{
  find_mapping, sr_nat_lookup_external, sr_nat_lookup_internal, sr_nat_insert_mapping,
}
use cscd58_nat.Nat.Table.Lookup.{insert_fields}
use cscd58_nat.Nat.Table.Invariant.{IsValid, HasRoom, sr_nat_insert_mapping-IsValid}
use cscd58_nat.Nat.Conn.{
  inbound, new_connection, push_conn, advance, flags_of, update_mapping, find_conn, update_conn,
  sr_nat_insert_connection, sr_nat_update_connection,
}
use cscd58_nat.Nat.Unsol.{sr_nat_remove_unsolicited_packet}
use cscd58_nat.Instance.{Sr}
use cscd58_nat.Router.Translate.{
  handled, route_ip, translate_source, tcp_outbound, tcp_inbound, tcp_inbound_other, nat_handle_tcp,
}
use cscd58_nat.Router.Translate.Segment.{TcpFits, refresh_source, refresh_dest}

-- The table after the first segment of a connection.
abbrev pub connected : SrNat → Buffer → ℕ → ℕ → ℕ → UnsolHead → SrNat
connected nat p ip aux now unsol =
    let (m, nat') = sr_nat_insert_mapping nat ip aux tcp now in
    record nat' {
      mappings = push_conn (new_connection p syn_sent now) m ∷ nat.mappings;
      unsol_pkt = unsol;
    }

pub insert_connection_first :
    (nat : SrNat) (p : Buffer) (ip aux now : ℕ) (unsol : UnsolHead)
    → sr_nat_remove_unsolicited_packet nat.unsol_pkt p ≡ some unsol
    → let (m, nat') = sr_nat_insert_mapping nat ip aux tcp now in
      sr_nat_insert_connection nat' m.aux_ext p syn_sent now
      ≡ some (some (new_connection p syn_sent now), connected nat p ip aux now unsol)
unfolding sr_nat_insert_connection sr_nat_insert_mapping find_mapping update_mapping
insert_connection_first nat p ip aux now unsol e =
    let m = (sr_nat_insert_mapping nat ip aux tcp now).0 in
    rw (==_refl m.aux_ext, e, sr_nat_insert_connection, find_mapping, update_mapping)
      (ground (arith, ==_refl m.aux_ext))

connected-IsValid :
    (nat : SrNat) (p : Buffer) (ip aux now : ℕ) (unsol : UnsolHead)
    → IsValid nat
    → HasRoom nat
    → IsValid (connected nat p ip aux now unsol)
unfolding sr_nat_insert_mapping
connected-IsValid nat p ip aux now unsol v room =
    let old = (sr_nat_insert_mapping-IsValid nat ip aux tcp now v room).0 in
    record { size = old.size; exact = old.exact }

-- What the answer finds: the mapping with its one connection, and that connection.
connected_found :
    (nat : SrNat) (p r : Buffer) (ip aux now later : ℕ) (unsol : UnsolHead)
    → Ip.src r ≡ Ip.dst p
    → Tcp.src_port r (Ip.header_len r) ≡ Tcp.dst_port p (Ip.header_len p)
    → let (m, nat') = sr_nat_insert_mapping nat ip aux tcp now in
      let c = new_connection p syn_sent now in
      let nat₁ = connected nat p ip aux now unsol in
      let m₂ : Mapping = record m { conns = advance r later c ∷ [] } in
      (sr_nat_lookup_external nat₁ m.aux_ext tcp ≡ some (push_conn c m))
      × (sr_nat_update_connection nat₁ (push_conn c m) r inbound later
          ≡ some (some (advance r later c), record nat₁ { mappings = m₂ ∷ nat.mappings }))
unfolding sr_nat_insert_mapping sr_nat_lookup_external find_mapping sr_nat_update_connection
    find_conn update_conn update_mapping
connected_found nat p r ip aux now later unsol from port =
    let m = (sr_nat_insert_mapping nat ip aux tcp now).0 in
    (ground (arith, ==_refl m.aux_ext), ground (arith, ==_refl m.ip_int, ==_refl m.aux_int))

translate_source_lem :
    (sr : Sr) (p : Buffer) (m : Mapping) (lpm : RtEntry) (ip : ℕ)
    → TcpFits p
    → sr_rt_lookup sr.routing_table (Ip.dst p) ≡ some (some lpm)
    → route_ip sr lpm ≡ some ip
    → ip < 2 ^ 32
    → (q : Buffer) × (translate_source sr p m
        ≡ some (record { code = handled; packet = q; sr = sr }))
      × (Ip.src q ≡ ip)
      × (Ip.dst q ≡ Ip.dst p)
      × (Tcp.src_port q (Ip.header_len q) ≡ ntohs m.aux_ext)
      × (Tcp.dst_port q (Ip.header_len q) ≡ Tcp.dst_port p (Ip.header_len p))
unfolding translate_source
translate_source_lem sr p m lpm ip fits route iface small =
    let (q, e, a, b, c, d) =
      refresh_source p (ntohs m.aux_ext) ip fits (ntohs-lt m.aux_ext) small in
    (q, rw (route, iface, e, translate_source) refl, a, b, c, d)

-- The first segment from a host and port inside is translated, and makes a mapping with a connection.
pub tcp_outbound_first :
    (sr : Sr) (p : Buffer) (is_to_nat : Bool) (now : ℕ) (lpm : RtEntry) (ip : ℕ) (unsol : UnsolHead)
    → TcpFits p
    → is_private_ip (ntohl (Ip.src p)) ≡ true
    → is_private_ip (ntohl (Ip.dst p)) ≡ false
    → let host = ntohl (Ip.src p) in
      let port = ntohs (Tcp.src_port p (Ip.header_len p)) in
      sr_nat_lookup_internal sr.nat host port tcp ≡ none
      → sr_nat_remove_unsolicited_packet sr.nat.unsol_pkt p ≡ some unsol
      → sr_rt_lookup sr.routing_table (Ip.dst p) ≡ some (some lpm)
      → route_ip sr lpm ≡ some ip
      → ip < 2 ^ 32
      → let m = (sr_nat_insert_mapping sr.nat host port tcp now).0 in
        (q : Buffer) × (nat_handle_tcp sr p is_to_nat now
          ≡ some (record {
            code = handled;
            packet = q;
            sr = record sr { nat = connected sr.nat p host port now unsol };
          }))
        × (Ip.src q ≡ ip)
        × (Ip.dst q ≡ Ip.dst p)
        × (Tcp.src_port q (Ip.header_len q) ≡ ntohs m.aux_ext)
        × (Tcp.dst_port q (Ip.header_len q) ≡ Tcp.dst_port p (Ip.header_len p))
unfolding nat_handle_tcp tcp_outbound route_ip
tcp_outbound_first sr p is_to_nat now lpm ip unsol fits ps pd fresh removed route iface small =
    let host = ntohl (Ip.src p) in
    let port = ntohs (Tcp.src_port p (Ip.header_len p)) in
    let m = (sr_nat_insert_mapping sr.nat host port tcp now).0 in
    let sr₁ : Sr = record sr { nat = connected sr.nat p host port now unsol } in
    let (q, e, a, b, c, d) = translate_source_lem sr₁ p m lpm ip fits route iface small in
    let inserted = insert_connection_first sr.nat p host port now unsol removed in
    let outward : tcp_outbound sr p now ≡ translate_source sr₁ p m =
      rw (fresh, inserted, tcp_outbound) refl in
    let branch : nat_handle_tcp sr p is_to_nat now ≡ tcp_outbound sr p now =
      ground (arith, fits.header) in
    (q, branch ∙ outward ∙ e, a, b, c, d)

-- An inbound segment with ACK whose port finds a mapping with a connection of its sender is translated
-- to the mapping's host and port.
tcp_inbound_known :
    (sr : Sr) (r : Buffer) (now : ℕ) (m : Mapping) (c : Connection) (nat : SrNat)
    → TcpFits r
    → is_private_ip (ntohl (Ip.src r)) ≡ false
    → Tcp.ack r (Ip.header_len r) ≡ 1
    → sr_nat_lookup_external sr.nat (ntohs (Tcp.dst_port r (Ip.header_len r))) tcp ≡ some m
    → sr_nat_update_connection sr.nat m r inbound now ≡ some (some c, nat)
    → (q : Buffer) × (nat_handle_tcp sr r true now
        ≡ some (record { code = handled; packet = q; sr = record sr { nat = nat } }))
      × (Ip.src q ≡ Ip.src r)
      × (Ip.dst q ≡ ntohl m.ip_int)
      × (Tcp.src_port q (Ip.header_len q) ≡ Tcp.src_port r (Ip.header_len r))
      × (Tcp.dst_port q (Ip.header_len q) ≡ ntohs m.aux_int)
unfolding nat_handle_tcp tcp_inbound tcp_inbound_other
tcp_inbound_known sr r now m c nat fits rs ack found updated =
    let (q, e, src, dst, sport, dport) =
      refresh_dest r (ntohs m.aux_int) (ntohl m.ip_int) fits (ntohs-lt m.aux_int)
        (ntohl-lt m.ip_int) in
    let branch : nat_handle_tcp sr r true now ≡ tcp_inbound_other sr r now =
      ground (arith, fits.header) in
    (q, branch ∙ rw (found, updated, e, tcp_inbound_other) refl, src, dst, sport, dport)

-- A valid table with room; a segment `p` of bytes from a private address and port for which there is
-- no mapping to an address that is not private, whose route and interface exist, the interface's
-- address having 32 bits, where the walk over the kept unsolicited packets does not fault; and a
-- segment `r` with SYN and ACK from the address and port that `p` went to, to the port that the
-- translated `p` left from; both packets being long enough for their headers, the IP header of at
-- least 20 bytes. `p` leaves with the interface's address, to where it was going, and the table stays
-- valid. In the state after that, at any time, `r` is translated: it comes from where it came from
-- and goes to the host and the port of `p`, and the mapping's one connection, with that peer, is
-- established.
pub nat_tcp_handshake :
    (sr : Sr) (p r : Buffer) (is_to_nat : Bool) (now later : ℕ) (lpm : RtEntry) (ip : ℕ)
    (unsol : UnsolHead)
    → IsValid sr.nat
    → HasRoom sr.nat
    → AllBytes p
    → TcpFits p
    → TcpFits r
    → is_private_ip (ntohl (Ip.src p)) ≡ true
    → is_private_ip (ntohl (Ip.dst p)) ≡ false
    → let host = ntohl (Ip.src p) in
      let port = ntohs (Tcp.src_port p (Ip.header_len p)) in
      let (m, nat') = sr_nat_insert_mapping sr.nat host port tcp now in
      sr_nat_lookup_internal sr.nat host port tcp ≡ none
      → sr_nat_remove_unsolicited_packet sr.nat.unsol_pkt p ≡ some unsol
      → sr_rt_lookup sr.routing_table (Ip.dst p) ≡ some (some lpm)
      → route_ip sr lpm ≡ some ip
      → ip < 2 ^ 32
      → Ip.src r ≡ Ip.dst p
      → Tcp.src_port r (Ip.header_len r) ≡ Tcp.dst_port p (Ip.header_len p)
      → Tcp.dst_port r (Ip.header_len r) ≡ ntohs m.aux_ext
      → Tcp.syn r (Ip.header_len r) ≡ 1
      → Tcp.ack r (Ip.header_len r) ≡ 1
      → (q : Buffer) × (r' : Buffer) × (sr₁ : Sr) × (sr₂ : Sr) × (nat_handle_tcp sr p is_to_nat now
          ≡ some (record { code = handled; packet = q; sr = sr₁ }))
        × (Ip.src q ≡ ip)
        × (Ip.dst q ≡ Ip.dst p)
        × (Tcp.src_port q (Ip.header_len q) ≡ Tcp.dst_port r (Ip.header_len r))
        × (Tcp.dst_port q (Ip.header_len q) ≡ Tcp.dst_port p (Ip.header_len p))
        × IsValid sr₁.nat
        × (nat_handle_tcp sr₁ r true later
            ≡ some (record { code = handled; packet = r'; sr = sr₂ }))
        × (Ip.src r' ≡ Ip.src r)
        × (Ip.dst r' ≡ Ip.src p)
        × (Tcp.src_port r' (Ip.header_len r') ≡ Tcp.src_port r (Ip.header_len r))
        × (Tcp.dst_port r' (Ip.header_len r') ≡ Tcp.src_port p (Ip.header_len p))
        × (sr_nat_lookup_external sr₂.nat m.aux_ext tcp
            ≡ some (record m {
              conns =
                  record {
                    state = estab;
                    peer_ip = Ip.dst p;
                    peer_port = Tcp.dst_port p (Ip.header_len p);
                    last_updated = later;
                  }
                  ∷ [];
            }))
unfolding sr_nat_lookup_external find_mapping
nat_tcp_handshake sr p r is_to_nat now later lpm ip unsol v room bytes fits fits' ps pd fresh
      removed route iface small from sport dport syn ack =
    let o = Ip.header_len p in
    let host = ntohl (Ip.src p) in
    let port = ntohs (Tcp.src_port p o) in
    let (m, nat') = sr_nat_insert_mapping sr.nat host port tcp now in
    let c = new_connection p syn_sent now in
    let nat₁ = connected sr.nat p host port now unsol in
    let sr₁ : Sr = record sr { nat = nat₁ } in
    let m₂ : Mapping = record m { conns = advance r later c ∷ [] } in
    let nat₂ : SrNat = record nat₁ { mappings = m₂ ∷ sr.nat.mappings } in
    let fields = insert_fields sr.nat host port tcp now in
    let small_id = sr_nat_insert_mapping-IsValid sr.nat host port tcp now v room in
    let (q, out, qs, qd, qsp, qdp) =
      tcp_outbound_first sr p is_to_nat now lpm ip unsol fits ps pd fresh removed route iface
        small in
    let (found, updated) = connected_found sr.nat p r host port now later unsol from sport in
    let id : ntohs (Tcp.dst_port r (Ip.header_len r)) ≡ m.aux_ext =
      ap ntohs dport ∙ ntohs-ntohs m.aux_ext small_id.2 in
    let (r', back, rs, rd, rsp, rdp) =
      tcp_inbound_known sr₁ r later (push_conn c m) (advance r later c) nat₂ fits'
        (ap (λ a. is_private_ip (ntohl a)) from ∙ pd) ack
        (ap (λ k. sr_nat_lookup_external nat₁ k tcp) id ∙ found) updated in
    (
      q,
      r',
      sr₁,
      record sr₁ { nat = nat₂ },
      out,
      qs,
      qd,
      qsp ∙ sym dport,
      qdp,
      connected-IsValid sr.nat p host port now unsol v room,
      back,
      rs,
      rd ∙ ap ntohl fields.0 ∙ ntohl-ntohl (Ip.src p) (load32-AllBytes p 12 bytes),
      rsp,
      rdp ∙ ap ntohs fields.1 ∙ ntohs-ntohs (Tcp.src_port p o) (load16-AllBytes p o bytes),
      rw (==_refl m.aux_ext, determine_state-syn_ack (flags_of r) syn ack, find_mapping) refl,
    )
