-- ===== src/Tests/Handshake.antt =====
-- A TCP handshake through the translation.
use cscd58_nat.Base.{
  ℕ, ◌≡◌, refl, [], ◌∷◌, ◌++◌, some, none, true, false, Buffer, arith, load8, load32, load16, ntohl,
  ntohs, List, replicate,
}
use cscd58_nat.Proto.Ip
use cscd58_nat.Proto.Tcp
use cscd58_nat.PrivateIp.{is_private_ip}
use cscd58_nat.If.{sr_get_interface, strncmp_eq}
use cscd58_nat.Rt.{sr_rt_lookup, lookup_loop}
use cscd58_nat.Nat.Types.{dangling, tcp, estab, pkts, Mapping}
use cscd58_nat.Nat.Bitmap.{find_next_id, scan_word, scan_words}
use cscd58_nat.Nat.Table.{
  sr_nat_init, find_mapping, sr_nat_lookup_internal, sr_nat_lookup_external, sr_nat_insert_mapping,
}
use cscd58_nat.Nat.Table.Invariant.{IsValid}
use cscd58_nat.Nat.Unsol.{sr_nat_remove_unsolicited_packet, frees_head, without_segment}
use cscd58_nat.Instance.{Sr}
use cscd58_nat.Router.Translate.{handled, route_ip, nat_handle_tcp}
use cscd58_nat.Router.Translate.Segment.{TcpFits}
use cscd58_nat.Router.Translate.TcpTrip.{nat_tcp_handshake}
use cscd58_nat.Router.Translate.NoRoute.{nat_handle_tcp_no_route}
use cscd58_nat.Router.Translate.Retransmit.{IsRepeat, retransmission_frees_head}
use cscd58_nat.Router.Periodic.{nat_round}
use cscd58_nat.Nat.Unsol.{sr_nat_insert_unsolicited_packet}
use cscd58_nat.Tests.Data.{empty_nat, router, outside_route}
use cscd58_nat.Tests.Table.{empty-IsValid, empty-HasRoom}

-- A segment of 40 bytes by its addresses, its ports and its flags.
abbrev segment : List ℕ → List ℕ → List ℕ → List ℕ → ℕ → Buffer
segment source dest source_port dest_port flags =
    69
    ∷ 0
    ∷ 0
    ∷ 40
    ∷ 0
    ∷ 0
    ∷ 0
    ∷ 0
    ∷ 64
    ∷ 6
    ∷ 0
    ∷ 0
    ∷ (source
        ++ (dest
            ++ (source_port
                ++ (dest_port ++ (replicate 8 0 ++ 80 ∷ flags ∷ 32 ∷ 0 ∷ 0 ∷ 0 ∷ 0 ∷ 0 ∷ [])))))

-- SYN from port 5000 of 10.0.0.5 to port 80 of 8.8.8.8, and SYN with ACK to port 1024 of 9.9.9.9.
abbrev syn : Buffer
syn = segment (10 ∷ 0 ∷ 0 ∷ 5 ∷ []) (replicate 4 8) (19 ∷ 136 ∷ []) (0 ∷ 80 ∷ []) 2

abbrev syn_ack : Buffer
syn_ack = segment (replicate 4 8) (replicate 4 9) (0 ∷ 80 ∷ []) (4 ∷ 0 ∷ []) 18

syn_fits : TcpFits syn
unfolding load8
syn_fits = record { apart = omega arith; header = omega arith }

syn_ack_fits : TcpFits syn_ack
unfolding load8
syn_ack_fits = record { apart = omega arith; header = omega arith }

syn_from_inside : is_private_ip (ntohl (Ip.src syn)) ≡ true
unfolding is_private_ip ntohl load32 load16 ntohs
syn_from_inside = refl

syn_to_outside : is_private_ip (ntohl (Ip.dst syn)) ≡ false
unfolding is_private_ip ntohl load32 load16 ntohs
syn_to_outside = refl

abbrev host : ℕ
host = ntohl (Ip.src syn)

abbrev port : ℕ
port = ntohs (Tcp.src_port syn (Ip.header_len syn))

abbrev made : Mapping
made = (sr_nat_insert_mapping empty_nat host port tcp 0).0

no_mapping : sr_nat_lookup_internal empty_nat host port tcp ≡ none
unfolding sr_nat_lookup_internal find_mapping sr_nat_init
no_mapping = refl

nothing_kept : sr_nat_remove_unsolicited_packet empty_nat.unsol_pkt syn ≡ some (pkts [])
unfolding sr_nat_remove_unsolicited_packet sr_nat_init frees_head without_segment
nothing_kept = refl

syn_routed : sr_rt_lookup (router empty_nat).routing_table (Ip.dst syn) ≡ some (some outside_route)
unfolding sr_rt_lookup lookup_loop load32 load16 ntohl ntohs
syn_routed = refl

leaves_from : route_ip (router empty_nat) outside_route ≡ some 0x09090909
unfolding route_ip sr_get_interface strncmp_eq
leaves_from = refl

same_peer : Ip.src syn_ack ≡ Ip.dst syn
unfolding load32 load16
same_peer = refl

same_port : Tcp.src_port syn_ack (Ip.header_len syn_ack) ≡ Tcp.dst_port syn (Ip.header_len syn)
unfolding load16 load8
same_port = refl

to_mapping : Tcp.dst_port syn_ack (Ip.header_len syn_ack) ≡ ntohs made.aux_ext
unfolding load16 load8 ntohs sr_nat_insert_mapping find_next_id scan_words scan_word sr_nat_init
to_mapping = refl

has_syn : Tcp.syn syn_ack (Ip.header_len syn_ack) ≡ 1
unfolding load8
has_syn = refl

has_ack : Tcp.ack syn_ack (Ip.header_len syn_ack) ≡ 1
unfolding load8
has_ack = refl

nat_tcp_handshake_example :
    (q : Buffer) × (r' : Buffer) × (sr₁ : Sr) × (sr₂ : Sr) × (nat_handle_tcp
        (router empty_nat)
        syn
        false
        0
      ≡ some (record { code = handled; packet = q; sr = sr₁ }))
    × (Ip.src q ≡ 0x09090909)
    × (Ip.dst q ≡ Ip.dst syn)
    × (Tcp.src_port q (Ip.header_len q) ≡ Tcp.dst_port syn_ack (Ip.header_len syn_ack))
    × (Tcp.dst_port q (Ip.header_len q) ≡ Tcp.dst_port syn (Ip.header_len syn))
    × IsValid sr₁.nat
    × (nat_handle_tcp sr₁ syn_ack true 3 ≡ some (record { code = handled; packet = r'; sr = sr₂ }))
    × (Ip.src r' ≡ Ip.src syn_ack)
    × (Ip.dst r' ≡ Ip.src syn)
    × (Tcp.src_port r' (Ip.header_len r') ≡ Tcp.src_port syn_ack (Ip.header_len syn_ack))
    × (Tcp.dst_port r' (Ip.header_len r') ≡ Tcp.src_port syn (Ip.header_len syn))
    × (sr_nat_lookup_external sr₂.nat made.aux_ext tcp
        ≡ some (record made {
          conns =
              record {
                state = estab;
                peer_ip = Ip.dst syn;
                peer_port = Tcp.dst_port syn (Ip.header_len syn);
                last_updated = 3;
              }
              ∷ [];
        }))
nat_tcp_handshake_example =
    nat_tcp_handshake (router empty_nat) syn syn_ack false 0 3 outside_route 0x09090909 (pkts [])
      empty-IsValid empty-HasRoom (ground arith) syn_fits syn_ack_fits syn_from_inside
      syn_to_outside no_mapping nothing_kept syn_routed leaves_from (omega arith) same_peer
      same_port to_mapping has_syn has_ack

-- A router whose one route leads elsewhere.
abbrev no_route_router : Sr
no_route_router = record (router empty_nat) {
  routing_table = record outside_route { dest = 7 } ∷ [];
}

lost : sr_rt_lookup no_route_router.routing_table (Ip.dst syn) ≡ some none
unfolding sr_rt_lookup lookup_loop load32 load16 ntohl ntohs
lost = refl

nat_handle_tcp_no_route_example :
    let routed : Sr = record no_route_router { routing_table = outside_route ∷ [] } in
    (nat_handle_tcp no_route_router syn false 3 ≡ none)
    × ((q : Buffer) × (sr' : Sr) × (nat_handle_tcp routed syn false 3
          ≡ some (record { code = handled; packet = q; sr = sr' }))
        × (Ip.src q ≡ 0x09090909)
        × (Ip.dst q ≡ Ip.dst syn))
nat_handle_tcp_no_route_example =
    nat_handle_tcp_no_route no_route_router syn false 3 (outside_route ∷ []) outside_route
      0x09090909 (pkts []) syn_fits syn_from_inside syn_to_outside no_mapping nothing_kept lost
      syn_routed leaves_from (omega arith)

-- The segment is kept since the first second.
abbrev kept_router : Sr
kept_router =
    router
      (record empty_nat { unsol_pkt = pkts (record { ip_packet = syn; last_updated = 1 } ∷ []) })

syn_again : IsRepeat syn syn
syn_again = record {
  header = refl;
  src = refl;
  dst = refl;
  src_port = refl;
  dst_port = refl;
  seq_num = refl;
}

retransmission_frees_head_example :
    (q : Buffer) × (sr' : Sr) × (nat_handle_tcp kept_router syn false 3
      ≡ some (record { code = handled; packet = q; sr = sr' }))
    × (Ip.src q ≡ 0x09090909)
    × (sr'.nat.unsol_pkt ≡ dangling)
    × (nat_round sr' 4 ≡ none)
    × (sr_nat_insert_unsolicited_packet sr'.nat.unsol_pkt syn_ack 4 ≡ none)
unfolding sr_nat_lookup_internal find_mapping sr_nat_init route_ip
retransmission_frees_head_example =
    retransmission_frees_head kept_router syn syn_ack false 3 4 outside_route 0x09090909
      (record { ip_packet = syn; last_updated = 1 }) [] syn_fits syn_from_inside syn_to_outside refl
      refl syn_again syn_routed leaves_from (omega arith)
