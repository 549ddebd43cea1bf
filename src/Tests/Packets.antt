-- ===== src/Tests/Packets.antt =====
-- Packets and runs of the router.
use cscd58_nat.Base.{
  ◌+◌, ◌*◌, ◌/◌, ◌%◌, ◌^◌, ◌<◌, ◌≡◌, ◌↔◌, ◌⊎◌, refl, [], ◌∷◌, Option, some, true, false, arith,
  load8, load16, load32, ntohl, ntohs, Buffer,
}
use cscd58_nat.Proto.Ip
use cscd58_nat.Proto.Icmp
use cscd58_nat.PrivateIp.{is_private_ip, is_private_ip_iff}
use cscd58_nat.Cksum.{cksum}
use cscd58_nat.Cksum.Sum.{AllBytes, word_sum, cksum_complements}
use cscd58_nat.If.{sr_get_interface, strncmp_eq}
use cscd58_nat.Rt.{RtEntry, sr_rt_lookup, lookup_loop}
use cscd58_nat.Rt.Lpm.{LongestMatch, sr_rt_lookup-LongestMatch}
use cscd58_nat.Nat.Bitmap.{find_next_id, scan_word, scan_words}
use cscd58_nat.Nat.Table.{sr_nat_init, find_mapping, sr_nat_lookup_internal, sr_nat_insert_mapping}
use cscd58_nat.Nat.Table.Invariant.{IsValid}
use cscd58_nat.Instance.{Sr}
use cscd58_nat.Router.Translate.{route_ip, icmp_mapping, nat_handle_icmp}
use cscd58_nat.Router.Translate.Refresh.{IcmpFits}
use cscd58_nat.Router.Translate.RoundTrip.{nat_icmp_round_trip}
use cscd58_nat.Tests.Data.{empty_nat, inside, router, request, reply, outside_route}
use cscd58_nat.Tests.Table.{empty-IsValid, empty-HasRoom}

request_fits : IcmpFits request
unfolding load8 load16 ntohs
request_fits = record { apart = omega arith; header = omega arith; message = omega arith }

reply_fits : IcmpFits reply
unfolding load8 load16 ntohs
reply_fits = record { apart = omega arith; header = omega arith; message = omega arith }

request_bytes : AllBytes request
request_bytes = ground arith

pub from_inside : is_private_ip (ntohl (Ip.src request)) ≡ true
unfolding is_private_ip ntohl load32 load16 ntohs
from_inside = refl

pub to_outside : is_private_ip (ntohl (Ip.dst request)) ≡ false
unfolding is_private_ip ntohl load32 load16 ntohs
to_outside = refl

pub from_outside : is_private_ip (ntohl (Ip.src reply)) ≡ false
unfolding is_private_ip ntohl load32 load16 ntohs
from_outside = refl

routed : sr_rt_lookup (router empty_nat).routing_table (Ip.dst request) ≡ some (some outside_route)
unfolding sr_rt_lookup lookup_loop load32 load16 ntohl ntohs
routed = refl

sent_from : route_ip (router empty_nat) outside_route ≡ some 0x09090909
unfolding route_ip sr_get_interface strncmp_eq
sent_from = refl

answered :
    Icmp.identifier reply (Ip.header_len reply)
    ≡ ntohs
        (icmp_mapping empty_nat
          (ntohl (Ip.src request))
          (ntohs (Icmp.identifier request (Ip.header_len request)))
          0).0.aux_ext
unfolding icmp_mapping ntohl load32 sr_nat_lookup_internal find_mapping sr_nat_insert_mapping
    find_next_id scan_words scan_word sr_nat_init ntohs load16 load8
answered = refl

nat_icmp_round_trip_example :
    let (m, nat') =
      icmp_mapping empty_nat
        (ntohl (Ip.src request))
        (ntohs (Icmp.identifier request (Ip.header_len request)))
        0 in
    (q : Buffer) × (r' : Buffer) × (sr' : Sr) × (nat_handle_icmp (router empty_nat) request 0
      ≡ some (true, q, sr'))
    × (Ip.src q ≡ 0x09090909)
    × (Ip.dst q ≡ Ip.dst request)
    × (Icmp.identifier q (Ip.header_len q) ≡ Icmp.identifier reply (Ip.header_len reply))
    × IsValid sr'.nat
    × (nat_handle_icmp sr' reply 3 ≡ some (true, r', sr'))
    × (Ip.src r' ≡ Ip.src reply)
    × (Ip.dst r' ≡ Ip.src request)
    × (Icmp.identifier r' (Ip.header_len r') ≡ Icmp.identifier request (Ip.header_len request))
nat_icmp_round_trip_example =
    nat_icmp_round_trip (router empty_nat) request reply 0 3 outside_route 0x09090909 empty-IsValid
      empty-HasRoom request_bytes request_fits reply_fits from_inside to_outside from_outside routed
      sent_from (omega arith) answered

cksum_complements_example :
    ((word_sum request + ntohs (cksum request)) % 65535 ≡ 0)
    × (0 < cksum request)
    × (cksum request < 2 ^ 16)
cksum_complements_example = cksum_complements request request_bytes (omega arith)

is_private_ip_iff_example : (is_private_ip inside ≡ true) ↔ (
    (inside / 2 ^ 24 ≡ 10)
    ⊎ (inside / 2 ^ 16 ≡ 172 * 256 + 16)
    ⊎ (inside / 2 ^ 16 ≡ 192 * 256 + 168))
is_private_ip_iff_example = is_private_ip_iff inside (omega arith)

sr_rt_lookup-LongestMatch_example :
    (o : Option RtEntry) × (sr_rt_lookup (outside_route ∷ []) 8 ≡ some o)
    × LongestMatch 8 (outside_route ∷ []) o
sr_rt_lookup-LongestMatch_example = sr_rt_lookup-LongestMatch outside_route [] 8
