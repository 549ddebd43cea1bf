-- ===== src/Tests/Ping.antt =====
-- A host inside pings 8.8.8.8 through the translation.
use cscd58_nat.Base.{
  ℕ, ◌≡◌, refl, inr, List, [], ◌∷◌, ◌++◌, some, Buffer, arith, load8, load32, load16, store16,
  ntohl, ntohs, drop, take, replicate,
}
use cscd58_nat.Proto.Ether
use cscd58_nat.Proto.Ip
use cscd58_nat.Proto.Icmp
use cscd58_nat.PrivateIp.{is_private_ip}
use cscd58_nat.Cksum.{cksum_at, cksum, sum_words, fold_carry}
use cscd58_nat.Rt.{RtEntry, sr_rt_lookup, lookup_loop}
use cscd58_nat.Arp.{sr_arpcache_lookup, lookup_entries}
use cscd58_nat.If.{SrIf, sr_get_interface, strncmp_eq}
use cscd58_nat.Nat.Bitmap.{find_next_id, scan_word, scan_words}
use cscd58_nat.Nat.Table.{sr_nat_init, find_mapping, sr_nat_lookup_internal, sr_nat_insert_mapping}
use cscd58_nat.Nat.Table.Invariant.{IsValid}
use cscd58_nat.Instance.{Sr}
use cscd58_nat.Router.Translate.{icmp_mapping}
use cscd58_nat.Router.Handle.{matches_router_if, sr_handlepacket}
use cscd58_nat.Router.Handle.Arrival.{Arrives}
use cscd58_nat.Router.Handle.Passed.{IsWay, IsPassed}
use cscd58_nat.Router.Through.{IsInner, IsAnswer}
use cscd58_nat.Router.Ping.{ping_through_nat}
use cscd58_nat.Tests.Data.{empty_nat, router, eth_if, eth, outside_route}
use cscd58_nat.Tests.FrameData.{knows, framed, transit_frame, transit-IsIp}
use cscd58_nat.Tests.Table.{empty-IsValid, empty-HasRoom}

-- The network inside.
abbrev lan : List ℕ
lan = 108 ∷ 97 ∷ 110 ∷ []

abbrev lan_if : SrIf
lan_if = record { name = lan; addr = replicate 6 2; ip = 0x0100000A }

abbrev home_route : RtEntry
home_route = record { dest = 10; gw = 0x0500000A; mask = 0xFF; interface = lan }

abbrev both_sides : Sr
both_sides = record (router empty_nat) {
  if_list = lan_if ∷ eth_if ∷ [];
  routing_table = outside_route ∷ home_route ∷ [];
  cache = record { entries = knows 0x08080808 ∷ knows 0x0500000A ∷ []; requests = [] };
}

-- The echo reply from 8.8.8.8 to 9.9.9.9 with the identifier 1024.
abbrev answer_frame : Buffer
answer_frame = framed (8 ∷ 0 ∷ []) (
    69
    ∷ 0
    ∷ 0
    ∷ 28
    ∷ 0
    ∷ 0
    ∷ 0
    ∷ 0
    ∷ 64
    ∷ 1
    ∷ 88
    ∷ 192
    ∷ (replicate 4 8 ++ (replicate 4 9 ++ 0 ∷ 0 ∷ 251 ∷ 254 ∷ 4 ∷ 0 ∷ 0 ∷ 1 ∷ [])))

lan-Arrives : Arrives both_sides.if_list transit_frame lan lan_if Ether.ethertype_ip
unfolding sr_get_interface strncmp_eq load16 ntohs
lan-Arrives = record {
  known = refl;
  address = refl;
  long = omega arith;
  ours = inr refl;
  ether_type = refl;
}

eth-Arrives : Arrives both_sides.if_list answer_frame eth eth_if Ether.ethertype_ip
unfolding sr_get_interface strncmp_eq load16 ntohs
eth-Arrives = record {
  known = refl;
  address = refl;
  long = omega arith;
  ours = inr refl;
  ether_type = refl;
}

request-IsInner : IsInner both_sides (drop Ether.size transit_frame)
unfolding is_private_ip matches_router_if load32 load16 load8 ntohl ntohs
request-IsInner = record {
  ip = transit-IsIp;
  fits = record { apart = omega arith; header = omega arith; message = omega arith };
  proto = refl;
  private_src = refl;
  public_dst = refl;
  away = record { elsewhere = refl; unicast = omega arith };
  ttl = omega arith;
}

outer-IsAnswer : IsAnswer both_sides (drop Ether.size answer_frame)
unfolding is_private_ip matches_router_if load32 load16 load8 store16 ntohl ntohs cksum_at cksum
    sum_words fold_carry
outer-IsAnswer = record {
  ip = record {
    bytes = ground arith;
    long = omega arith;
    short = omega arith;
    header = omega arith;
    sum = refl;
  };
  fits = record { apart = omega arith; header = omega arith; message = omega arith };
  proto = refl;
  public_src = refl;
  ours = refl;
  icmp_type = refl;
  sum = refl;
}

out-IsWay :
    IsWay both_sides
      (Ip.dst (drop Ether.size transit_frame))
      outside_route
      eth_if
      (knows 0x08080808)
unfolding sr_rt_lookup lookup_loop load32 load16 ntohl ntohs sr_get_interface strncmp_eq
    sr_arpcache_lookup lookup_entries
out-IsWay = record {
  route = refl;
  iface = refl;
  address = refl;
  next = record { cached = refl; mac = refl };
}

home-IsWay :
    IsWay both_sides (Ip.src (drop Ether.size transit_frame)) home_route lan_if (knows 0x0500000A)
unfolding sr_rt_lookup lookup_loop load32 load16 ntohl ntohs sr_get_interface strncmp_eq
    sr_arpcache_lookup lookup_entries
home-IsWay = record {
  route = refl;
  iface = refl;
  address = refl;
  next = record { cached = refl; mac = refl };
}

abbrev inner : Buffer
inner = drop Ether.size transit_frame

abbrev outer : Buffer
outer = drop Ether.size answer_frame

same_identifier :
    Icmp.identifier outer (Ip.header_len outer)
    ≡ ntohs
        (icmp_mapping empty_nat
          (ntohl (Ip.src inner))
          (ntohs (Icmp.identifier inner (Ip.header_len inner)))
          0).0.aux_ext
unfolding icmp_mapping ntohl load32 sr_nat_lookup_internal find_mapping sr_nat_insert_mapping
    find_next_id scan_words scan_word sr_nat_init ntohs load16 load8
same_identifier = refl

ping_through_nat_example :
    (frame₁ : Buffer) × (frame₂ : Buffer) × (sr₁ : Sr) × (sr₂ : Sr) × (sr_handlepacket both_sides
        transit_frame lan 0
      ≡ some sr₁)
    × (sr₁.sent ≡ record { iface = take 16 eth; frame = frame₁ } ∷ [])
    × IsPassed
        (replicate 6 3)
        (replicate 6 2)
        0x09090909
        (Ip.dst inner)
        (Icmp.identifier outer (Ip.header_len outer))
        frame₁
    × (sr_handlepacket sr₁ answer_frame eth 3 ≡ some sr₂)
    × (sr₂.sent ≡ record { iface = take 16 lan; frame = frame₂ } ∷ sr₁.sent)
    × IsPassed
        (replicate 6 3)
        (replicate 6 2)
        (Ip.src outer)
        (Ip.src inner)
        (Icmp.identifier inner (Ip.header_len inner))
        frame₂
    × IsValid sr₂.nat
ping_through_nat_example =
    ping_through_nat both_sides transit_frame answer_frame lan 0 3 lan_if eth_if lan_if
      outside_route home_route (knows 0x08080808) (knows 0x0500000A) refl empty-IsValid
      empty-HasRoom lan-Arrives eth-Arrives request-IsInner outer-IsAnswer out-IsWay (omega arith)
      home-IsWay same_identifier
