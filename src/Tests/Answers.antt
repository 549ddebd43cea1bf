-- ===== src/Tests/Answers.antt =====
-- ICMP answers of the router, and frames that it ignores.
use cscd58_nat.Base.{
  ℕ, ◌≡◌, refl, [], ◌∷◌, some, true, Buffer, arith, load8, load32, load16, store16, ntohs, drop,
}
use cscd58_nat.Proto.Ether
use cscd58_nat.Proto.Ip
use cscd58_nat.Proto.Icmp
use cscd58_nat.Cksum.{cksum_at, cksum, sum_words, fold_carry}
use cscd58_nat.Arp.{sr_arpcache_lookup, lookup_entries, sr_arpcache_init}
use cscd58_nat.If.{SrIf, sr_get_interface, strncmp_eq}
use cscd58_nat.Router.Handle.{matches_router_if, sr_handlepacket}
use cscd58_nat.Router.Handle.Arrival.{sent_on}
use cscd58_nat.Router.Handle.Message.{IsKnown, IsIcmpFrame}
use cscd58_nat.Router.Handle.Echo.{IsEchoRequest, echoed, echo_answered}
use cscd58_nat.Router.Handle.Refused.{IsElsewhere, expired, quoted, error_reported}
use cscd58_nat.Router.Handle.Ignored.{Ignored, other_host, ignored}
use cscd58_nat.Tests.Data.{eth_if, eth}
use cscd58_nat.Tests.FrameData.{
  plain_router, knows, known_cache, echo_frame, expired_frame, ping-Arrives, echo-IsIp,
  expired-IsIp,
}

abbrev asker : ℕ
asker = 0x0500000A

echo_is_request : IsEchoRequest (drop Ether.size echo_frame)
unfolding cksum_at cksum sum_words fold_carry load16 load8 store16 ntohs
echo_is_request = record {
  proto = refl;
  plain = refl;
  whole = omega arith;
  total = omega arith;
  icmp_type = refl;
  sum = refl;
}

echo_asker :
    IsKnown (plain_router (known_cache asker)) (Ip.src (drop Ether.size echo_frame)) (knows asker)
unfolding sr_arpcache_lookup lookup_entries load32 load16
echo_asker = record { cached = refl; mac = refl }

expired_asker :
    IsKnown
      (plain_router (known_cache asker))
      (Ip.src (drop Ether.size expired_frame))
      (knows asker)
unfolding sr_arpcache_lookup lookup_entries load32 load16
expired_asker = record { cached = refl; mac = refl }

echo_is_ours :
    matches_router_if
      (Ip.dst (drop Ether.size echo_frame))
      (plain_router (known_cache asker)).if_list
    ≡ true
unfolding matches_router_if load32 load16
echo_is_ours = refl

echo_answered_example :
    let p = drop Ether.size echo_frame in
    (frame : Buffer) × (sr_handlepacket (plain_router (known_cache asker)) echo_frame eth 5
      ≡ some (sent_on (plain_router (known_cache asker)) eth frame))
    × IsIcmpFrame
        (knows asker).mac
        eth_if.addr
        (Ip.dst p)
        (Ip.src p)
        Icmp.echoreply
        0
        (echoed p)
        frame
echo_answered_example =
    echo_answered (plain_router (known_cache asker)) echo_frame eth 5 eth_if (knows asker)
      (ping-Arrives (known_cache asker) 64 94 203 9 9 9 9) echo-IsIp echo_is_request echo_is_ours
      echo_asker

expired-IsElsewhere : IsElsewhere (plain_router (known_cache asker)) (drop Ether.size expired_frame)
unfolding matches_router_if load32 load16
expired-IsElsewhere = record { elsewhere = refl; unicast = omega arith }

last_hop : Ip.ttl (drop Ether.size expired_frame) ≡ 1
unfolding load8
last_hop = refl

error_reported_example :
    let p = drop Ether.size expired_frame in
    (frame : Buffer) × (sr_handlepacket (plain_router (known_cache asker)) expired_frame eth 5
      ≡ some (sent_on (plain_router (known_cache asker)) eth frame))
    × IsIcmpFrame
        (knows asker).mac
        eth_if.addr
        eth_if.ip
        (Ip.src p)
        Icmp.timeexceeded
        0
        (quoted p)
        frame
error_reported_example =
    error_reported (plain_router (known_cache asker)) expired_frame eth 5 Icmp.timeexceeded 0 eth_if
      (knows asker) (ping-Arrives (known_cache asker) 1 159 205 8 8 8 8) (omega arith) expired-IsIp
      (omega arith) (expired expired-IsElsewhere last_hop) expired_asker

-- The same frame, at an interface with another address.
abbrev other_if : SrIf
other_if = record eth_if { addr = 4 ∷ 4 ∷ 4 ∷ 4 ∷ 4 ∷ 4 ∷ [] }

not_ours :
    Ignored
      (record (plain_router sr_arpcache_init) { if_list = other_if ∷ [] })
      echo_frame
      eth
      other_if
unfolding sr_get_interface strncmp_eq load8
not_ours = other_host (omega arith) refl (omega arith) (λ e. absurd (cc e))

ignored_example :
    let sr = record (plain_router sr_arpcache_init) { if_list = other_if ∷ [] } in
    sr_handlepacket sr echo_frame eth 5 ≡ some sr
ignored_example =
    ignored (record (plain_router sr_arpcache_init) { if_list = other_if ∷ [] }) echo_frame eth 5
      other_if not_ours
