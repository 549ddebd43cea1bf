-- ===== src/Tests/Frames.antt =====
-- Frames that arrive at the router.
use cscd58_nat.Base.{
  List, inr, false, ◌≡◌, refl, inl, [], ◌∷◌, some, none, true, Buffer, arith, load8, load32, load16,
  ntohl, ntohs, drop, take,
}
use cscd58_nat.Proto.Ether
use cscd58_nat.Proto.Arp
use cscd58_nat.Rt.{sr_rt_lookup, lookup_loop}
use cscd58_nat.Arp.{
  ArpCache, ArpReq, sr_arpcache_init, sr_arpcache_lookup, lookup_entries, find_req,
}
use cscd58_nat.Instance.{Sr}
use cscd58_nat.If.{sr_get_interface, strncmp_eq}
use cscd58_nat.Build.ReadBack.{IsFrame, IsArp}
use cscd58_nat.Router.Output.Hop.{IsHop}
use cscd58_nat.Router.Handle.{matches_router_if, sr_handlepacket}
use cscd58_nat.Router.Handle.Arrival.{sent_on}
use cscd58_nat.Router.Handle.ArpAnswer.{who_has_answered}
use cscd58_nat.Router.Handle.Forward.{IsTransit, forwarded}
use cscd58_nat.Router.Handle.Resolved.{written, Framed, arp_reply_delivers}
use cscd58_nat.Arp.Cache.Learnt.{AtMostOne, Learnt}
use cscd58_nat.Router.Handle.Delayed.{delivered_after_reply}
use cscd58_nat.Tests.Data.{eth_if, eth, outside_route}
use cscd58_nat.Tests.FrameData.{
  plain_router, knows, known_cache, arp_request, arp_reply, transit_frame, arp_request-Arrives,
  arp_reply-Arrives, ping-Arrives, transit-IsIp, arp_request-IsArpPayload, arp_reply-IsArpPayload,
}

transits :
    (cache : ArpCache)
    → IsTransit (plain_router cache) (drop Ether.size transit_frame) outside_route
unfolding matches_router_if load32 load16 load8 sr_rt_lookup lookup_loop ntohl ntohs
transits cache = record {
  ip = transit-IsIp;
  elsewhere = refl;
  unicast = omega arith;
  ttl = omega arith;
  plain = inl refl;
  route = refl;
}

known_route : sr_get_interface (plain_router sr_arpcache_init).if_list eth ≡ some eth_if
unfolding sr_get_interface strncmp_eq
known_route = refl

gateway_known : sr_arpcache_lookup (known_cache 0x08080808) 0x08080808 ≡ some (knows 0x08080808)
unfolding sr_arpcache_lookup lookup_entries
gateway_known = refl

forwarded_example :
    (q : Buffer) × (frame : Buffer) × (sr_handlepacket
        (plain_router (known_cache 0x08080808))
        transit_frame
        eth
        5
      ≡ some (sent_on (plain_router (known_cache 0x08080808)) eth frame))
    × IsFrame (knows 0x08080808).mac eth_if.addr Ether.ethertype_ip q frame
    × IsHop (drop Ether.size transit_frame) q
forwarded_example =
    forwarded (plain_router (known_cache 0x08080808)) transit_frame eth 5 eth_if eth_if
      outside_route (knows 0x08080808) (ping-Arrives (known_cache 0x08080808) 64 96 205 8 8 8 8)
      (transits (known_cache 0x08080808)) known_route refl gateway_known refl

gateway_unknown : sr_arpcache_lookup sr_arpcache_init 0x08080808 ≡ none
unfolding sr_arpcache_lookup sr_arpcache_init lookup_entries
gateway_unknown = refl

nothing_waits : find_req 0x08080808 sr_arpcache_init.requests ≡ none
unfolding find_req sr_arpcache_init
nothing_waits = refl

gateway_answers : Arp.sip (drop Ether.size arp_reply) ≡ 0x08080808
unfolding load32 load16
gateway_answers = refl

delivered_after_reply_example :
    let sr = plain_router sr_arpcache_init in
    let a = drop Ether.size arp_reply in
    (q : Buffer) × (frame : Buffer) × (sr₁ : Sr) × (sr₂ : Sr) × (sr_handlepacket sr transit_frame
        eth 5
      ≡ some sr₁)
    × (sr₁.sent ≡ sr.sent)
    × (sr_handlepacket sr₁ arp_reply eth 6 ≡ some sr₂)
    × (sr₂.sent ≡ record { iface = take 16 eth; frame = frame } ∷ sr.sent)
    × IsFrame (Arp.sha a) eth_if.addr Ether.ethertype_ip q frame
    × IsHop (drop Ether.size transit_frame) q
    × (sr_arpcache_lookup sr₂.cache 0x08080808
        ≡ some (record { mac = take 6 (Arp.sha a); ip = 0x08080808; added = 6; valid = true }))
    × (sr₂.cache.requests ≡ sr.cache.requests)
unfolding sr_arpcache_init
delivered_after_reply_example =
    delivered_after_reply (plain_router sr_arpcache_init) transit_frame arp_reply eth 5 6 eth_if
      eth_if outside_route (ping-Arrives sr_arpcache_init 64 96 205 8 8 8 8)
      (transits sr_arpcache_init) gateway_unknown nothing_waits (inl refl)
      (arp_reply-Arrives sr_arpcache_init) arp_reply-IsArpPayload gateway_answers

gateway_unknown₁ :
    sr_arpcache_lookup sr_arpcache_init (Arp.sip (drop Ether.size arp_request)) ≡ none
unfolding sr_arpcache_lookup sr_arpcache_init lookup_entries load32 load16
gateway_unknown₁ = refl

who_has_answered_example :
    let sr = plain_router sr_arpcache_init in
    let a = drop Ether.size arp_request in
    (frame reply : Buffer) × (cache : ArpCache) × (sr_handlepacket sr arp_request eth 5
      ≡ some (sent_on (record sr { cache = cache }) eth frame))
    × Learnt (Arp.sha a) (Arp.sip a) 5 7 sr.cache cache
    × IsFrame (Arp.sha a) eth_if.addr Ether.ethertype_arp reply frame
    × IsArp Arp.op_reply eth_if.addr eth_if.ip (Arp.sha a) (Arp.sip a) reply
unfolding sr_arpcache_init load32 load16
who_has_answered_example =
    who_has_answered (plain_router sr_arpcache_init) arp_request eth 5 7 eth_if
      (arp_request-Arrives sr_arpcache_init) (ground arith) (omega arith) (inl refl)
      arp_request-IsArpPayload gateway_unknown₁ tt (omega arith)

abbrev waiting_req : ArpReq
waiting_req = record {
  ip = 0x08080808;
  sent = 0;
  times_sent = 1;
  packets =
      record { buf = 1 ∷ []; iface = eth; sender = eth }
      ∷ record { buf = 2 ∷ []; iface = eth; sender = eth }
      ∷ [];
}

-- One slot is valid and one is not.
abbrev waiting_cache : ArpCache
waiting_cache = record {
  entries = knows 7 ∷ record (knows 0x08080808) { valid = false } ∷ [];
  requests = record waiting_req { ip = 7 } ∷ waiting_req ∷ [];
}

found_waiting :
    find_req (Arp.sip (drop Ether.size arp_reply)) waiting_cache.requests ≡ some waiting_req
unfolding find_req load32 load16
found_waiting = refl

waits_once : AtMostOne (Arp.sip (drop Ether.size arp_reply)) waiting_cache.requests
unfolding find_req load32 load16
waits_once = inl (omega arith, inr (refl, refl))

not_known_yet : sr_arpcache_lookup waiting_cache (Arp.sip (drop Ether.size arp_reply)) ≡ none
unfolding sr_arpcache_lookup lookup_entries load32 load16
not_known_yet = refl

arp_reply_delivers_example :
    let sr = plain_router waiting_cache in
    let a = drop Ether.size arp_reply in
    (frames : List Buffer) × (cache : ArpCache) × (sr_handlepacket sr arp_reply eth 5
      ≡ some (record sr { cache = cache; sent = written eth frames sr.sent }))
    × Framed (Arp.sha a) eth_if.addr waiting_req.packets frames
    × Learnt (Arp.sha a) (Arp.sip a) 5 7 sr.cache cache
unfolding load32 load16
arp_reply_delivers_example =
    arp_reply_delivers (plain_router waiting_cache) arp_reply eth 5 7 eth_if waiting_req
      (arp_reply-Arrives waiting_cache) (inr (inl refl)) arp_reply-IsArpPayload found_waiting
      waits_once (known_route, (known_route, tt)) not_known_yet (omega arith)
