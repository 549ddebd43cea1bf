-- ===== src/Router/Handle/Delayed.antt =====
-- A packet whose next hop is not in the ARP cache, and the reply that it waits for: router/sr_router.c
-- and router/sr_arpcache.c.
use cscd58_nat.Base.{ℕ, ◌≡◌, refl, ap, ◌∙◌, List, some, none, true, arith, Buffer, drop, take, ◌∷◌}
use cscd58_nat.Proto.Ether
use cscd58_nat.Proto.Arp
use cscd58_nat.If.{SrIf}
use cscd58_nat.Rt.{RtEntry}
use cscd58_nat.Arp.{
  remove_req, ArpCache, ArpReq, sr_arpcache_lookup, find_req, sr_arpcache_insert, sr_arpreq_destroy,
  push_packet,
}
use cscd58_nat.Arp.Cache.{HasSlot, insert-lookup_mac, remove_req-none, queuereq_first, waiting}
use cscd58_nat.Instance.{Sr}
use cscd58_nat.Build.{sr_create_etherframe}
use cscd58_nat.Build.ReadBack.{IsFrame, sr_create_etherframe-IsFrame}
use cscd58_nat.Router.Output.{send_or_queue}
use cscd58_nat.Router.Output.Hop.{IsHop}
use cscd58_nat.Router.Handle.{sr_handlepacket}
use cscd58_nat.Router.Handle.Arrival.{Arrives}
use cscd58_nat.Router.Handle.ArpAnswer.{IsArpPayload, length-sha}
use cscd58_nat.Router.Handle.Forward.{IsTransit, sr_handlepacket-IsTransit}
use cscd58_nat.Router.Handle.Waiting.{learnt, sr_get_interface-take, sent_all, arp_reply-sent_all}

-- The cache with one request more, for one packet.
abbrev with_packet : ArpCache → ℕ → Buffer → List ℕ → List ℕ → ArpCache
with_packet cache ip q iface sender = record cache {
  requests = push_packet q iface sender (waiting ip none) ∷ cache.requests;
}

learnt_one :
    (cache : ArpCache) (mac : Buffer) (ip now : ℕ) (req : ArpReq)
    → req.ip ≡ ip
    → find_req ip cache.requests ≡ none
    → HasSlot cache.entries
    → sr_arpcache_lookup cache ip ≡ none
    → let cache₁ : ArpCache = record cache { requests = req ∷ cache.requests } in
      (find_req ip cache₁.requests ≡ some req)
      × ((learnt cache₁ mac ip now).requests ≡ cache.requests)
      × (sr_arpcache_lookup (learnt cache₁ mac ip now) ip
          ≡ some (record { mac = take 6 mac; ip = ip; added = now; valid = true }))
unfolding find_req remove_req sr_arpcache_insert sr_arpreq_destroy sr_arpcache_lookup
learnt_one cache mac ip now req same new slot unknown =
    let e = remove_req-none ip cache.requests new in
    (ground arith, ground (arith, e), (insert-lookup_mac cache mac ip now slot unknown).0)

-- A packet in transit that arrives on an interface of the router, where the ARP cache has no entry
-- for the next hop and a slot that is not valid, nothing waits for the next hop, and the reply of the
-- next hop arrives on the route's interface: at first nothing is written, and when the reply comes
-- one frame is, on the route's interface, from its address to the one that the reply gives, with the
-- packet as it is one hop later. Then the cache has that address for the next hop, and the queue is
-- what it was before the packet.
pub delivered_after_reply :
    (sr : Sr) (packet reply : Buffer) (interface : List ℕ) (now later : ℕ) (i out : SrIf)
    (lpm : RtEntry)
    → Arrives sr.if_list packet interface i Ether.ethertype_ip
    → IsTransit sr (drop Ether.size packet) lpm
    → sr_arpcache_lookup sr.cache lpm.gw ≡ none
    → find_req lpm.gw sr.cache.requests ≡ none
    → HasSlot sr.cache.entries
    → Arrives sr.if_list reply lpm.interface out Ether.ethertype_arp
    → let a = drop Ether.size reply in
      IsArpPayload Arp.op_reply a
      → Arp.sip a ≡ lpm.gw
      → (q : Buffer) × (frame : Buffer) × (sr₁ : Sr) × (sr₂ : Sr) × (sr_handlepacket sr packet
            interface now
          ≡ some sr₁)
        × (sr₁.sent ≡ sr.sent)
        × (sr_handlepacket sr₁ reply lpm.interface later ≡ some sr₂)
        × (sr₂.sent ≡ record { iface = take 16 lpm.interface; frame = frame } ∷ sr.sent)
        × IsFrame (Arp.sha a) out.addr Ether.ethertype_ip q frame
        × IsHop (drop Ether.size packet) q
        × (sr_arpcache_lookup sr₂.cache lpm.gw
            ≡ some (record { mac = take 6 (Arp.sha a); ip = lpm.gw; added = later; valid = true }))
        × (sr₂.cache.requests ≡ sr.cache.requests)
unfolding send_or_queue
delivered_after_reply sr packet reply interface now later i out lpm arrives is unknown new slot
      arrives' h from =
    let a = drop Ether.size reply in
    let gw = lpm.gw in
    let (q, e, hop, size) = sr_handlepacket-IsTransit sr packet interface now i lpm arrives is in
    let cache₁ = with_packet sr.cache gw q lpm.interface interface in
    let sr₁ : Sr = record sr { cache = cache₁ } in
    let req = push_packet q lpm.interface interface (waiting gw none) in
    let (found, rest, known) = learnt_one sr.cache (Arp.sha a) gw later req refl new slot unknown in
    let cache₂ = learnt cache₁ (Arp.sha a) gw later in
    (
      q,
      sr_create_etherframe q (Arp.sha a) out.addr Ether.ethertype_ip,
      sr₁,
      sent_all (record sr₁ { cache = cache₂ }) (Arp.sha a) lpm.interface out req.packets,
      e
          ∙ rw (unknown, send_or_queue)
              (ap (λ c. some (record sr { cache = c }))
                (queuereq_first sr.cache gw q lpm.interface interface
                  (omega (arith, size, is.ip.long)) new)),
      refl,
      arp_reply-sent_all sr₁ reply lpm.interface later out req arrives' h
            (ap (λ k. find_req k cache₁.requests) from ∙ found)
            (sr_get_interface-take sr.if_list lpm.interface ∙ arrives'.known, tt)
          ∙ ap
              (λ k. some (
                sent_all (record sr₁ { cache = learnt cache₁ (Arp.sha a) k later }) (Arp.sha a)
                  lpm.interface out req.packets))
              from,
      refl,
      sr_create_etherframe-IsFrame q (Arp.sha a) out.addr Ether.ethertype_ip (length-sha a h.long)
          arrives'.address (omega arith),
      hop,
      known,
      rest,
    )
