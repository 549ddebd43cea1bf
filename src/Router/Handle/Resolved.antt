-- ===== src/Router/Handle/Resolved.antt =====
-- An ARP reply that packets wait for: `sr_handle_arp` of router/sr_router.c.
use cscd58_nat.Base.{
  ℕ, ◌≡◌, ◌≢◌, refl, ap, ◌∙◌, List, [], ◌∷◌, some, none, arith, Buffer, length, drop, take,
}
use cscd58_nat.Proto.Ether
use cscd58_nat.Proto.Arp
use cscd58_nat.If.{SrIf}
use cscd58_nat.Arp.{ArpCache, SrPacket, ArpReq, find_req, sr_arpcache_lookup, sr_arpcache_insert}
use cscd58_nat.Arp.Cache.{HasSlot}
use cscd58_nat.Arp.Cache.Learnt.{AtMostOne, Learnt, insert-Learnt}
use cscd58_nat.Instance.{Sr, Sent}
use cscd58_nat.Build.{sr_create_etherframe}
use cscd58_nat.Build.ReadBack.{IsFrame, sr_create_etherframe-IsFrame}
use cscd58_nat.Router.Handle.{sr_handlepacket}
use cscd58_nat.Router.Handle.Arrival.{Arrives, sent_on}
use cscd58_nat.Router.Handle.ArpAnswer.{IsArpPayload, length-sha}
use cscd58_nat.Router.Handle.Waiting.{WaitFor, sent_all, arp_reply-sent_all}

-- What has been written after these frames, from the first, on one interface; the latest stands first.
abbrev pub written : List ℕ → List Buffer → List Sent → List Sent
written interface [] sent = sent
written interface (f ∷ fs) sent =
    written interface fs (record { iface = take 16 interface; frame = f } ∷ sent)

-- One frame for each packet, in the order of the packets.
abbrev pub Framed : Buffer → Buffer → List SrPacket → List Buffer → Type 0
Framed dest source [] [] = Unit {0}
Framed dest source [] (f ∷ fs) = ⊥
Framed dest source (p ∷ ps) [] = ⊥
Framed dest source (p ∷ ps) (f ∷ fs) =
    IsFrame dest source Ether.ethertype_ip p.buf f × Framed dest source ps fs

sent_all-Framed :
    (sr : Sr) (mac : Buffer) (interface : List ℕ) (i : SrIf) (ps : List SrPacket)
    → length mac ≡ 6
    → length i.addr ≡ 6
    → (frames : List Buffer) × (sent_all sr mac interface i ps
        ≡ record sr { sent = written interface frames sr.sent })
      × Framed mac i.addr ps frames
sent_all-Framed sr mac interface i [] m address = ([], refl, tt)
sent_all-Framed sr mac interface i (p ∷ ps) m address =
    let frame = sr_create_etherframe p.buf mac i.addr Ether.ethertype_ip in
    let (frames, e, framed) =
      sent_all-Framed (sent_on sr interface frame) mac interface i ps m address in
    let is =
      sr_create_etherframe-IsFrame p.buf mac i.addr Ether.ethertype_ip m address (omega arith) in
    (frame ∷ frames, e, (is, framed))

-- An ARP reply that arrives on an interface of the router, where the queue has one request for the
-- sender's IP address and its packets are for that interface, and the ARP cache has a slot that is not
-- valid and no entry for the sender: the router writes one frame for each packet that waits, in the
-- order of the queue's list, on that interface, from its address to the sender's hardware address,
-- with the packet as it was queued, and no other frame. Apart from these frames only the ARP cache
-- changes. The lookup of the sender's IP address finds its hardware address, and no request for it is
-- left in the queue; for any other address the lookup and the queue are as before.
pub arp_reply_delivers :
    (sr : Sr) (packet : Buffer) (interface : List ℕ) (now other : ℕ) (i : SrIf) (req : ArpReq)
    → Arrives sr.if_list packet interface i Ether.ethertype_arp
    → HasSlot sr.cache.entries
    → let a = drop Ether.size packet in
      IsArpPayload Arp.op_reply a
      → find_req (Arp.sip a) sr.cache.requests ≡ some req
      → AtMostOne (Arp.sip a) sr.cache.requests
      → WaitFor sr.if_list i req.packets
      → sr_arpcache_lookup sr.cache (Arp.sip a) ≡ none
      → other ≢ Arp.sip a
      → (frames : List Buffer) × (cache : ArpCache) × (sr_handlepacket sr packet interface now
          ≡ some (record sr { cache = cache; sent = written interface frames sr.sent }))
        × Framed (Arp.sha a) i.addr req.packets frames
        × Learnt (Arp.sha a) (Arp.sip a) now other sr.cache cache
arp_reply_delivers sr packet interface now other i req arrives slot h found one wait unknown ne =
    let a = drop Ether.size packet in
    let mac = Arp.sha a in
    let ip = Arp.sip a in
    let cache = (sr_arpcache_insert sr.cache mac ip now).1 in
    let (is, left) = insert-Learnt sr.cache mac ip now other slot unknown one ne in
    let (frames, e, framed) =
      sent_all-Framed (record sr { cache = cache }) mac interface i req.packets
        (length-sha a h.long) arrives.address in
    (
      frames,
      cache,
      arp_reply-sent_all sr packet interface now i req arrives h found wait
          ∙ ap (λ c. some (sent_all (record sr { cache = c }) mac interface i req.packets)) left
          ∙ ap some e,
      framed,
      is,
    )
