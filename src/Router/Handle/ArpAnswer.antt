-- ===== src/Router/Handle/ArpAnswer.antt =====
-- ARP packets that reach the router: `sr_handle_arp` and `sr_send_arp` of router/sr_router.c.
use cscd58_nat.Base.{
  ap, ℕ, ◌≤◌, ◌<◌, ◌^◌, ◌≡◌, ◌≢◌, ◌∙◌, List, some, none, arith, Buffer, length, drop, ntohs,
  length-take, length-drop,
}
use cscd58_nat.Proto.Ether
use cscd58_nat.Proto.Arp
use cscd58_nat.Cksum.Sum.{AllBytes, AllBytes-drop, load32-AllBytes}
use cscd58_nat.If.{SrIf}
use cscd58_nat.Arp.{ArpCache, sr_arpcache_lookup, sr_arpcache_insert}
use cscd58_nat.Arp.Cache.{HasSlot}
use cscd58_nat.Arp.Cache.Learnt.{AtMostOne, Learnt, insert-Learnt}
use cscd58_nat.Instance.{Sr}
use cscd58_nat.Build.{sr_create_arppacket, sr_create_etherframe}
use cscd58_nat.Build.ReadBack.{IsFrame, IsArp, reply-IsArp}
use cscd58_nat.Router.Output.{sr_send_arp}
use cscd58_nat.Router.Handle.{handle_arp_request, sr_handle_arp, handle_payload, sr_handlepacket}
use cscd58_nat.Router.Handle.Arrival.{Arrives, sr_handlepacket-Arrives, sent_on, send_built_frame}

-- An ARP packet for Ethernet and IP with this operation, long enough for its header.
pub record IsArpPayload (code : ℕ) (packet : Buffer) : Type 0 where
  pub long : Arp.size ≤ length packet
  pub hrd : ntohs (Arp.hrd packet) ≡ Arp.hrd_ethernet
  pub pro : ntohs (Arp.pro packet) ≡ Arp.pro_ip
  pub op : ntohs (Arp.op packet) ≡ code

pub length-sha : (packet : Buffer) → Arp.size ≤ length packet → length (Arp.sha packet) ≡ 6
length-sha packet h = length-take 6 (drop 8 packet) (omega (arith, length-drop 8 packet))

pub sr_handle_arp-request :
    (sr : Sr) (packet : Buffer) (interface : List ℕ) (now : ℕ)
    → IsArpPayload Arp.op_request packet
    → sr_handle_arp sr packet interface now
      ≡ handle_arp_request sr (Arp.sha packet) (Arp.sip packet) interface now
unfolding sr_handle_arp
sr_handle_arp-request sr packet interface now h =
    rw (h.hrd, h.pro, h.op, sr_handle_arp) (ground (arith, h.long))

-- An ARP request, of bytes and long enough, that arrives on an interface of the router, whichever
-- address it asks for, where the ARP cache has a slot that is not valid and no entry for the sender's
-- IP address, and at most one request in the queue is for it: the router writes one frame more, on
-- that interface, from its address to the one that asked, with an ARP reply that gives the
-- interface's hardware address for its IP address. Apart from that frame only the ARP cache changes.
-- The lookup of the sender's IP address finds its hardware address, and a request for it has left the
-- queue, whose packets are not sent; for any other address the lookup and the queue are as before.
pub who_has_answered :
    (sr : Sr) (packet : Buffer) (interface : List ℕ) (now other : ℕ) (i : SrIf)
    → Arrives sr.if_list packet interface i Ether.ethertype_arp
    → AllBytes packet
    → i.ip < 2 ^ 32
    → HasSlot sr.cache.entries
    → let a = drop Ether.size packet in
      IsArpPayload Arp.op_request a
      → sr_arpcache_lookup sr.cache (Arp.sip a) ≡ none
      → AtMostOne (Arp.sip a) sr.cache.requests
      → other ≢ Arp.sip a
      → (frame reply : Buffer) × (cache : ArpCache) × (sr_handlepacket sr packet interface now
          ≡ some (sent_on (record sr { cache = cache }) interface frame))
        × Learnt (Arp.sha a) (Arp.sip a) now other sr.cache cache
        × IsFrame (Arp.sha a) i.addr Ether.ethertype_arp reply frame
        × IsArp Arp.op_reply i.addr i.ip (Arp.sha a) (Arp.sip a) reply
unfolding handle_payload handle_arp_request sr_send_arp
who_has_answered sr packet interface now other i arrives bytes small slot h unknown one ne =
    let a = drop Ether.size packet in
    let sr' : Sr = record sr {
      cache = (sr_arpcache_insert sr.cache (Arp.sha a) (Arp.sip a) now).1;
    } in
    let reply = sr_create_arppacket Arp.op_reply i.addr i.ip (Arp.sha a) (Arp.sip a) in
    let mac = length-sha a h.long in
    let (sent, is) =
      send_built_frame sr' reply (Arp.sha a) Ether.ethertype_arp interface i arrives.known
        arrives.address mac (omega arith) in
    (
      sr_create_etherframe reply (Arp.sha a) i.addr Ether.ethertype_arp,
      reply,
      sr'.cache,
      sr_handlepacket-Arrives sr packet interface now i Ether.ethertype_arp arrives
          ∙ sr_handle_arp-request sr a interface now h
          ∙ rw (arrives.known, handle_arp_request, sr_send_arp) (ap some sent),
      (insert-Learnt sr.cache (Arp.sha a) (Arp.sip a) now other slot unknown one ne).0,
      is,
      reply-IsArp i.addr (Arp.sha a) i.ip (Arp.sip a) arrives.address mac small
          (load32-AllBytes a 14 (AllBytes-drop 14 packet bytes)),
    )
