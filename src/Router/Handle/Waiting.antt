-- ===== src/Router/Handle/Waiting.antt =====
-- Packets that wait for an ARP reply: `sr_arpcache_queuereq` of router/sr_arpcache.c and the loop of
-- `sr_handle_arp` of router/sr_router.c.
use cscd58_nat.Base.{
  ℕ, ◌≡◌, refl, ap, ◌∙◌, zero, suc, List, [], ◌∷◌, some, arith, Buffer, length, drop, take,
}
use cscd58_nat.Proto.{iface_namelen}
use cscd58_nat.Proto.Ether
use cscd58_nat.Proto.Arp
use cscd58_nat.If.{SrIf, sr_get_interface, strncmp_eq}
use cscd58_nat.Arp.{ArpCache, SrPacket, ArpReq, find_req, sr_arpcache_insert, sr_arpreq_destroy}
use cscd58_nat.Instance.{Sr}
use cscd58_nat.Build.{sr_create_etherframe}
use cscd58_nat.Router.Handle.{
  handle_payload, sr_handlepacket, sr_handle_arp, handle_arp_reply, send_waiting,
}
use cscd58_nat.Router.Handle.Arrival.{Arrives, sr_handlepacket-Arrives, sent_on, send_built_frame}
use cscd58_nat.Router.Handle.ArpAnswer.{IsArpPayload, length-sha}

strncmp_eq-take : (n : ℕ) (a b : List ℕ) → strncmp_eq n a (take n b) ≡ strncmp_eq n a b
unfolding strncmp_eq
strncmp_eq-take zero a b = refl
strncmp_eq-take (suc n) [] [] = refl
strncmp_eq-take (suc n) [] (y ∷ b) = refl
strncmp_eq-take (suc n) (x ∷ a) [] = refl
strncmp_eq-take (suc n) (x ∷ a) (y ∷ b) = rw (strncmp_eq-take n a b)

-- A queued packet names its interface by at most 32 characters.
pub sr_get_interface-take :
    (is : List SrIf) (name : List ℕ)
    → sr_get_interface is (take iface_namelen name) ≡ sr_get_interface is name
unfolding sr_get_interface
sr_get_interface-take [] name = refl
sr_get_interface-take (i ∷ is) name =
    rw (strncmp_eq-take iface_namelen i.name name, sr_get_interface-take is name)

-- The packets that wait are for one interface.
abbrev pub WaitFor : List SrIf → SrIf → List SrPacket → Type 0
WaitFor if_list i [] = Unit {0}
WaitFor if_list i (p ∷ ps) = (sr_get_interface if_list p.iface ≡ some i) × WaitFor if_list i ps

-- The state after the packets have been written to the hardware address, from the first.
abbrev pub sent_all : Sr → Buffer → List ℕ → SrIf → List SrPacket → Sr
sent_all sr mac interface i [] = sr
sent_all sr mac interface i (p ∷ ps) =
    sent_all (sent_on sr interface (sr_create_etherframe p.buf mac i.addr Ether.ethertype_ip)) mac
      interface i ps

send_waiting-WaitFor :
    (sr : Sr) (mac : Buffer) (interface : List ℕ) (i : SrIf) (ps : List SrPacket)
    → sr_get_interface sr.if_list interface ≡ some i
    → length i.addr ≡ 6
    → length mac ≡ 6
    → WaitFor sr.if_list i ps
    → send_waiting sr mac interface ps ≡ some (sent_all sr mac interface i ps)
unfolding send_waiting
send_waiting-WaitFor sr mac interface i [] known address m h = refl
send_waiting-WaitFor sr mac interface i (p ∷ ps) known address m h =
    let frame = sr_create_etherframe p.buf mac i.addr Ether.ethertype_ip in
    let (sent, is) =
      send_built_frame sr p.buf mac Ether.ethertype_ip interface i known address m (omega arith) in
    rw (h.0, sent, send_waiting)
      (send_waiting-WaitFor (sent_on sr interface frame) mac interface i ps known address m h.1)

sent_all-cache :
    (sr : Sr) (cache : ArpCache) (mac : Buffer) (interface : List ℕ) (i : SrIf) (ps : List SrPacket)
    → record (sent_all sr mac interface i ps) { cache = cache }
      ≡ sent_all (record sr { cache = cache }) mac interface i ps
sent_all-cache sr cache mac interface i [] = refl
sent_all-cache sr cache mac interface i (p ∷ ps) =
    sent_all-cache (sent_on sr interface (sr_create_etherframe p.buf mac i.addr Ether.ethertype_ip))
      cache mac interface i ps

sent_all_cache_eq :
    (sr : Sr) (mac : Buffer) (interface : List ℕ) (i : SrIf) (ps : List SrPacket)
    → (sent_all sr mac interface i ps).cache ≡ sr.cache
sent_all_cache_eq sr mac interface i [] = refl
sent_all_cache_eq sr mac interface i (p ∷ ps) =
    sent_all_cache_eq
      (sent_on sr interface (sr_create_etherframe p.buf mac i.addr Ether.ethertype_ip)) mac
      interface i ps

-- The cache after a reply to a request in the queue has been dealt with.
abbrev pub learnt : ArpCache → Buffer → ℕ → ℕ → ArpCache
learnt cache mac ip now = sr_arpreq_destroy (sr_arpcache_insert cache mac ip now).1 ip

-- The state after an ARP reply to a request in the queue.
pub arp_reply-sent_all :
    (sr : Sr) (packet : Buffer) (interface : List ℕ) (now : ℕ) (i : SrIf) (req : ArpReq)
    → Arrives sr.if_list packet interface i Ether.ethertype_arp
    → let a = drop Ether.size packet in
      IsArpPayload Arp.op_reply a
      → find_req (Arp.sip a) sr.cache.requests ≡ some req
      → WaitFor sr.if_list i req.packets
      → sr_handlepacket sr packet interface now
        ≡ some (
            sent_all
              (record sr { cache = learnt sr.cache (Arp.sha a) (Arp.sip a) now })
              (Arp.sha a)
              interface
              i
              req.packets)
unfolding handle_payload sr_handle_arp handle_arp_reply sr_arpcache_insert
arp_reply-sent_all sr packet interface now i req arrives h found wait =
    let a = drop Ether.size packet in
    let mac = Arp.sha a in
    let ip = Arp.sip a in
    let cache = (sr_arpcache_insert sr.cache mac ip now).1 in
    let sr' : Sr = record sr { cache = cache } in
    let written = sent_all sr' mac interface i req.packets in
    let each : send_waiting sr' mac interface req.packets ≡ some written =
      send_waiting-WaitFor sr' mac interface i req.packets arrives.known arrives.address
        (length-sha a h.long) wait in
    let reply : sr_handle_arp sr a interface now ≡ handle_arp_reply sr mac ip interface now =
      rw (h.hrd, h.pro, h.op, sr_handle_arp) (ground (arith, h.long)) in
    let answered : handle_arp_reply sr mac ip interface now
        ≡ some (record written { cache = sr_arpreq_destroy written.cache ip }) =
      rw (found, each, handle_arp_reply, sr_arpcache_insert) refl in
    sr_handlepacket-Arrives sr packet interface now i Ether.ethertype_arp arrives
    ∙ reply
    ∙ answered
    ∙ ap (λ c. some (record written { cache = sr_arpreq_destroy c ip }))
        (sent_all_cache_eq sr' mac interface i req.packets)
    ∙ ap some (sent_all-cache sr' (learnt sr.cache mac ip now) mac interface i req.packets)
