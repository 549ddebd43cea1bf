-- ===== src/Router/Total.antt =====
-- Where the handlers of router/sr_router.c do not fault, with the translation switched off.
use cscd58_nat.Base.{
  ℕ, ◌+◌, ◌-◌, ◌≤◌, ◌≡◌, refl, List, [], ◌∷◌, Option, some, none, Bool, false, arith, Buffer,
  length, drop, take, ntohs, ◌==◌, ◌&&◌, if◌then◌else◌, Bool-cases, ==_iff, ◌>>=◌, length-store16,
  inl, inr, sym,
}
use mathlib.Core.Path.{subst}
use cscd58_nat.Proto.Ether
use cscd58_nat.Proto.Arp
use cscd58_nat.Proto.Ip
use cscd58_nat.Proto.Icmp
use cscd58_nat.Cksum.{cksum, cksum_at}
use cscd58_nat.If.{SrIf, sr_get_interface}
use cscd58_nat.Arp.{SrPacket, ArpReq, find_req, sr_arpcache_insert, sr_arpreq_destroy}
use cscd58_nat.Instance.{Sr}
use cscd58_nat.Send.{sr_send_packet}
use cscd58_nat.Build.{sr_create_etherframe}
use cscd58_nat.Main.Verify.{sr_verify_routing_table}
use cscd58_nat.Router.Quiet.{sr_send_packet-Quiet}
use cscd58_nat.Router.Output.{sr_send_arp}
use cscd58_nat.Router.Handle.{
  sum_matches, reply_or_translate, icmp_to_router, to_router, to_elsewhere, dispatch_ip,
  sr_handle_ippacket, send_waiting, handle_arp_reply, handle_arp_request, sr_handle_arp,
  handle_payload, wrong_destination, sr_handlepacket,
}
use cscd58_nat.Router.Done.{
  IsDone, if_IsDone, bind_IsDone, off_IsDone, IsWhole, sr_send_icmp-IsDone,
  sr_forward_ippacket-IsDone,
}

-- A checksum over bytes that lie in the packet.
sum_matches_total :
    (packet cleared : Buffer) (o n sum : ℕ)
    → o + n ≤ length cleared
    → (b : Bool) × (sum_matches packet cleared o n sum ≡ some b)
unfolding sum_matches cksum_at
sum_matches_total packet cleared o n sum h = (cksum (take n (drop o cleared)) == sum, ground arith)

icmp_to_router-IsDone :
    (sr : Sr) (p : Buffer) (interface : List ℕ) (now : ℕ) (i : SrIf)
    → sr_get_interface sr.if_list interface ≡ some i
    → sr.nat_enabled ≡ false
    → IsWhole p
    → IsDone (icmp_to_router sr p interface now)
unfolding icmp_to_router reply_or_translate
icmp_to_router-IsDone sr p interface now i known off w =
    let o = Ip.header_len p in
    let (good, e) =
      sum_matches_total p (Icmp.set_sum p o 0) o (length p - o) (Icmp.sum p o)
        (omega (arith, length-store16 p (o + 2) 0, w.header)) in
    let answered : IsDone (if good then reply_or_translate sr p interface now else some sr) =
      if_IsDone good _ _
        (if_IsDone _ _ _ (sr_send_icmp-IsDone sr p interface Icmp.echoreply 0 i known w)
          (off_IsDone _ _ _ _ off (sr, refl)))
        (sr, refl) in
    (answered.0, rw (e, icmp_to_router) (ground (arith, w.header, answered.1)))

dispatch_ip-IsDone :
    (sr : Sr) (p : Buffer) (interface : List ℕ) (now : ℕ) (i : SrIf)
    → sr_get_interface sr.if_list interface ≡ some i
    → sr_verify_routing_table sr ≡ 0
    → sr.nat_enabled ≡ false
    → IsWhole p
    → IsDone (dispatch_ip sr p interface now)
unfolding dispatch_ip to_router to_elsewhere
dispatch_ip-IsDone sr p interface now i known ok off w =
    let say = λ (type code : ℕ). sr_send_icmp-IsDone sr p interface type code i known w in
    let forward = sr_forward_ippacket-IsDone sr p interface i known ok w in
    if_IsDone _ _ _
      (if_IsDone _ _ _ (icmp_to_router-IsDone sr p interface now i known off w) (
        off_IsDone _ _ _ _ off
          (if_IsDone _ _ _ (say Icmp.dstunreachable 3) (say Icmp.dstunreachable 2))))
      (if_IsDone _ _ _ (say Icmp.timeexceeded 0)
        (off_IsDone _ _ _ _ off (off_IsDone _ _ _ _ off forward)))

sr_handle_ippacket-IsDone :
    (sr : Sr) (p : Buffer) (interface : List ℕ) (now : ℕ) (i : SrIf)
    → sr_get_interface sr.if_list interface ≡ some i
    → sr_verify_routing_table sr ≡ 0
    → sr.nat_enabled ≡ false
    → IsWhole p
    → IsDone (sr_handle_ippacket sr p interface now)
unfolding sr_handle_ippacket
sr_handle_ippacket-IsDone sr p interface now i known ok off w =
    let (good, e) =
      sum_matches_total p (Ip.set_sum p 0) 0 (Ip.header_len p) (Ip.sum p)
        (omega (arith, length-store16 p 10 0, w.header)) in
    let on : IsDone (if good then dispatch_ip sr p interface now else some sr) =
      if_IsDone good _ _ (dispatch_ip-IsDone sr p interface now i known ok off w) (sr, refl) in
    let tested : IsDone (
        sum_matches p (Ip.set_sum p 0) 0 (Ip.header_len p) (Ip.sum p) >>= λ good.
        if good then dispatch_ip sr p interface now else some sr) =
      (on.0, rw e on.1) in
    if_IsDone _ _ _ (sr, refl) tested

-- The packets that wait name interfaces of the router.
abbrev pub AreKnown : List SrIf → List SrPacket → Type 0
AreKnown if_list [] = Unit {0}
AreKnown if_list (p ∷ ps) =
    ((i : SrIf) × (sr_get_interface if_list p.iface ≡ some i)) × AreKnown if_list ps

send_waiting-IsDone :
    (sr : Sr) (mac : Buffer) (interface : List ℕ) (ps : List SrPacket)
    → AreKnown sr.if_list ps
    → IsDone (send_waiting sr mac interface ps)
unfolding send_waiting
send_waiting-IsDone sr mac interface [] known = (sr, refl)
send_waiting-IsDone sr mac interface (p ∷ ps) ((i, e), known) =
    let frame = sr_create_etherframe p.buf mac i.addr Ether.ethertype_ip in
    let mid = sr_send_packet sr frame interface in
    let same = (sr_send_packet-Quiet sr frame interface).0.0 in
    let on =
      send_waiting-IsDone mid mac interface ps (subst (λ l. AreKnown l ps) (sym same) known) in
    (on.0, rw (e, send_waiting) on.1)

sr_handle_arp-IsDone :
    (sr : Sr) (a : Buffer) (interface : List ℕ) (now : ℕ) (i : SrIf)
    → sr_get_interface sr.if_list interface ≡ some i
    → Arp.size ≤ length a
    → ((req : ArpReq)
        → find_req (Arp.sip a) sr.cache.requests ≡ some req
        → AreKnown sr.if_list req.packets)
    → IsDone (sr_handle_arp sr a interface now)
unfolding sr_handle_arp handle_arp_request handle_arp_reply sr_send_arp sr_arpcache_insert
sr_handle_arp-IsDone sr a interface now i known long waiting =
    let handled =
      if_IsDone (ntohs (Arp.hrd a) == Arp.hrd_ethernet && ntohs (Arp.pro a) == Arp.pro_ip) _ _
        (if_IsDone (ntohs (Arp.op a) == Arp.op_request) _ _ asked (
          if_IsDone (ntohs (Arp.op a) == Arp.op_reply) _ _
            (replied (find_req (Arp.sip a) sr.cache.requests) waiting) (sr, refl)))
        (sr, refl) in
    (handled.0, ground (arith, long, handled.1))
  where
    sr' : Sr
    sr' = record sr { cache = (sr_arpcache_insert sr.cache (Arp.sha a) (Arp.sip a) now).1 }

    asked : IsDone (sr_send_arp sr' interface Arp.op_reply (Arp.sha a) (Arp.sip a))
    asked = bind_IsDone (sr_get_interface sr.if_list interface) _ i known (_, refl)

    replied :
        (r : Option ArpReq)
        → ((req : ArpReq) → r ≡ some req → AreKnown sr.if_list req.packets)
        → IsDone (elim r [
          | none ↦ some sr'
          | some arp_req ↦ do
            sr'' ← send_waiting sr' (Arp.sha a) interface arp_req.packets
            some (record sr'' { cache = sr_arpreq_destroy sr''.cache (Arp.sip a) })
        ])
    replied none known' = (sr', refl)
    replied (some req) known' =
        let (last, e) =
          send_waiting-IsDone sr' (Arp.sha a) interface req.packets (known' req refl) in
        (record last { cache = sr_arpreq_destroy last.cache (Arp.sip a) }, rw e refl)

-- With the translation switched off and the routes verified: a frame with a whole header that arrives
-- on an interface of the router, with a whole ARP packet if its type is ARP, with an IP packet that is
-- as long as what the router reads of it if its type is IP, where the packets that wait for the
-- sender of an ARP packet name interfaces of the router, is handled without a fault.
pub sr_handlepacket-IsDone :
    (sr : Sr) (packet : Buffer) (interface : List ℕ) (now : ℕ) (i : SrIf)
    → sr_verify_routing_table sr ≡ 0
    → sr.nat_enabled ≡ false
    → sr_get_interface sr.if_list interface ≡ some i
    → Ether.size ≤ length packet
    → let load = drop Ether.size packet in
      let type = ntohs (Ether.ether_type packet) in
      (type ≡ Ether.ethertype_arp → Arp.size ≤ length load)
      → (type ≡ Ether.ethertype_ip → IsWhole load)
      → ((req : ArpReq)
          → find_req (Arp.sip load) sr.cache.requests ≡ some req
          → AreKnown sr.if_list req.packets)
      → IsDone (sr_handlepacket sr packet interface now)
unfolding sr_handlepacket handle_payload
sr_handlepacket-IsDone sr packet interface now i ok off known long arp ip waiting =
    let handled : IsDone (
        sr_get_interface sr.if_list interface >>= λ i.
        if wrong_destination packet i then some sr else handle_payload sr load type interface now) =
      bind_IsDone (sr_get_interface sr.if_list interface) _ i known
        (if_IsDone (wrong_destination packet i) _ _ (sr, refl) by_type) in
    (handled.0, ground (arith, long, handled.1))
  where
    load : Buffer
    load = drop Ether.size packet

    type : ℕ
    type = ntohs (Ether.ether_type packet)

    by_type : IsDone (handle_payload sr load type interface now)
    by_type = elim (Bool-cases (type == Ether.ethertype_arp)) [
      | inl a ↦
          let (sr', e) =
            sr_handle_arp-IsDone sr load interface now i known
              (arp ((==_iff type Ether.ethertype_arp).0 a)) waiting in
          (sr', rw (a, handle_payload) e)
      | inr n ↦ elim (Bool-cases (type == Ether.ethertype_ip)) [
        | inl a ↦
            let (sr', e) =
              sr_handle_ippacket-IsDone sr load interface now i known ok off
                (ip ((==_iff type Ether.ethertype_ip).0 a)) in
            (sr', rw (n, a, handle_payload) e)
        | inr m ↦ (sr, rw (n, m, handle_payload) refl)
      ]
    ]
