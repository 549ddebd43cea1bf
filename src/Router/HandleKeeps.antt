-- ===== src/Router/HandleKeeps.antt =====
-- The handlers of frames against the configuration and the mapping table.
use cscd58_nat.Base.{
  ℕ, ◌≡◌, refl, ◌∙◌, ◌⊎◌, inl, inr, List, [], ◌∷◌, Option, some, Bool, true, false, Buffer, arith,
  ◌>>=◌, ◌>>◌, require, if◌then◌else◌, Option-cases, drop, ntohs, leb, length,
}
use cscd58_nat.Proto.Ether
use cscd58_nat.Proto.Arp
use cscd58_nat.Proto.Icmp
use cscd58_nat.Nat.Table.Invariant.{IsValid, HasRoom}
use cscd58_nat.If.{SrIf, sr_get_interface}
use cscd58_nat.Arp.{SrPacket, sr_arpcache_insert}
use cscd58_nat.Build.{sr_create_etherframe}
use cscd58_nat.Instance.{Sr}
use cscd58_nat.Send.{sr_send_packet}
use cscd58_nat.Router.Output.{sr_send_icmp, sr_forward_ippacket}
use cscd58_nat.Router.Quiet.{
  Quiet, sr_send_packet-Quiet, sr_send_arp-Quiet, sr_send_icmp-Quiet, sr_forward_ippacket-Quiet,
}
use cscd58_nat.Router.Translate.{nat_handle_icmp, nat_handle_tcp}
use cscd58_nat.Router.Keeps.{Keeps, nat_handle_icmp-Keeps, nat_handle_tcp-Keeps}
use cscd58_nat.Router.Handle.{
  reply_or_translate, icmp_to_router, to_router, to_elsewhere, dispatch_ip, sr_handle_ippacket,
  send_waiting, handle_arp_reply, handle_arp_request, sr_handle_arp, handle_payload,
  sr_handlepacket, wrong_destination,
}

Keeps-Quiet : (a b c : Sr) → Keeps a b → Quiet b c → Keeps a c
Keeps-Quiet a b c k q = ((q.0.0 ∙ k.0.0, q.0.1 ∙ k.0.1, q.0.2 ∙ k.0.2), rw (q.1) k.1)

pub Quiet-Keeps : (a b : Sr) → IsValid a.nat → Quiet a b → Keeps a b
Quiet-Keeps a b v q = (q.0, rw (q.1) v)

-- The ways on from a packet, none of which touches the NAT.
icmp_on :
    (a b c : Sr) (p : Buffer) (i : List ℕ) (type code : ℕ)
    → Keeps a b
    → sr_send_icmp b p i type code ≡ some c
    → Keeps a c
icmp_on a b c p i type code k e = Keeps-Quiet a b c k (sr_send_icmp-Quiet b c p i type code e)

forward_on :
    (a b c : Sr) (p : Buffer) (i : List ℕ)
    → Keeps a b
    → sr_forward_ippacket b p i ≡ some c
    → Keeps a c
forward_on a b c p i k e = Keeps-Quiet a b c k (sr_forward_ippacket-Quiet b c p i e)

pub unchanged : (sr : Sr) → IsValid sr.nat → Keeps sr sr
unchanged sr v = ((refl, refl, refl), v)

reply_or_translate-Keeps :
    (sr sr' : Sr) (p : Buffer) (i : List ℕ) (now : ℕ)
    → IsValid sr.nat
    → HasRoom sr.nat
    → reply_or_translate sr p i now ≡ some sr'
    → Keeps sr sr'
unfolding reply_or_translate
reply_or_translate-Keeps sr sr' p i now v room e = elim (Option-cases (nat_handle_icmp sr p now)) [
  | inl n ↦ ground (arith, unchanged sr v, icmp_on sr sr sr' p i Icmp.echoreply 0 (unchanged sr v))
  | inr ((b, q, mid), n) ↦
      let k = nat_handle_icmp-Keeps sr mid p q now b v room n in
      ground (
        arith,
        unchanged sr v,
        k,
        icmp_on sr sr sr' p i Icmp.echoreply 0 (unchanged sr v),
        forward_on sr mid sr' q i k,
      )
]

to_router-Keeps :
    (sr sr' : Sr) (p : Buffer) (i : List ℕ) (now : ℕ)
    → IsValid sr.nat
    → HasRoom sr.nat
    → to_router sr p i now ≡ some sr'
    → Keeps sr sr'
unfolding to_router icmp_to_router
to_router-Keeps sr sr' p i now v room e = elim (Option-cases (nat_handle_tcp sr p true now)) [
  | inl n ↦ ground (
    arith,
    unchanged sr v,
    reply_or_translate-Keeps sr sr' p i now v room,
    icmp_on sr sr sr' p i Icmp.dstunreachable 3 (unchanged sr v),
    icmp_on sr sr sr' p i Icmp.dstunreachable 2 (unchanged sr v),
  )
  | inr (r, n) ↦
      let k = nat_handle_tcp-Keeps sr p true now r v room n in
      ground (
        arith,
        unchanged sr v,
        k,
        reply_or_translate-Keeps sr sr' p i now v room,
        icmp_on sr sr sr' p i Icmp.dstunreachable 3 (unchanged sr v),
        icmp_on sr sr sr' p i Icmp.dstunreachable 2 (unchanged sr v),
        icmp_on sr r.sr sr' r.packet i Icmp.dstunreachable 3 k,
        forward_on sr r.sr sr' r.packet i k,
      )
]

to_elsewhere-Keeps :
    (sr sr' : Sr) (p : Buffer) (i : List ℕ) (now : ℕ)
    → IsValid sr.nat
    → HasRoom sr.nat
    → to_elsewhere sr p i now ≡ some sr'
    → Keeps sr sr'
unfolding to_elsewhere
to_elsewhere-Keeps sr sr' p i now v room e = elim (Option-cases (nat_handle_icmp sr p now)) [
  | inl m ↦ elim (Option-cases (nat_handle_tcp sr p false now)) [
    | inl n ↦ ground (
      arith,
      icmp_on sr sr sr' p i Icmp.timeexceeded 0 (unchanged sr v),
      forward_on sr sr sr' p i (unchanged sr v),
    )
    | inr (r, n) ↦
        let k = nat_handle_tcp-Keeps sr p false now r v room n in
        ground (
          arith,
          icmp_on sr sr sr' p i Icmp.timeexceeded 0 (unchanged sr v),
          forward_on sr sr sr' p i (unchanged sr v),
          icmp_on sr r.sr sr' r.packet i Icmp.dstunreachable 1 k,
          forward_on sr r.sr sr' r.packet i k,
        )
  ]
  | inr ((b, q, mid), m) ↦ elim (Option-cases (nat_handle_tcp sr p false now)) [
    | inl n ↦ ground (
      arith,
      icmp_on sr sr sr' p i Icmp.timeexceeded 0 (unchanged sr v),
      forward_on sr sr sr' p i (unchanged sr v),
      forward_on sr mid sr' q i (nat_handle_icmp-Keeps sr mid p q now b v room m),
    )
    | inr (r, n) ↦
        let k = nat_handle_tcp-Keeps sr p false now r v room n in
        ground (
          arith,
          icmp_on sr sr sr' p i Icmp.timeexceeded 0 (unchanged sr v),
          forward_on sr sr sr' p i (unchanged sr v),
          forward_on sr mid sr' q i (nat_handle_icmp-Keeps sr mid p q now b v room m),
          icmp_on sr r.sr sr' r.packet i Icmp.dstunreachable 1 k,
          forward_on sr r.sr sr' r.packet i k,
        )
  ]
]

dispatch_ip-Keeps :
    (sr sr' : Sr) (p : Buffer) (i : List ℕ) (now : ℕ)
    → IsValid sr.nat
    → HasRoom sr.nat
    → dispatch_ip sr p i now ≡ some sr'
    → Keeps sr sr'
unfolding dispatch_ip
dispatch_ip-Keeps sr sr' p i now v room e =
    ground (arith, to_router-Keeps sr sr' p i now v room, to_elsewhere-Keeps sr sr' p i now v room)

pub sr_handle_ippacket-Keeps :
    (sr sr' : Sr) (p : Buffer) (i : List ℕ) (now : ℕ)
    → IsValid sr.nat
    → HasRoom sr.nat
    → sr_handle_ippacket sr p i now ≡ some sr'
    → Keeps sr sr'
unfolding sr_handle_ippacket
sr_handle_ippacket-Keeps sr sr' p i now v room e =
    ground (arith, unchanged sr v, dispatch_ip-Keeps sr sr' p i now v room)

send_waiting-Quiet :
    (sr sr' : Sr) (mac : Buffer) (i : List ℕ) (ps : List SrPacket)
    → send_waiting sr mac i ps ≡ some sr'
    → Quiet sr sr'
unfolding send_waiting
send_waiting-Quiet sr sr' mac i [] e = ground arith
send_waiting-Quiet sr sr' mac i (p ∷ ps) e =
    elim (Option-cases (sr_get_interface sr.if_list p.iface)) [
      | inl n ↦ ground arith
      | inr (out, n) ↦
          let frame = sr_create_etherframe p.buf mac out.addr Ether.ethertype_ip in
          let mid = sr_send_packet sr frame i in
          ground (arith, sr_send_packet-Quiet sr frame i, send_waiting-Quiet mid sr' mac i ps)
    ]

handle_arp_reply-Quiet :
    (sr sr' : Sr) (mac : Buffer) (ip : ℕ) (i : List ℕ) (now : ℕ)
    → handle_arp_reply sr mac ip i now ≡ some sr'
    → Quiet sr sr'
unfolding handle_arp_reply
handle_arp_reply-Quiet sr sr' mac ip i now e =
    let (found, cache) = sr_arpcache_insert sr.cache mac ip now in
    let mid : Sr = record sr { cache = cache } in
    elim (Option-cases found) [
      | inl n ↦ ground arith
      | inr (req, n) ↦ elim (Option-cases (send_waiting mid mac i req.packets)) [
        | inl m ↦ ground arith
        | inr (last, m) ↦ ground (arith, send_waiting-Quiet mid last mac i req.packets m)
      ]
    ]

sr_handle_arp-Quiet :
    (sr sr' : Sr) (p : Buffer) (i : List ℕ) (now : ℕ)
    → sr_handle_arp sr p i now ≡ some sr'
    → Quiet sr sr'
unfolding sr_handle_arp handle_arp_request
sr_handle_arp-Quiet sr sr' p i now e =
    let asked : Sr = record sr {
      cache = (sr_arpcache_insert sr.cache (Arp.sha p) (Arp.sip p) now).1;
    } in
    ground (
      arith,
      handle_arp_reply-Quiet sr sr' (Arp.sha p) (Arp.sip p) i now,
      sr_send_arp-Quiet asked sr' i Arp.op_reply (Arp.sha p) (Arp.sip p),
    )

sr_handle_arp-Keeps :
    (sr sr' : Sr) (p : Buffer) (i : List ℕ) (now : ℕ)
    → IsValid sr.nat
    → sr_handle_arp sr p i now ≡ some sr'
    → Keeps sr sr'
sr_handle_arp-Keeps sr sr' p i now v e = Quiet-Keeps sr sr' v (sr_handle_arp-Quiet sr sr' p i now e)

handle_payload-Keeps :
    (sr sr' : Sr) (p : Buffer) (ethertype : ℕ) (i : List ℕ) (now : ℕ)
    → IsValid sr.nat
    → HasRoom sr.nat
    → handle_payload sr p ethertype i now ≡ some sr'
    → Keeps sr sr'
unfolding handle_payload
handle_payload-Keeps sr sr' p ethertype i now v room e = ground (
  arith,
  unchanged sr v,
  sr_handle_ippacket-Keeps sr sr' p i now v room,
  sr_handle_arp-Keeps sr sr' p i now v,
)

-- A frame is dropped, or its payload is handled.
dropped_or :
    (t : Bool) (o : Option SrIf) (wrong : SrIf → Bool) (sr sr' : Sr) (rest : Option Sr)
    → (require t >> (o >>= λ i. if wrong i then some sr else rest)) ≡ some sr'
    → (sr' ≡ sr) ⊎ (rest ≡ some sr')
dropped_or t o wrong sr sr' rest e = ground arith

-- With a valid table and an id free, a frame that is handled leaves the configuration as it was and
-- the table valid.
pub sr_handlepacket-Keeps :
    (sr sr' : Sr) (p : Buffer) (i : List ℕ) (now : ℕ)
    → IsValid sr.nat
    → HasRoom sr.nat
    → sr_handlepacket sr p i now ≡ some sr'
    → Keeps sr sr'
unfolding sr_handlepacket
sr_handlepacket-Keeps sr sr' p i now v room e =
    let payload = drop Ether.size p in
    let ethertype = ntohs (Ether.ether_type p) in
    elim (dropped_or (leb Ether.size (length p)) (sr_get_interface sr.if_list i)
      (wrong_destination p) sr sr' (handle_payload sr payload ethertype i now) e) [
        | inl kept ↦ rw kept (unchanged sr v)
        | inr on ↦ handle_payload-Keeps sr sr' payload ethertype i now v room on
      ]
