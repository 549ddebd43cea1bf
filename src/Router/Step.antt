-- ===== src/Router/Step.antt =====
-- Runs of the router: frames and the rounds of the two timeout threads, in any order.
use cscd58_nat.Base.{
  ℕ, ◌≡◌, ap, ◌∙◌, inl, inr, List, [], ◌∷◌, none, some, Bool, Buffer, arith, ◌>>=◌, Option-cases,
}
use cscd58_nat.Proto.Arp
use cscd58_nat.Arp.{ArpReq, SrPacket, find_req, expire_entries}
use cscd58_nat.Nat.Types.{SrNat, UnsolPkt, UnsolHead, pkts, dangling}
use cscd58_nat.Proto.Ip
use cscd58_nat.Proto.Icmp
use cscd58_nat.Rt.{sr_rt_lookup}
use cscd58_nat.Nat.Conn.Laws.{SameIds, SameIds-IsValid}
use cscd58_nat.Nat.Timeout.{timeout_mappings}
use cscd58_nat.Nat.Timeout.Sweep.{timeout_mappings-IsValid}
use cscd58_nat.Nat.Table.Invariant.{count_ext, IsValid, HasRoom}
use cscd58_nat.Instance.{Sr}
use cscd58_nat.Router.Output.{sr_send_arp, sr_send_icmp}
use cscd58_nat.Router.Quiet.{Quiet, sr_send_arp-Quiet, sr_send_icmp-Quiet}
use cscd58_nat.Router.Keeps.{Keeps}
use cscd58_nat.Router.Handle.{sr_handlepacket}
use cscd58_nat.Router.HandleKeeps.{Quiet-Keeps, unchanged, sr_handlepacket-Keeps}
use cscd58_nat.Router.Periodic.{
  ether_broadcast_addr, first_iface, unreachable_all, give_up, ask_again, sr_handle_arpreq_queue,
  sweep_requests, sr_arpcache_sweepreqs, arpcache_round, expire_unsolicited, nat_round,
}

-- One step. A frame is taken while some external id is free.
pub data Step : Sr → Sr → Type 0 where
  frame :
      (sr sr' : Sr) (packet : Buffer) (interface : List ℕ) (now : ℕ)
      → HasRoom sr.nat
      → sr_handlepacket sr packet interface now ≡ some sr'
      → Step sr sr'
  arp_timeout : (sr sr' : Sr) (now : ℕ) → arpcache_round sr now ≡ some sr' → Step sr sr'
  nat_timeout : (sr sr' : Sr) (now : ℕ) → nat_round sr now ≡ some sr' → Step sr sr'

pub data Steps : Sr → Sr → Type 0 where
  done : (sr : Sr) → Steps sr sr
  more : (a b c : Sr) → Step a b → Steps b c → Steps a c

unreachable_all-Quiet :
    (sr sr' : Sr) (ps : List SrPacket) → unreachable_all sr ps ≡ some sr' → Quiet sr sr'
unfolding unreachable_all
unreachable_all-Quiet sr sr' [] e = ground arith
unreachable_all-Quiet sr sr' (p ∷ ps) e =
    elim (Option-cases (sr_send_icmp sr p.buf p.sender Icmp.dstunreachable 1)) [
      | inl n ↦ ground arith
      | inr (mid, n) ↦ ground (
        arith,
        sr_send_icmp-Quiet sr mid p.buf p.sender Icmp.dstunreachable 1 n,
        unreachable_all-Quiet mid sr' ps,
      )
    ]

give_up-Quiet :
    (sr sr' : Sr) (req : ArpReq) (destroyed : Bool)
    → give_up sr req ≡ some (destroyed, sr')
    → Quiet sr sr'
unfolding give_up
give_up-Quiet sr sr' req destroyed e = elim (Option-cases (unreachable_all sr req.packets)) [
  | inl n ↦ ground arith
  | inr (last, n) ↦ ground (arith, unreachable_all-Quiet sr last req.packets n)
]

ask_again-Quiet :
    (sr sr' : Sr) (req : ArpReq) (now : ℕ) (destroyed : Bool)
    → ask_again sr req now ≡ some (destroyed, sr')
    → Quiet sr sr'
unfolding ask_again
ask_again-Quiet sr sr' req now destroyed e = elim (Option-cases (first_iface req.packets)) [
  | inl m ↦ ground arith
  | inr (i, m) ↦ elim (Option-cases (sr_send_arp sr i Arp.op_request ether_broadcast_addr req.ip)) [
    | inl k ↦ ground arith
    | inr (mid, k) ↦
        ground (arith, sr_send_arp-Quiet sr mid i Arp.op_request ether_broadcast_addr req.ip k)
  ]
]

sr_handle_arpreq_queue-Quiet :
    (sr sr' : Sr) (req : ArpReq) (now : ℕ) (destroyed : Bool)
    → sr_handle_arpreq_queue sr req now ≡ some (destroyed, sr')
    → Quiet sr sr'
unfolding sr_handle_arpreq_queue
sr_handle_arpreq_queue-Quiet sr sr' req now destroyed e =
    ground (arith, give_up-Quiet sr sr' req destroyed, ask_again-Quiet sr sr' req now destroyed)

sweep_requests-Quiet :
    (sr sr' : Sr) (now : ℕ) (ips : List ℕ) → sweep_requests sr now ips ≡ some sr' → Quiet sr sr'
unfolding sweep_requests
sweep_requests-Quiet sr sr' now [] e = ground arith
sweep_requests-Quiet sr sr' now (ip ∷ ips) e = elim (Option-cases (find_req ip sr.cache.requests)) [
  | inl n ↦ ground arith
  | inr (req, n) ↦ elim (Option-cases (sr_handle_arpreq_queue sr req now)) [
    | inl m ↦ ground arith
    | inr ((destroyed, mid), m) ↦ ground (
      arith,
      sr_handle_arpreq_queue-Quiet sr mid req now destroyed m,
      sweep_requests-Quiet mid sr' now ips,
    )
  ]
]

arpcache_round-Quiet : (sr sr' : Sr) (now : ℕ) → arpcache_round sr now ≡ some sr' → Quiet sr sr'
unfolding arpcache_round sr_arpcache_sweepreqs
arpcache_round-Quiet sr sr' now e =
    let start : Sr = record sr {
      cache = record (sr.cache) { entries = expire_entries now sr.cache.entries };
    } in
    let q = sweep_requests-Quiet start sr' now _ e in q

expire_unsolicited-Quiet :
    (sr : Sr) (now : ℕ) (us : List UnsolPkt) (r : List UnsolPkt × Sr)
    → expire_unsolicited sr now us ≡ some r
    → Quiet sr r.1
unfolding expire_unsolicited
expire_unsolicited-Quiet sr now [] r e = ground arith
expire_unsolicited-Quiet sr now (u ∷ us) r e =
    elim (Option-cases (sr_rt_lookup sr.routing_table (Ip.src u.ip_packet))) [
      | inl n ↦ ground arith
      | inr (none, n) ↦ elim (Option-cases (expire_unsolicited sr now us)) [
        | inl m ↦ ground arith
        | inr (rest, m) ↦ ground (arith, expire_unsolicited-Quiet sr now us rest m)
      ]
      | inr (some lpm, n) ↦
          elim (Option-cases (sr_send_icmp sr u.ip_packet lpm.interface Icmp.dstunreachable 3)) [
            | inl m ↦ elim (Option-cases (expire_unsolicited sr now us)) [
              | inl k ↦ ground arith
              | inr (rest, k) ↦ ground (arith, expire_unsolicited-Quiet sr now us rest k)
            ]
            | inr (mid, m) ↦ elim (Option-cases (expire_unsolicited sr now us)) [
              | inl k ↦ ground (
                arith,
                sr_send_icmp-Quiet sr mid u.ip_packet lpm.interface Icmp.dstunreachable 3 m,
                expire_unsolicited-Quiet mid now us r,
              )
              | inr (rest, k) ↦ ground (
                arith,
                sr_send_icmp-Quiet sr mid u.ip_packet lpm.interface Icmp.dstunreachable 3 m,
                expire_unsolicited-Quiet sr now us rest k,
                expire_unsolicited-Quiet mid now us r,
              )
            ]
          ]
    ]

expired_on :
    (sr : Sr) (now : ℕ) (us : List UnsolPkt) (sr' : Sr)
    → IsValid sr.nat
    → (expire_unsolicited sr now us >>= λ r.
        some
          (record (r.1) { nat = timeout_mappings (record (r.1.nat) { unsol_pkt = pkts r.0 }) now }))
      ≡ some sr'
    → Keeps sr sr'
expired_on sr now us sr' v e = elim (Option-cases (expire_unsolicited sr now us)) [
  | inl n ↦ absurd (cc (rw n at e))
  | inr (r, n) ↦
      let q = expire_unsolicited-Quiet sr now us r n in
      let before : SrNat = record (r.1.nat) { unsol_pkt = pkts r.0 } in
      let same : SameIds sr.nat before =
        (ap (λ (x : SrNat). x.bitmap) q.1, λ k. ap (λ (x : SrNat). count_ext k x.mappings) q.1) in
      let ok = timeout_mappings-IsValid before now (SameIds-IsValid sr.nat before same v) in
      ground (arith, q.0, ok)
]

nat_round-Keeps :
    (sr sr' : Sr) (now : ℕ) → IsValid sr.nat → nat_round sr now ≡ some sr' → Keeps sr sr'
unfolding nat_round
nat_round-Keeps sr sr' now v e = started sr.nat.unsol_pkt e
  where
    started :
        (head : UnsolHead)
        → (elim head [
          | dangling ↦ none
          | pkts us ↦ expire_unsolicited sr now us >>= λ r. some (record (r.1) {
            nat = timeout_mappings (record (r.1.nat) { unsol_pkt = pkts r.0 }) now;
          })
        ])
          ≡ some sr'
        → Keeps sr sr'
    started (pkts us) f = expired_on sr now us sr' v f
    started dangling f = absurd (cc f)

-- Every step keeps the configuration and the validity of the mapping table.
Step-Keeps : (sr sr' : Sr) → Step sr sr' → IsValid sr.nat → Keeps sr sr'
Step-Keeps _ _ (frame sr sr' packet interface now room e) v =
    sr_handlepacket-Keeps sr sr' packet interface now v room e
Step-Keeps _ _ (arp_timeout sr sr' now e) v =
    Quiet-Keeps sr sr' v (arpcache_round-Quiet sr sr' now e)
Step-Keeps _ _ (nat_timeout sr sr' now e) v = nat_round-Keeps sr sr' now v e

-- From a state with a valid mapping table, every run of frames and timeout rounds that does not
-- fault, and takes frames only while an external id is free, ends in a state with the same
-- interfaces, routes and NAT switch and a valid table.
pub Steps-Keeps : (sr sr' : Sr) → IsValid sr.nat → Steps sr sr' → Keeps sr sr'
Steps-Keeps _ _ v (done sr) = unchanged sr v
Steps-Keeps _ _ v (more sr b sr' s rest) =
    let k = Step-Keeps sr b s v in
    let l = Steps-Keeps b sr' k.1 rest in ((l.0.0 ∙ k.0.0, l.0.1 ∙ k.0.1, l.0.2 ∙ k.0.2), l.1)
