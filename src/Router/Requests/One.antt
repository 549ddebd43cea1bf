-- ===== src/Router/Requests/One.antt =====
-- One ARP request of the queue in a round: `sr_handle_arpreq_queue` of router/sr_arpcache.c.
use cscd58_nat.Base.{
  ℕ, ◌+◌, ◌≤◌, ◌<◌, ◌≡◌, ◌≢◌, ◌⊎◌, inl, inr, refl, sym, ap, List, [], ◌∷◌, some, false, Buffer, leb,
  arith, Bool-cases, Option-cases,
}
use cscd58_nat.Proto.Arp
use cscd58_nat.Arp.{ArpReq, find_req, update_req, arpreq_to, arpreq_max}
use cscd58_nat.Nat.Types.{older}
use cscd58_nat.Send.{sr_send_packet}
use cscd58_nat.Instance.{Sr}
use cscd58_nat.Router.Output.{sr_send_arp}
use cscd58_nat.Router.Periodic.{
  ether_broadcast_addr, first_iface, unreachable_all, give_up, ask_again, count_sent,
  sr_handle_arpreq_queue,
}

sr_send_arp-cache :
    (sr sr' : Sr) (iface : List ℕ) (type : ℕ) (mac : Buffer) (ip : ℕ)
    → sr_send_arp sr iface type mac ip ≡ some sr'
    → sr'.cache ≡ sr.cache
unfolding sr_send_arp sr_send_packet
sr_send_arp-cache sr sr' iface type mac ip e = ground arith

pub find_req-ip : (ip : ℕ) (rs : List ArpReq) (r : ArpReq) → find_req ip rs ≡ some r → r.ip ≡ ip
unfolding find_req
find_req-ip ip [] r e = absurd (cc e)
find_req-ip ip (x ∷ rs) r e = ground (arith, find_req-ip ip rs r)

pub find_req-update_other :
    (ip other now : ℕ) (rs : List ArpReq)
    → other ≢ ip
    → find_req ip (update_req other (count_sent now) rs) ≡ find_req ip rs
unfolding find_req update_req
find_req-update_other ip other now [] ne = refl
find_req-update_other ip other now (x ∷ rs) ne =
    ground (arith, find_req-update_other ip other now rs ne)

pub find_req-update_own :
    (ip now : ℕ) (rs : List ArpReq) (r : ArpReq)
    → find_req ip rs ≡ some r
    → find_req ip (update_req ip (count_sent now) rs) ≡ some (count_sent now r)
unfolding find_req update_req
find_req-update_own ip now [] r e = absurd (cc e)
find_req-update_own ip now (x ∷ rs) r e = ground (arith, find_req-update_own ip now rs r)

-- A request that has not been destroyed.
abbrev pub Handled : Sr → ArpReq → ℕ → Sr → Type 0
Handled sr r now sr' =
    ((now ≤ r.sent + 1) × (sr'.cache.requests ≡ sr.cache.requests))
    ⊎ ((r.sent + 1 < now)
        × (r.times_sent < 5)
        × (sr'.cache.requests ≡ update_req r.ip (count_sent now) sr.cache.requests))

give_up-destroyed : (sr sr' : Sr) (r : ArpReq) → give_up sr r ≢ some (false, sr')
unfolding give_up
give_up-destroyed sr sr' r e = elim (Option-cases (unreachable_all sr r.packets)) [
  | inl n ↦ ground arith
  | inr (last, n) ↦ ground arith
]

ask_again-requests :
    (sr sr' : Sr) (r : ArpReq) (now : ℕ)
    → ask_again sr r now ≡ some (false, sr')
    → sr'.cache.requests ≡ update_req r.ip (count_sent now) sr.cache.requests
unfolding ask_again
ask_again-requests sr sr' r now e = elim (Option-cases (first_iface r.packets)) [
  | inl m ↦ ground arith
  | inr (i, m) ↦ elim (Option-cases (sr_send_arp sr i Arp.op_request ether_broadcast_addr r.ip)) [
    | inl k ↦ ground arith
    | inr (mid, k) ↦
        ground (arith, sr_send_arp-cache sr mid i Arp.op_request ether_broadcast_addr r.ip k)
  ]
]

pub sr_handle_arpreq_queue-Handled :
    (sr sr' : Sr) (r : ArpReq) (now : ℕ)
    → sr_handle_arpreq_queue sr r now ≡ some (false, sr')
    → Handled sr r now sr'
unfolding sr_handle_arpreq_queue
sr_handle_arpreq_queue-Handled sr sr' r now e = elim (Bool-cases (older now r.sent arpreq_to)) [
  | inr young ↦
      let same : sr ≡ sr' = cc (rw (young, sr_handle_arpreq_queue) at e) in
      inl (ground arith, ap (λ (s : Sr). s.cache.requests) (sym same))
  | inl due ↦ elim (Bool-cases (leb arpreq_max r.times_sent)) [
    | inl often ↦ absurd (give_up-destroyed sr sr' r (rw (due, often, sr_handle_arpreq_queue) at e))
    | inr few ↦ inr (
      ground arith,
      ground arith,
      ask_again-requests sr sr' r now (rw (due, few, sr_handle_arpreq_queue) at e),
    )
  ]
]
