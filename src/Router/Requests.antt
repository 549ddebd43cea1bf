-- ===== src/Router/Requests.antt =====
-- The queue of ARP requests across a round of `sr_arpcache_timeout`: `sr_handle_arpreq_queue` and
-- `sr_arpcache_sweepreqs` of router/sr_arpcache.c.
pub mod One
use cscd58_nat.Base.{
  ℕ, ◌+◌, ◌≤◌, ◌<◌, ◌≡◌, ◌≢◌, ◌⊎◌, refl, List, [], ◌∷◌, Option, none, some, Buffer, leb, Bool-cases,
}
use cscd58_nat.Proto.Arp
use cscd58_nat.Arp.{ArpReq, update_req, arpreq_to, arpreq_max}
use cscd58_nat.Nat.Types.{older}
use cscd58_nat.Send.{sr_send_packet}
use cscd58_nat.Router.Output.{sr_send_arp}
use cscd58_nat.Router.Periodic.{
  ether_broadcast_addr, first_iface, unreachable_all, give_up, ask_again, count_sent,
}

-- What a round makes of a request: it is left as it is in the second that it was sent in and the
-- next one, and is otherwise sent again, which it has been fewer than five times.
abbrev pub AskedAgain : ℕ → Option ArpReq → Option ArpReq → Type 0
AskedAgain now none after = after ≡ none
AskedAgain now (some r) after =
    ((now ≤ r.sent + 1) × (after ≡ some r))
    ⊎ ((r.sent + 1 < now)
        × (r.times_sent < 5)
        × (after ≡ some (record r { sent = now; times_sent = r.times_sent + 1 })))

-- The walk comes to the address at no time, or once.
abbrev Absent : ℕ → List ℕ → Type 0
Absent ip [] = Unit {0}
Absent ip (k ∷ ks) = (k ≢ ip) × Absent ip ks

abbrev Once : ℕ → List ℕ → Type 0
Once ip [] = ⊥
Once ip (k ∷ ks) = ((k ≢ ip) × Once ip ks) ⊎ ((k ≡ ip) × Absent ip ks)
