-- ===== src/Arp/Cache/Learnt.antt =====
-- What the cache and the queue of router/sr_arpcache.c hold after `sr_arpcache_insert`.
use cscd58_nat.Base.{
  ℕ, ◌≡◌, ◌≢◌, ◌⊎◌, inl, inr, refl, List, [], ◌∷◌, Option, none, some, true, false, arith,
  Bool-cases, Buffer, take,
}
use cscd58_nat.Arp.{
  ArpEntry, ArpReq, ArpCache, holds, lookup_entries, sr_arpcache_lookup, find_req, remove_req,
  fill_entry, sr_arpcache_insert, sr_arpreq_destroy,
}
use cscd58_nat.Arp.Cache.{HasSlot, insert-lookup_mac, remove_req-none}

-- At most one request in the queue is for the address.
abbrev pub AtMostOne : ℕ → List ArpReq → Type 0
AtMostOne ip [] = Unit {0}
AtMostOne ip (r ∷ rs) = ((r.ip ≢ ip) × AtMostOne ip rs) ⊎ ((r.ip ≡ ip) × (find_req ip rs ≡ none))

-- The address `ip` has been learnt at the time `now`: the lookup finds its hardware address, and no
-- request for it is in the queue. For the address `other` the lookup and the queue are as before.
pub record Learnt (mac : Buffer) (ip now other : ℕ) (before after : ArpCache) : Type 0 where
  pub known :
      sr_arpcache_lookup after ip
      ≡ some (record { mac = take 6 mac; ip = ip; added = now; valid = true })
  pub answered : find_req ip after.requests ≡ none
  pub known_other : sr_arpcache_lookup after other ≡ sr_arpcache_lookup before other
  pub asked_other : find_req other after.requests ≡ find_req other before.requests

remove_req-AtMostOne :
    (ip : ℕ) (rs : List ArpReq) → AtMostOne ip rs → find_req ip (remove_req ip rs) ≡ none
unfolding find_req remove_req
remove_req-AtMostOne ip [] one = refl
remove_req-AtMostOne ip (r ∷ rs) (inl (ne, one)) = ground (arith, remove_req-AtMostOne ip rs one)
remove_req-AtMostOne ip (r ∷ rs) (inr (e, rest)) = ground (arith, rest)

remove_req-other :
    (ip other : ℕ) (rs : List ArpReq)
    → other ≢ ip
    → find_req other (remove_req ip rs) ≡ find_req other rs
unfolding find_req remove_req
remove_req-other ip other [] ne = refl
remove_req-other ip other (r ∷ rs) ne = ground (arith, remove_req-other ip other rs ne)

lookup_entries-other :
    (new : ArpEntry) (other : ℕ) (found : Option ArpEntry) (es : List ArpEntry)
    → other ≢ new.ip
    → lookup_entries other found (fill_entry new es) ≡ lookup_entries other found es
unfolding lookup_entries fill_entry
lookup_entries-other new other found [] ne = refl
lookup_entries-other new other found (e ∷ es) ne = elim (Bool-cases e.valid) [
  | inl t ↦ elim (Bool-cases (holds other e)) [
    | inl h ↦ ground (arith, lookup_entries-other new other (some e) es ne)
    | inr h ↦ ground (arith, lookup_entries-other new other found es ne)
  ]
  | inr f ↦
      let own : holds other new ≡ false = ground arith in
      rw (f, own, fill_entry, lookup_entries) refl
]

-- The insertion, and the removal of the request that may follow it.
pub insert-Learnt :
    (cache : ArpCache) (mac : Buffer) (ip now other : ℕ)
    → HasSlot cache.entries
    → sr_arpcache_lookup cache ip ≡ none
    → AtMostOne ip cache.requests
    → other ≢ ip
    → let cache' = (sr_arpcache_insert cache mac ip now).1 in
      Learnt mac ip now other cache cache' × (sr_arpreq_destroy cache' ip ≡ cache')
unfolding sr_arpcache_insert sr_arpreq_destroy sr_arpcache_lookup
insert-Learnt cache mac ip now other slot unknown one ne =
    let gone = remove_req-AtMostOne ip cache.requests one in
    let rest = remove_req-none ip (remove_req ip cache.requests) gone in
    (
      record {
        known = (insert-lookup_mac cache mac ip now slot unknown).0;
        answered = gone;
        known_other = lookup_entries-other _ other none cache.entries ne;
        asked_other = remove_req-other ip other cache.requests ne;
      },
      rw rest refl,
    )
