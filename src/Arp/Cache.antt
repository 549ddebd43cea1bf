-- ===== src/Arp/Cache.antt =====
-- The cache and the queue of router/sr_arpcache.c as a table.
pub mod Learnt
use cscd58_nat.Base.{
  ℕ, ◌<◌, ◌≡◌, ◌≢◌, ◌⊎◌, inl, inr, refl, List, [], ◌∷◌, Option, none, some, true, false, arith,
  Bool-cases, ==_refl, Buffer, length, take,
}
use cscd58_nat.Arp.{
  ArpEntry, ArpReq, ArpCache, holds, lookup_entries, sr_arpcache_lookup, find_req, update_req,
  remove_req, push_packet, sr_arpcache_queuereq, fill_entry, sr_arpcache_insert,
}

-- Some slot is not valid.
abbrev pub HasSlot : List ArpEntry → Type 0
HasSlot [] = ⊥
HasSlot (e ∷ es) = (e.valid ≡ false) ⊎ HasSlot es

found_stays : (ip : ℕ) (x : ArpEntry) (es : List ArpEntry) → lookup_entries ip (some x) es ≢ none
unfolding lookup_entries
found_stays ip x [] e = absurd (cc e)
found_stays ip x (y ∷ es) e = elim (Bool-cases (holds ip y)) [
  | inl t ↦ found_stays ip y es (rw t at e)
  | inr f ↦ found_stays ip x es (rw f at e)
]

lookup_entries-none :
    (ip : ℕ) (found : Option ArpEntry) (es : List ArpEntry)
    → lookup_entries ip none es ≡ none
    → lookup_entries ip found es ≡ found
unfolding lookup_entries
lookup_entries-none ip found [] e = refl
lookup_entries-none ip found (x ∷ es) e = elim (Bool-cases (holds ip x)) [
  | inl t ↦ absurd (found_stays ip x es (rw t at e))
  | inr f ↦ rw f (lookup_entries-none ip found es (rw f at e))
]

lookup_entries-fill_entry :
    (new : ArpEntry) (es : List ArpEntry)
    → new.valid ≡ true
    → HasSlot es
    → lookup_entries new.ip none es ≡ none
    → lookup_entries new.ip none (fill_entry new es) ≡ some new
unfolding lookup_entries fill_entry
lookup_entries-fill_entry new [] v slot e = absurd slot
lookup_entries-fill_entry new (x ∷ es) v slot e = elim (Bool-cases x.valid) [
  | inr f ↦
      let own : holds new.ip new ≡ true = ground (arith, ==_refl new.ip) in
      rw (f, fill_entry, own, lookup_entries) (lookup_entries-none new.ip (some new) es (rw f at e))
  | inl t ↦ elim (Bool-cases (holds new.ip x)) [
    | inl h ↦ absurd (found_stays new.ip x es (rw h at e))
    | inr h ↦ ground (arith, lookup_entries-fill_entry new es v)
  ]
]

-- Where some slot is free and the cache has no entry for the address, an insertion puts one in: the
-- lookup finds the hardware address, and the request for the address is the one that waited.
pub insert-lookup_mac :
    (cache : ArpCache) (mac : Buffer) (ip now : ℕ)
    → HasSlot cache.entries
    → sr_arpcache_lookup cache ip ≡ none
    → let (req, cache') = sr_arpcache_insert cache mac ip now in
      (sr_arpcache_lookup cache' ip
        ≡ some (record { mac = take 6 mac; ip = ip; added = now; valid = true }))
      × (req ≡ find_req ip cache.requests)
unfolding sr_arpcache_lookup sr_arpcache_insert
insert-lookup_mac cache mac ip now slot e = (
  lookup_entries-fill_entry (record { mac = take 6 mac; ip = ip; added = now; valid = true })
      cache.entries refl slot e,
  refl,
)

-- The request that a packet is added to.
abbrev pub waiting : ℕ → Option ArpReq → ArpReq
waiting ip none = record { ip = ip; sent = 0; times_sent = 0; packets = [] }
waiting ip (some r) = r

pub remove_req-none : (ip : ℕ) (rs : List ArpReq) → find_req ip rs ≡ none → remove_req ip rs ≡ rs
unfolding find_req remove_req
remove_req-none ip [] e = refl
remove_req-none ip (r ∷ rs) e = ground (arith, remove_req-none ip rs)

-- The first packet for an address makes a request, in front of the others.
pub queuereq_first :
    (cache : ArpCache) (ip : ℕ) (packet : Buffer) (iface sender : List ℕ)
    → 0 < length packet
    → find_req ip cache.requests ≡ none
    → sr_arpcache_queuereq cache ip packet iface sender ≡ record cache {
      requests = push_packet packet iface sender (waiting ip none) ∷ cache.requests;
    }
unfolding sr_arpcache_queuereq update_req
queuereq_first cache ip packet iface sender h e =
    rw (e, ==_refl ip, sr_arpcache_queuereq, update_req) (ground arith)
