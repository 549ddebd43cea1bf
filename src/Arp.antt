-- ===== src/Arp.antt =====
-- router/sr_arpcache.c: the cache and the request queue. A request in the queue is known by its
-- address `ip`, which no two of them share.
pub mod Cache
use cscd58_nat.Base.{
  ℕ, ◌+◌, List, [], ◌∷◌, Option, none, some, Bool, true, false, not, ◌==◌, ◌&&◌, ltb, if◌then◌else◌,
  take, replicate, Buffer, length,
}
use cscd58_nat.Proto.{iface_namelen}

-- struct sr_packet; `len` is the length of `buf`.
pub record SrPacket : Type 0 where
  pub buf : Buffer
  pub iface : List ℕ
  pub sender : List ℕ

-- struct sr_arpentry
pub record ArpEntry : Type 0 where
  pub mac : Buffer
  pub ip : ℕ
  pub added : ℕ
  pub valid : Bool

-- struct sr_arpreq
pub record ArpReq : Type 0 where
  pub ip : ℕ
  pub sent : ℕ
  pub times_sent : ℕ
  pub packets : List SrPacket

-- struct sr_arpcache, without its lock.
pub record ArpCache : Type 0 where
  pub entries : List ArpEntry
  pub requests : List ArpReq

-- SR_ARPCACHE_SZ, SR_ARPCACHE_TO, SR_ARPREQ_TO and SR_ARPREQ_MAX
abbrev pub arpcache_sz : ℕ
arpcache_sz = 100

abbrev pub arpcache_to : ℕ
arpcache_to = 15

abbrev pub arpreq_to : ℕ
arpreq_to = 1

abbrev pub arpreq_max : ℕ
arpreq_max = 5

-- `memset(cache->entries, 0, ...)`, `requests = NULL`
unfoldable pub sr_arpcache_init : ArpCache
sr_arpcache_init = record {
  entries =
      replicate arpcache_sz (record { mac = replicate 6 0; ip = 0; added = 0; valid = false });
  requests = [];
}

-- `(cache->entries[i].valid) && (cache->entries[i].ip == ip)`
abbrev pub holds : ℕ → ArpEntry → Bool
holds ip e = e.valid && e.ip == ip

-- The loop does not stop at a match: the last one counts.
unfoldable pub lookup_entries : ℕ → Option ArpEntry → List ArpEntry → Option ArpEntry
lookup_entries ip entry [] = entry
lookup_entries ip entry (e ∷ es) = lookup_entries ip (if holds ip e then some e else entry) es

unfoldable pub sr_arpcache_lookup : ArpCache → ℕ → Option ArpEntry
unfolding lookup_entries
sr_arpcache_lookup cache ip = lookup_entries ip none cache.entries

unfoldable pub find_req : ℕ → List ArpReq → Option ArpReq
find_req ip [] = none
find_req ip (r ∷ rs) = if r.ip == ip then some r else find_req ip rs

-- A change of the request for `ip`.
unfoldable pub update_req : ℕ → (ArpReq → ArpReq) → List ArpReq → List ArpReq
update_req ip change [] = []
update_req ip change (r ∷ rs) = if r.ip == ip then change r ∷ rs else r ∷ update_req ip change rs

-- `if (!req) { ... req->next = cache->requests; cache->requests = req; }`
abbrev pub with_req : ℕ → Option ArpReq → List ArpReq → List ArpReq
with_req ip none rs = record { ip = ip; sent = 0; times_sent = 0; packets = [] } ∷ rs
with_req ip (some r) rs = rs

abbrev pub push_packet : Buffer → List ℕ → List ℕ → ArpReq → ArpReq
push_packet packet iface sender r = record r {
  packets =
      record { buf = packet; iface = take iface_namelen iface; sender = take iface_namelen sender }
      ∷ r.packets;
}

-- The callers pass pointers that are not NULL; a packet of length 0 is not queued.
unfoldable pub sr_arpcache_queuereq : ArpCache → ℕ → Buffer → List ℕ → List ℕ → ArpCache
unfolding find_req update_req
sr_arpcache_queuereq cache ip packet iface sender =
    let requests = with_req ip (find_req ip cache.requests) cache.requests in
    record cache {
      requests =
          if length packet == 0
          then requests
          else update_req ip (push_packet packet iface sender) requests;
    }

unfoldable pub remove_req : ℕ → List ArpReq → List ArpReq
remove_req ip [] = []
remove_req ip (r ∷ rs) = if r.ip == ip then rs else r ∷ remove_req ip rs

-- The first entry that is not valid is written; there may be none.
unfoldable pub fill_entry : ArpEntry → List ArpEntry → List ArpEntry
fill_entry new [] = []
fill_entry new (e ∷ es) = if not e.valid then new ∷ es else e ∷ fill_entry new es

-- The request for `ip`, which is taken off the queue, and the cache.
unfoldable pub sr_arpcache_insert : ArpCache → Buffer → ℕ → ℕ → Option ArpReq × ArpCache
unfolding find_req remove_req fill_entry
sr_arpcache_insert cache mac ip now = (
  find_req ip cache.requests,
  record {
    entries =
        fill_entry (record { mac = take 6 mac; ip = ip; added = now; valid = true }) cache.entries;
    requests = remove_req ip cache.requests;
  },
)

-- The request for `ip` leaves the queue, if it is there; what it holds is freed.
unfoldable pub sr_arpreq_destroy : ArpCache → ℕ → ArpCache
unfolding remove_req
sr_arpreq_destroy cache ip = record cache { requests = remove_req ip cache.requests }

-- The first loop of a round of `sr_arpcache_timeout`.
unfoldable pub expire_entries : ℕ → List ArpEntry → List ArpEntry
expire_entries curtime [] = []
expire_entries curtime (e ∷ es) =
    (if e.valid && ltb (e.added + arpcache_to) curtime then record e { valid = false } else e)
    ∷ expire_entries curtime es
