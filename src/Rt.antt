-- ===== src/Rt.antt =====
-- router/sr_rt.c: the routing table.
pub mod Lpm
pub mod Load
use cscd58_nat.Base.{
  ℕ, List, [], ◌∷◌, Option, none, some, Bool, true, false, ◌==◌, ltb, ◌&&◌, if◌then◌else◌, take,
  bit_and, ntohl,
}
use cscd58_nat.Proto.{iface_namelen}

-- struct sr_rt; the addresses are in network byte order.
pub record RtEntry : Type 0 where
  pub dest : ℕ
  pub gw : ℕ
  pub mask : ℕ
  pub interface : List ℕ

-- The new entry goes to the end of the table.
unfoldable pub sr_add_rt_entry : List RtEntry → ℕ → ℕ → ℕ → List ℕ → List RtEntry
sr_add_rt_entry [] dest gw mask if_name =
    record { dest = dest; gw = gw; mask = mask; interface = take iface_namelen if_name } ∷ []
sr_add_rt_entry (r ∷ rs) dest gw mask if_name = r ∷ sr_add_rt_entry rs dest gw mask if_name

-- `ip_prefix == rt_prefix`
abbrev pub prefix_matches : ℕ → RtEntry → Bool
prefix_matches ip curr = bit_and ip curr.mask == bit_and curr.dest curr.mask

-- The loop, with `lpm` and `longest_mask` as they stand.
unfoldable pub lookup_loop : ℕ → Option RtEntry → ℕ → List RtEntry → Option RtEntry
lookup_loop ip lpm longest_mask [] = lpm
lookup_loop ip lpm longest_mask (curr ∷ rest) =
    elim (prefix_matches ip curr && ltb longest_mask (ntohl curr.mask)) [
      | true ↦ lookup_loop ip (some curr) (ntohl curr.mask) rest
      | false ↦ lookup_loop ip lpm longest_mask rest
    ]

-- The outer `none` is the failed assertion on an empty table, the inner one the NULL result.
unfoldable pub sr_rt_lookup : List RtEntry → ℕ → Option (Option RtEntry)
sr_rt_lookup [] ip = none
sr_rt_lookup (r ∷ rs) ip = some (lookup_loop ip none 0 (r ∷ rs))
