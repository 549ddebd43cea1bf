-- ===== src/Nat/Table.antt =====
-- The mapping table of router/sr_nat.c: initialisation, lookups and insertion.
pub mod Invariant
pub mod Lookup
use cscd58_nat.Base.{
  ℕ, ◌-◌, ◌/◌, ◌%◌, ◌^◌, List, [], ◌∷◌, Option, none, some, Bool, ◌==◌, ◌&&◌, if◌then◌else◌,
  replicate,
}
use cscd58_nat.Nat.Types.{MappingType, Mapping, SrNat, total_ports}
use cscd58_nat.Nat.Bitmap.{find_next_id}

-- `sr_nat_init` sets these fields of the `sr_nat` in the memory that it is given; `unsol_pkt` stays
-- what it was there.
unfoldable pub sr_nat_init : SrNat → ℕ → ℕ → ℕ → SrNat
sr_nat_init nat icmp_query_to tcp_estab_idle_to tcp_transitory_to = record nat {
  mappings = [];
  icmp_query_to = icmp_query_to;
  tcp_estab_idle_to = tcp_estab_idle_to;
  tcp_transitory_to = tcp_transitory_to;
  bitmap = replicate (total_ports / 32) 0;
}

-- `while (curr) { if (...) break; curr = curr->next; }`: the first mapping that passes the test.
unfoldable pub find_mapping : (Mapping → Bool) → List Mapping → Option Mapping
find_mapping test [] = none
find_mapping test (m ∷ ms) = if test m then some m else find_mapping test ms

abbrev pub has_ext : ℕ → Mapping → Bool
has_ext aux_ext m = m.aux_ext == aux_ext

abbrev pub has_int : ℕ → ℕ → Mapping → Bool
has_int ip_int aux_int m = m.ip_int == ip_int && m.aux_int == aux_int

-- The result is a copy of the mapping. The argument `type` is not read.
unfoldable pub sr_nat_lookup_external : SrNat → ℕ → MappingType → Option Mapping
sr_nat_lookup_external nat aux_ext type = find_mapping (has_ext aux_ext) nat.mappings

unfoldable pub sr_nat_lookup_internal : SrNat → ℕ → ℕ → MappingType → Option Mapping
sr_nat_lookup_internal nat ip_int aux_int type = find_mapping (has_int ip_int aux_int) nat.mappings

-- The `int` result of `find_next_id` stored into a uint16_t: -1 becomes 65535.
abbrev pub stored_id : Option ℕ → ℕ
stored_id none = 2 ^ 16 - 1
stored_id (some id) = id % 2 ^ 16

-- The new mapping (a copy), and the table with it in front. `now` is `time(NULL)`.
unfoldable pub sr_nat_insert_mapping : SrNat → ℕ → ℕ → MappingType → ℕ → Mapping × SrNat
sr_nat_insert_mapping nat ip_int aux_int type now =
    let (id, bitmap) = find_next_id nat.bitmap in
    let new_entry : Mapping = record {
      type = type;
      ip_int = ip_int;
      aux_int = aux_int;
      aux_ext = stored_id id;
      last_updated = now;
      conns = [];
    } in
    (new_entry, record nat { mappings = new_entry ∷ nat.mappings; bitmap = bitmap })
