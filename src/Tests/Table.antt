-- ===== src/Tests/Table.antt =====
-- The mapping table.
use cscd58_nat.Base.{ℕ, List, [], ◌∷◌, none, ◌≢◌, ◌<◌, ◌≤◌, ◌≡◌, ◌⊎◌, refl, some, arith}
use cscd58_nat.Nat.Types.{
  tcp, TcpState, SrNat, Mapping, Connection, icmp, estab, closed, default_id, total_ports,
}
use cscd58_nat.Nat.Bitmap.{find_next_id, scan_word, scan_words}
use cscd58_nat.Nat.Bitmap.Bits.{used}
use cscd58_nat.Nat.Bitmap.Laws.{NextId, find_next_id-NextId}
use cscd58_nat.Nat.Table.{
  sr_nat_init, sr_nat_insert_mapping, sr_nat_lookup_external, sr_nat_lookup_internal, find_mapping,
}
use cscd58_nat.Nat.Table.Invariant.{
  IsValid, HasRoom, count_ext, sr_nat_init-IsValid, sr_nat_insert_mapping-IsValid,
}
use cscd58_nat.Nat.Table.Lookup.{lookup_internal-lookup_external}
use cscd58_nat.Nat.Timeout.{sweep_mapping, timeout_mappings}
use cscd58_nat.Nat.Timeout.Sweep.{timeout_mappings-IsValid, timeout-lookup_external}
use cscd58_nat.Nat.Timeout.Conns.{Purges, timeout_mappings-Purges}
use cscd58_nat.Nat.Timeout.Idle.{IsLive, timeout_mappings-IsLive}
use cscd58_nat.Tests.Data.{memory, empty_nat, one_nat, inside}

pub empty-IsValid : IsValid empty_nat
empty-IsValid = sr_nat_init-IsValid memory 60 7440 300

pub empty-HasRoom : HasRoom empty_nat
unfolding used sr_nat_init
empty-HasRoom = (1024, omega arith, omega arith, refl)

pub one-IsValid : IsValid one_nat
one-IsValid =
    (sr_nat_insert_mapping-IsValid empty_nat inside 7 icmp 0 empty-IsValid empty-HasRoom).0

pub one-HasRoom : HasRoom one_nat
unfolding used sr_nat_init sr_nat_insert_mapping find_next_id scan_words scan_word
one-HasRoom = (1025, omega arith, omega arith, refl)

abbrev first : Mapping
first = (sr_nat_insert_mapping empty_nat inside 7 icmp 0).0

by_inside : sr_nat_lookup_internal one_nat inside 7 icmp ≡ some first
unfolding sr_nat_lookup_internal find_mapping sr_nat_insert_mapping sr_nat_init
by_inside = refl

by_id : sr_nat_lookup_external one_nat first.aux_ext icmp ≡ some first
by_id = (lookup_internal-lookup_external one_nat inside 7 icmp icmp first one-IsValid by_inside).0

sr_nat_insert_mapping-IsValid_example :
    let (m, nat') = sr_nat_insert_mapping one_nat inside 9 icmp 5 in
    IsValid nat'
    × (default_id ≤ m.aux_ext)
    × (m.aux_ext < total_ports)
    × (count_ext m.aux_ext one_nat.mappings ≡ 0)
sr_nat_insert_mapping-IsValid_example =
    sr_nat_insert_mapping-IsValid one_nat inside 9 icmp 5 one-IsValid one-HasRoom

timeout_mappings-IsValid_example : IsValid (timeout_mappings one_nat 100)
timeout_mappings-IsValid_example = timeout_mappings-IsValid one_nat 100 one-IsValid

find_next_id-NextId_example : NextId one_nat.bitmap (find_next_id one_nat.bitmap)
find_next_id-NextId_example = find_next_id-NextId one_nat.bitmap one-IsValid.size

kept_at_30 : sweep_mapping one_nat 30 first ≡ some first
unfolding sweep_mapping sr_nat_insert_mapping sr_nat_init
kept_at_30 = refl

-- A TCP mapping with three connections: one that is closed, one that is idle and one that is neither.
abbrev tcp_mapping : Mapping
tcp_mapping = (sr_nat_insert_mapping empty_nat inside 7 tcp 0).0

abbrev conn : TcpState → ℕ → Connection
conn state last_updated = record {
  state = state;
  peer_ip = 8;
  peer_port = 80;
  last_updated = last_updated;
}

abbrev busy : Mapping
busy = record tcp_mapping { conns = conn closed 390 ∷ conn estab 10 ∷ conn estab 350 ∷ [] }

abbrev tcp_nat : SrNat
tcp_nat = record ((sr_nat_insert_mapping empty_nat inside 7 tcp 0).1) { mappings = busy ∷ [] }

tcp_nat-IsValid : IsValid tcp_nat
unfolding sr_nat_insert_mapping sr_nat_init
tcp_nat-IsValid =
    let old =
      (sr_nat_insert_mapping-IsValid empty_nat inside 7 tcp 0 empty-IsValid empty-HasRoom).0 in
    record { size = old.size; exact = old.exact }

tcp_typed : busy.type ≡ tcp
unfolding sr_nat_insert_mapping
tcp_typed = refl

busy_found : sr_nat_lookup_external tcp_nat busy.aux_ext tcp ≡ some busy
unfolding sr_nat_lookup_external find_mapping sr_nat_insert_mapping sr_nat_init find_next_id
    scan_words scan_word
busy_found = refl

timeout_mappings-Purges_example :
    (left : List Connection) × Purges tcp_nat 400 busy.conns left
    × (((left ≡ [])
          × (sr_nat_lookup_external (timeout_mappings tcp_nat 400) busy.aux_ext tcp ≡ none))
        ⊎ ((left ≢ [])
            × (sr_nat_lookup_external (timeout_mappings tcp_nat 400) busy.aux_ext tcp
                ≡ some (record busy { conns = left }))))
timeout_mappings-Purges_example =
    timeout_mappings-Purges tcp_nat 400 busy.aux_ext busy tcp_nat-IsValid busy_found tcp_typed

timeout_mappings-IsLive_example : IsLive one_nat 30 first.type first
timeout_mappings-IsLive_example =
    timeout_mappings-IsLive one_nat 30 first.aux_ext first one-IsValid
      (timeout-lookup_external one_nat 30 first.aux_ext icmp first first by_id kept_at_30)
