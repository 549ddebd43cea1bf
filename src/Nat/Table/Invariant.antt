-- ===== src/Nat/Table/Invariant.antt =====
-- The external ids of the mappings against the bitmap.
use cscd58_nat.Base.{
  ℕ, ◌+◌, ◌%◌, ◌^◌, ◌/◌, ◌<◌, ◌≤◌, ◌≡◌, refl, List, [], ◌∷◌, Option, none, some, ◌==◌,
  if◌then◌else◌, arith, length, get_or-replicate, test_bit-zero,
}
use cscd58_nat.Nat.Types.{MappingType, Mapping, SrNat, default_id, total_ports}
use cscd58_nat.Nat.Bitmap.{find_next_id}
use cscd58_nat.Nat.Bitmap.Bits.{used, used-le, used-in-range}
use cscd58_nat.Nat.Bitmap.Laws.{words, NextId, find_next_id-NextId}
use cscd58_nat.Nat.Table.{sr_nat_init, sr_nat_insert_mapping, stored_id}

-- How many mappings have the external id `k`.
abbrev pub count_ext : ℕ → List Mapping → ℕ
count_ext k [] = 0
count_ext k (m ∷ ms) = (if m.aux_ext == k then 1 else 0) + count_ext k ms

-- Every id is marked exactly when one mapping has it, and no two mappings share one.
pub record IsValid (nat : SrNat) : Type 0 where
  pub size : length nat.bitmap ≡ words
  pub exact : (k : ℕ) → used nat.bitmap k ≡ count_ext k nat.mappings

-- Some id from DEFAULT_ID on is free.
abbrev pub HasRoom : SrNat → Type 0
HasRoom nat = (k : ℕ) × (default_id ≤ k) × (k < total_ports) × (used nat.bitmap k ≡ 0)

-- The table that `sr_nat_init` sets up is valid, whatever the memory held.
pub sr_nat_init-IsValid :
    (nat : SrNat) (icmp estab transitory : ℕ) → IsValid (sr_nat_init nat icmp estab transitory)
unfolding sr_nat_init used
sr_nat_init-IsValid nat icmp estab transitory = record {
  size = refl;
  exact = λ k. rw (get_or-replicate {A = ℕ} words (k / 32) 0) (test_bit-zero (k % 32));
}

-- What an insertion does, by the result of `find_next_id`.
pub insert_cases :
    (nat : SrNat) (ip aux : ℕ) (type : MappingType) (now : ℕ) (r : Option ℕ) (after : List ℕ)
    → find_next_id nat.bitmap ≡ (r, after)
    → let (m, nat') = sr_nat_insert_mapping nat ip aux type now in
      (m.aux_ext ≡ stored_id r) × (nat'.mappings ≡ m ∷ nat.mappings) × (nat'.bitmap ≡ after)
unfolding sr_nat_insert_mapping
insert_cases nat ip aux type now r after e = rw (e, sr_nat_insert_mapping) (refl, refl, refl)

-- With room, an insertion keeps the table valid, and the new mapping has an id from DEFAULT_ID on
-- that no mapping had.
pub sr_nat_insert_mapping-IsValid :
    (nat : SrNat) (ip aux : ℕ) (type : MappingType) (now : ℕ)
    → IsValid nat
    → HasRoom nat
    → let (m, nat') = sr_nat_insert_mapping nat ip aux type now in
      IsValid nat'
      × (default_id ≤ m.aux_ext)
      × (m.aux_ext < total_ports)
      × (count_ext m.aux_ext nat.mappings ≡ 0)
unfolding sr_nat_insert_mapping
sr_nat_insert_mapping-IsValid nat ip aux type now v (k, lo, hi, free) =
    go (find_next_id nat.bitmap) (find_next_id-NextId nat.bitmap v.size)
  where
    go :
        (r : Option ℕ × List ℕ)
        → NextId nat.bitmap r
        → let m : Mapping = record {
          type = type;
          ip_int = ip;
          aux_int = aux;
          aux_ext = stored_id r.0;
          last_updated = now;
          conns = [];
        } in
          IsValid (record nat { mappings = m ∷ nat.mappings; bitmap = r.1 })
          × (default_id ≤ m.aux_ext)
          × (m.aux_ext < total_ports)
          × (count_ext m.aux_ext nat.mappings ≡ 0)
    go (none, after) n = absurd (omega (arith, n.0 k lo hi))
    go (some id, after) (a, b, c, d, e, f) =
        let i : id % 2 ^ 16 ≡ id = omega arith in
        rw i (
          record { size = omega (arith, v.size); exact = λ j. ground (arith, e j, v.exact j) },
          a,
          b,
          omega (arith, v.exact id),
        )

-- An external id of a valid table is a 16-bit number.
pub aux_ext-lt : (nat : SrNat) (k : ℕ) → IsValid nat → 1 ≤ count_ext k nat.mappings → k < 2 ^ 16
aux_ext-lt nat k v h =
    let marked : used nat.bitmap k ≡ 1 = omega (arith, v.exact k, used-le nat.bitmap k) in
    omega (arith, used-in-range nat.bitmap k marked, v.size)
