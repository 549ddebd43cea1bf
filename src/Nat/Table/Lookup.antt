-- ===== src/Nat/Table/Lookup.antt =====
-- The two lookups on a valid table, against each other and across an insertion.
use cscd58_nat.Base.{
  ℕ, ◌≤◌, ◌<◌, ◌≡◌, ◌^◌, inl, inr, refl, List, [], ◌∷◌, some, Bool, true, arith, Bool-cases,
  ==_refl,
}
use cscd58_nat.Nat.Types.{MappingType, Mapping, SrNat}
use cscd58_nat.Nat.Bitmap.Bits.{used-le}
use cscd58_nat.Nat.Table.{
  find_mapping, has_ext, has_int, sr_nat_insert_mapping, sr_nat_lookup_external,
  sr_nat_lookup_internal,
}
use cscd58_nat.Nat.Table.Invariant.{count_ext, IsValid, HasRoom, aux_ext-lt}

-- What a walk finds passes its test, and is counted among the mappings.
pub find_mapping_passes :
    (test : Mapping → Bool) (ms : List Mapping) (m : Mapping)
    → find_mapping test ms ≡ some m
    → (test m ≡ true) × (1 ≤ count_ext m.aux_ext ms)
unfolding find_mapping
find_mapping_passes test [] m e = absurd (cc e)
find_mapping_passes test (x ∷ xs) m e = elim (Bool-cases (test x)) [
  | inl t ↦ ground (arith, ==_refl m.aux_ext)
  | inr f ↦ ground (arith, find_mapping_passes test xs m (rw f at e))
]

count_ext_le_one : (nat : SrNat) → IsValid nat → (k : ℕ) → count_ext k nat.mappings ≤ 1
count_ext_le_one nat v k = omega (arith, v.exact k, used-le nat.bitmap k)

find_ext-find_mapping :
    (test : Mapping → Bool) (ms : List Mapping) (m : Mapping)
    → ((k : ℕ) → count_ext k ms ≤ 1)
    → find_mapping test ms ≡ some m
    → find_mapping (has_ext m.aux_ext) ms ≡ some m
unfolding find_mapping
find_ext-find_mapping test [] m u e = absurd (cc e)
find_ext-find_mapping test (x ∷ xs) m u e = elim (Bool-cases (test x)) [
  | inl t ↦ ground (arith, ==_refl m.aux_ext)
  | inr f ↦
      let found : find_mapping test xs ≡ some m = rw f at e in
      ground (
        arith,
        u m.aux_ext,
        find_mapping_passes test xs m found,
        find_ext-find_mapping test xs m (λ k. omega (arith, u k)) found,
      )
]

-- In a valid table a mapping found by its internal address and port is the one found by its external
-- id, and it has that address and port.
pub lookup_internal-lookup_external :
    (nat : SrNat) (ip aux : ℕ) (t t' : MappingType) (m : Mapping)
    → IsValid nat
    → sr_nat_lookup_internal nat ip aux t ≡ some m
    → (sr_nat_lookup_external nat m.aux_ext t' ≡ some m) × (m.ip_int ≡ ip) × (m.aux_int ≡ aux)
unfolding sr_nat_lookup_external sr_nat_lookup_internal
lookup_internal-lookup_external nat ip aux t t' m v e = (
  find_ext-find_mapping (has_int ip aux) nat.mappings m (count_ext_le_one nat v) e,
  ground (arith, find_mapping_passes (has_int ip aux) nat.mappings m e),
  ground (arith, find_mapping_passes (has_int ip aux) nat.mappings m e),
)

-- With room both lookups find a new mapping.
pub insert-lookup :
    (nat : SrNat) (ip aux : ℕ) (t : MappingType) (now : ℕ)
    → IsValid nat
    → HasRoom nat
    → let (m, nat') = sr_nat_insert_mapping nat ip aux t now in
      (sr_nat_lookup_internal nat' ip aux t ≡ some m)
      × (sr_nat_lookup_external nat' m.aux_ext t ≡ some m)
unfolding sr_nat_lookup_external sr_nat_lookup_internal sr_nat_insert_mapping find_mapping
insert-lookup nat ip aux t now v room = (ground (arith, ==_refl ip, ==_refl aux), ground arith)

pub insert_fields :
    (nat : SrNat) (ip aux : ℕ) (t : MappingType) (now : ℕ)
    → let m = (sr_nat_insert_mapping nat ip aux t now).0 in (m.ip_int ≡ ip) × (m.aux_int ≡ aux)
unfolding sr_nat_insert_mapping
insert_fields nat ip aux t now = (refl, refl)

-- A mapping that an external id finds in a valid table has that id, a 16-bit number.
pub found_id-lt :
    (nat : SrNat) (k : ℕ) (t : MappingType) (m : Mapping)
    → IsValid nat
    → sr_nat_lookup_external nat k t ≡ some m
    → m.aux_ext < 2 ^ 16
unfolding sr_nat_lookup_external
found_id-lt nat k t m v e =
    aux_ext-lt nat m.aux_ext v (find_mapping_passes (has_ext k) nat.mappings m e).1
