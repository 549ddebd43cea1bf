-- ===== src/Nat/Timeout/Sweep.antt =====
-- The mappings and the bitmap across a timeout round.
use cscd58_nat.Base.{
  ℕ, ◌+◌, ◌≡◌, inl, inr, refl, ◌∙◌, List, [], ◌∷◌, some, ◌==◌, if◌then◌else◌, arith, length,
  Option-cases, Bool-cases,
}
use cscd58_nat.Nat.Types.{MappingType, Mapping, SrNat}
use cscd58_nat.Nat.Bitmap.{clear_bit}
use cscd58_nat.Nat.Table.{find_mapping, has_ext, sr_nat_lookup_external}
use cscd58_nat.Nat.Bitmap.Bits.{used, used-le, used-in-range}
use cscd58_nat.Nat.Bitmap.Laws.{used-clear_bit, length-clear_bit}
use cscd58_nat.Nat.Table.Invariant.{count_ext, IsValid}
use cscd58_nat.Nat.Timeout.{sweep_mapping, sweep_mappings, timeout_mappings}

-- The id of a mapping that is kept stays the same.
pub aux_ext-sweep_mapping :
    (nat : SrNat) (now : ℕ) (m m' : Mapping)
    → sweep_mapping nat now m ≡ some m'
    → m'.aux_ext ≡ m.aux_ext
unfolding sweep_mapping
aux_ext-sweep_mapping nat now m m' e = ground arith

-- `extra` counts the ids of the mappings that the walk has passed.
sweep_mappings-exact :
    (nat : SrNat) (now : ℕ) (ms : List Mapping) (bitmap : List ℕ) (extra : ℕ → ℕ)
    → ((k : ℕ) → used bitmap k ≡ extra k + count_ext k ms)
    → let (rest, after) = sweep_mappings nat now ms bitmap in
      ((k : ℕ) → used after k ≡ extra k + count_ext k rest) × (length after ≡ length bitmap)
unfolding sweep_mappings
sweep_mappings-exact nat now [] bitmap extra h = (h, refl)
sweep_mappings-exact nat now (m ∷ ms) bitmap extra h =
    elim (Option-cases (sweep_mapping nat now m)) [
      | inl e ↦
          let ih = sweep_mappings-exact nat now ms (clear_bit bitmap m.aux_ext) extra (λ k. ground (
            arith,
            h k,
            h m.aux_ext,
            used-le bitmap m.aux_ext,
            used-clear_bit bitmap m.aux_ext k,
            used-in-range bitmap m.aux_ext,
          )) in
          rw (e, sweep_mappings) (ih.0, ih.1 ∙ length-clear_bit bitmap m.aux_ext)
      | inr (m', e) ↦
          let same = aux_ext-sweep_mapping nat now m m' e in
          let ih =
            sweep_mappings-exact nat now ms bitmap
              (λ k. extra k + (if m.aux_ext == k then 1 else 0)) (λ k. omega (arith, h k)) in
          rw (e, sweep_mappings) (λ k. ground (arith, ih.0 k), ih.1)
    ]

-- A timeout round keeps the table valid: the ids of the mappings that it frees are unmarked, and
-- no other.
pub timeout_mappings-IsValid :
    (nat : SrNat) (now : ℕ) → IsValid nat → IsValid (timeout_mappings nat now)
unfolding timeout_mappings
timeout_mappings-IsValid nat now v =
    let s =
      sweep_mappings-exact nat now nat.mappings nat.bitmap (λ k. 0)
        (λ k. omega (arith, v.exact k)) in
    record { size = s.1 ∙ v.size; exact = λ k. omega (arith, s.0 k) }

find_mapping-sweep_mappings :
    (nat : SrNat) (now k : ℕ) (ms : List Mapping) (bitmap : List ℕ) (m m' : Mapping)
    → find_mapping (has_ext k) ms ≡ some m
    → sweep_mapping nat now m ≡ some m'
    → find_mapping (has_ext k) (sweep_mappings nat now ms bitmap).0 ≡ some m'
unfolding sweep_mappings find_mapping
find_mapping-sweep_mappings nat now k [] bitmap m m' e s = absurd (cc e)
find_mapping-sweep_mappings nat now k (x ∷ ms) bitmap m m' e s = elim (Bool-cases (has_ext k x)) [
  | inl t ↦
      let same : x ≡ m = ground arith in
      let kept : sweep_mapping nat now x ≡ some m' = rw same s in
      rw (kept, sweep_mappings) (ground (arith, aux_ext-sweep_mapping nat now x m' kept))
  | inr f ↦ elim (Option-cases (sweep_mapping nat now x)) [
    | inl n ↦
        rw (n, sweep_mappings)
          (find_mapping-sweep_mappings nat now k ms (clear_bit bitmap x.aux_ext) m m' (rw f at e) s)
    | inr (y, n) ↦
        let rest = find_mapping-sweep_mappings nat now k ms bitmap m m' (rw f at e) s in
        rw (n, sweep_mappings) (ground (arith, aux_ext-sweep_mapping nat now x y n, rest))
  ]
]

-- What an external id finds before a timeout round it finds afterwards, with the connections that
-- the round keeps, unless the round frees it.
pub timeout-lookup_external :
    (nat : SrNat) (now k : ℕ) (t : MappingType) (m m' : Mapping)
    → sr_nat_lookup_external nat k t ≡ some m
    → sweep_mapping nat now m ≡ some m'
    → sr_nat_lookup_external (timeout_mappings nat now) k t ≡ some m'
unfolding timeout_mappings sr_nat_lookup_external
timeout-lookup_external nat now k t m m' e s =
    find_mapping-sweep_mappings nat now k nat.mappings nat.bitmap m m' e s
