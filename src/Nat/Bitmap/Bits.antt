-- ===== src/Nat/Bitmap/Bits.antt =====
-- The bitmap as a set of ids, and what marking, clearing and scanning one word do to its bits.
use cscd58_nat.Base.{
  ℕ, zero, suc, ◌+◌, ◌/◌, ◌%◌, ◌^◌, ◌≤◌, ◌<◌, ◌≡◌, ◌⊎◌, inl, inr, refl, ◌∙◌, ap, bit_and, List,
  Option, none, some, get_or, ◌==◌, arith, length, test_bit, test_bit-le, test_bit-add_high,
  bit_and-mask, Bool-cases, get_or_above, test_bit-zero,
}
use native.Mathlib.Decide.{dec_lt}
use cscd58_nat.Nat.Bitmap.{shift_right, scan_word}

-- 1 if the id is marked, 0 if not; ids past the bitmap are not marked.
unfoldable pub used : List ℕ → ℕ → ℕ
used bitmap k = test_bit (get_or bitmap (k / 32) 0) (k % 32)

pub used-le : (bitmap : List ℕ) (k : ℕ) → used bitmap k ≤ 1
unfolding used
used-le bitmap k = test_bit-le _ (k % 32)

test_bit-congr : (w i j : ℕ) → i ≡ j → test_bit w i ≡ test_bit w j
test_bit-congr w i j e = ap (test_bit w) e

eq_or_lt : (j i : ℕ) → j ≤ i → (j ≡ i) ⊎ (j + 1 ≤ i)
eq_or_lt j i h = grind arith

test_bit-shift_right : (w i : ℕ) → i < 31 → test_bit (shift_right w) i ≡ test_bit w (suc i)
test_bit-shift_right w i h = test_bit-add_high 31 (w / 2) (w / 2 ^ 31) i h

-- `num` holds the bits of `word` from `j` on, as far as the loop reads.
abbrev Holds : ℕ → ℕ → ℕ → Type 0
Holds word j num = (i : ℕ) → i + j < 32 → test_bit num i ≡ test_bit word (i + j)

Holds-next : (word j num : ℕ) → Holds word j num → Holds word (j + 1) (shift_right num)
Holds-next word j num h i lt =
    test_bit-shift_right num i (omega arith)
    ∙ h (suc i) (omega arith)
    ∙ test_bit-congr word (suc i + j) (i + (j + 1)) (omega arith)

bit_and_one : (num : ℕ) → bit_and num 0x01 ≡ test_bit num 0
bit_and_one num = bit_and-mask 1 num

-- What a scan from `j` on has found: the first clear bit, or that there is none.
abbrev pub Scanned : ℕ → ℕ → Option ℕ → Type 0
Scanned word j (some r) =
    (j ≤ r) × (r < 32) × (test_bit word r ≡ 0) × ((i : ℕ) → j ≤ i → i < r → test_bit word i ≡ 1)
Scanned word j none = (i : ℕ) → j ≤ i → i < 32 → test_bit word i ≡ 1

Scanned-lower :
    (word j : ℕ) (r : Option ℕ) → test_bit word j ≡ 1 → Scanned word (j + 1) r → Scanned word j r
Scanned-lower word j none b h =
    λ i lo hi. elim (eq_or_lt j i lo) [ inl e ↦ rw (← e) b | inr l ↦ h i l hi ]
Scanned-lower word j (some r) b (le, top, clear, ones) = (
  omega arith,
  top,
  clear,
  λ i lo hi. elim (eq_or_lt j i lo) [ inl e ↦ rw (← e) b | inr l ↦ ones i l hi ],
)

scan_word-Scanned :
    (left j num word : ℕ) → left + j ≡ 32 → Holds word j num → Scanned word j (scan_word left j num)
unfolding scan_word
scan_word-Scanned zero j num word e h = λ i lo hi. absurd (omega arith)
scan_word-Scanned (suc left) j num word e h =
    let bit : bit_and num 0x01 ≡ test_bit word j =
      bit_and_one num ∙ h 0 (omega arith) ∙ test_bit-congr word (0 + j) j (omega arith) in
    let ih : Scanned word (j + 1) (scan_word left (j + 1) (shift_right num)) =
      scan_word-Scanned left (j + 1) (shift_right num) word (omega arith)
        (Holds-next word j num h) in
    elim (Bool-cases (bit_and num 0x01 == 0)) [
      | inl t ↦ rw t (omega arith, omega arith, ground arith, λ i lo hi. absurd (omega arith))
      | inr f ↦ rw f (Scanned-lower word j _ (ground (arith, test_bit-le word j)) ih)
    ]

-- The scan of a whole word.
pub scan_word_lem : (word : ℕ) → Scanned word 0 (scan_word 32 0 word)
scan_word_lem word =
    scan_word-Scanned 32 0 word word refl (λ i lt. test_bit-congr word i (i + 0) (omega arith))

-- A marked id lies in the array.
pub used-in-range : (bitmap : List ℕ) (k : ℕ) → used bitmap k ≡ 1 → k / 32 < length bitmap
unfolding used
used-in-range bitmap k e = elim (dec_lt (k / 32) (length bitmap)) [
  | yes h ↦ h
  | no h ↦ absurd (
      omega (
        arith,
        ap (λ (w : ℕ). test_bit w (k % 32)) (get_or_above bitmap (k / 32) 0 (omega arith)),
        test_bit-zero (k % 32),
      ))
]
