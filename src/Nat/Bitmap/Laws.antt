-- ===== src/Nat/Bitmap/Laws.antt =====
-- `find_next_id` and `ClearBit` as operations on the set of marked ids.
use cscd58_nat.Base.{
  ℕ, zero, suc, ◌+◌, ◌-◌, ◌*◌, ◌/◌, ◌%◌, ◌^◌, ◌≤◌, ◌<◌, ◌≡◌, inl, inr, refl, ◌∙◌, ap, bit_and,
  bit_or, List, Option, none, some, get_or, set, ◌==◌, if◌then◌else◌, arith, length, Option-cases,
  length-set, test_bit, test_bit-le, test_bit-bit_or, test_bit-bit_and, test_bit-pow_self,
  test_bit-pow_ne, test_bit-complement, get_or-set_self, get_or-set_ne,
}
use native.Mathlib.Decide.{ℕ_discrete, dec_lt}
use native.Mathlib.Nat.{pow-le-pow_right}
use cscd58_nat.Nat.Types.{default_id, total_ports}
use cscd58_nat.Nat.Bitmap.{scan_word, scan_words, find_next_id, clear_bit}
use cscd58_nat.Nat.Bitmap.Bits.{used, Scanned, scan_word_lem}

-- Ids below `32 * w` past the end of the bitmap are not marked, so this is the size of the array.
abbrev pub words : ℕ
words = total_ports / 32

pow-lt : (k : ℕ) → k < 32 → 2 ^ k < 2 ^ 32
pow-lt k h = omega (arith, pow-le-pow_right {n = 2} (omega arith) {i = k} {j = 31} (omega arith))

get_or-congr : (bitmap : List ℕ) (i j : ℕ) → i ≡ j → get_or bitmap i 0 ≡ get_or bitmap j 0
get_or-congr bitmap i j e = ap (λ (k : ℕ). get_or bitmap k 0) e

-- Marking `k` in its word marks that id and no other.
abbrev mark : List ℕ → ℕ → List ℕ
mark bitmap k = set bitmap (k / 32) (bit_or (get_or bitmap (k / 32) 0) (2 ^ (k % 32)))

-- The bits of a word with one bit set or cleared.
bit_set : (w k j : ℕ) → test_bit (bit_or w (2 ^ k)) j ≡ (if j == k then 1 else test_bit w j)
bit_set w k j = elim (ℕ_discrete k j) [
  | yes e ↦ rw e (ground (arith, test_bit-bit_or w (2 ^ j) j, test_bit-pow_self j, test_bit-le w j))
  | no ne ↦ ground (arith, test_bit-bit_or w (2 ^ k) j, test_bit-pow_ne k j ne)
]

bit_cleared :
    (w k j : ℕ)
    → k < 32
    → j < 32
    → test_bit (bit_and w (2 ^ 32 - 1 - 2 ^ k)) j ≡ (if j == k then 0 else test_bit w j)
bit_cleared w k j hk hj =
    let small : 2 ^ k < 2 ^ 32 = pow-lt k hk in
    elim (ℕ_discrete k j) [
      | yes e ↦ ground (
        arith,
        test_bit-bit_and w (2 ^ 32 - 1 - 2 ^ k) j,
        test_bit-complement 32 (2 ^ k) j small hj,
        ap (λ (i : ℕ). test_bit (2 ^ k) i) e,
        test_bit-pow_self k,
      )
      | no ne ↦ ground (
        arith,
        test_bit-bit_and w (2 ^ 32 - 1 - 2 ^ k) j,
        test_bit-complement 32 (2 ^ k) j small hj,
        test_bit-pow_ne k j ne,
        test_bit-le w j,
      )
    ]

-- A change of the word of `k` that the bits of other ids do not see.
used-set :
    (bitmap : List ℕ) (k v j : ℕ)
    → k / 32 < length bitmap
    → used (set bitmap (k / 32) v) j
      ≡ (if j / 32 == k / 32 then test_bit v (j % 32) else used bitmap j)
unfolding used
used-set bitmap k v j h = elim (ℕ_discrete (k / 32) (j / 32)) [
  | no ne ↦ rw (get_or-set_ne bitmap (k / 32) (j / 32) v 0 ne) (ground arith)
  | yes e ↦ rw (← e, get_or-set_self bitmap (k / 32) v 0 h) (ground arith)
]

used-mark :
    (bitmap : List ℕ) (k j : ℕ)
    → k / 32 < length bitmap
    → used (mark bitmap k) j ≡ (if j == k then 1 else used bitmap j)
unfolding used
used-mark bitmap k j h = ground (
  arith,
  used-set bitmap k (bit_or (get_or bitmap (k / 32) 0) (2 ^ (k % 32))) j h,
  bit_set (get_or bitmap (k / 32) 0) (k % 32) (j % 32),
  get_or-congr bitmap (j / 32) (k / 32),
)

-- Clearing `k` frees that id and no other.
pub used-clear_bit :
    (bitmap : List ℕ) (k j : ℕ)
    → k / 32 < length bitmap
    → used (clear_bit bitmap k) j ≡ (if j == k then 0 else used bitmap j)
unfolding used clear_bit
used-clear_bit bitmap k j h = ground (
  arith,
  used-set bitmap k (bit_and (get_or bitmap (k / 32) 0) (2 ^ 32 - 1 - 2 ^ (k % 32))) j h,
  bit_cleared (get_or bitmap (k / 32) 0) (k % 32) (j % 32) (omega arith) (omega arith),
  get_or-congr bitmap (j / 32) (k / 32),
)

pub length-clear_bit : (bitmap : List ℕ) (k : ℕ) → length (clear_bit bitmap k) ≡ length bitmap
unfolding clear_bit
length-clear_bit bitmap k = length-set bitmap _ _

-- What a search of the ids from `lo` to `hi` has found: the word and id of the first free one, or
-- that there is none.
abbrev Searched : List ℕ → ℕ → ℕ → Option (ℕ × ℕ) → Type 0
Searched bitmap lo hi none = (k : ℕ) → lo ≤ k → k < hi → used bitmap k ≡ 1
Searched bitmap lo hi (some (w, r)) =
    (w ≡ r / 32)
    × (lo ≤ r)
    × (r < hi)
    × (used bitmap r ≡ 0)
    × ((k : ℕ) → lo ≤ k → k < r → used bitmap k ≡ 1)

used-eq :
    (bitmap : List ℕ) (k i b : ℕ)
    → k ≡ i * 32 + b
    → b < 32
    → used bitmap k ≡ test_bit (get_or bitmap i 0) b
unfolding used
used-eq bitmap k i b e h =
    let q : k / 32 ≡ i = omega arith in let r : k % 32 ≡ b = omega arith in rw (q, r)

word_full :
    (bitmap : List ℕ) (i n : ℕ)
    → ((b : ℕ) → 0 ≤ b → b < n → test_bit (get_or bitmap i 0) b ≡ 1)
    → n ≤ 32
    → (k : ℕ) → i * 32 ≤ k
    → k < i * 32 + n
    → used bitmap k ≡ 1
word_full bitmap i n ones top k lo hi =
    used-eq bitmap k i (k - i * 32) (omega arith) (omega arith)
    ∙ ones (k - i * 32) (omega arith) (omega arith)

Searched-next :
    (bitmap : List ℕ) (lo mid hi : ℕ) (r : Option (ℕ × ℕ))
    → lo ≤ mid
    → ((k : ℕ) → lo ≤ k → k < mid → used bitmap k ≡ 1)
    → Searched bitmap mid hi r
    → Searched bitmap lo hi r
Searched-next bitmap lo mid hi none le ones s =
    λ k p q. elim (dec_lt k mid) [ yes below ↦ ones k p below | no above ↦ s k (omega arith) q ]
Searched-next bitmap lo mid hi (some (w, r)) le ones (e, a, b, c, d) = (
  e,
  omega arith,
  b,
  c,
  λ k p q. elim (dec_lt k mid) [ yes below ↦ ones k p below | no above ↦ d k (omega arith) q ],
)

scan_words-Searched :
    (left i hi : ℕ) (bitmap : List ℕ)
    → (i + left) * 32 ≡ hi
    → Searched bitmap (i * 32) hi (scan_words left i bitmap)
unfolding scan_words
scan_words-Searched zero i hi bitmap e = λ k p q. absurd (omega arith)
scan_words-Searched (suc left) i hi bitmap e =
    let ih : Searched bitmap ((i + 1) * 32) hi (scan_words left (i + 1) bitmap) =
      scan_words-Searched left (i + 1) hi bitmap (omega arith) in
    let word = scan_word_lem (get_or bitmap i 0) in
    let found : (j : ℕ)
        → scan_word 32 0 (get_or bitmap i 0) ≡ some j
        → Scanned (get_or bitmap i 0) 0 (some j) =
      λ j q. rw q at word in
    elim (Option-cases (scan_word 32 0 (get_or bitmap i 0))) [
      | inl e' ↦
          rw (e', scan_words)
            (Searched-next bitmap (i * 32) ((i + 1) * 32) hi _ (omega arith)
              (λ k p q. word_full bitmap i 32 (rw e' at word) (omega arith) k p (omega arith)) ih)
      | inr (j, e') ↦
          rw (e', scan_words)
            (
              omega (arith, found j e'),
              omega arith,
              omega (arith, found j e'),
              used-eq bitmap (i * 32 + j) i j refl (found j e').1 ∙ (found j e').2,
              λ k p q. word_full bitmap i j (found j e').3 (omega (arith, found j e')) k p q,
            )
    ]

-- An id and a new bitmap, against the bitmap before: the least free id from DEFAULT_ID on, marked in
-- the new bitmap, where no other id changes; or none and the same bitmap, where all are marked.
abbrev pub NextId : List ℕ → Option ℕ × List ℕ → Type 0
NextId bitmap (none, after) =
    ((k : ℕ) → default_id ≤ k → k < total_ports → used bitmap k ≡ 1) × (after ≡ bitmap)
NextId bitmap (some r, after) =
    (default_id ≤ r)
    × (r < total_ports)
    × (used bitmap r ≡ 0)
    × ((k : ℕ) → default_id ≤ k → k < r → used bitmap k ≡ 1)
    × ((k : ℕ) → used after k ≡ (if k == r then 1 else used bitmap k))
    × (length after ≡ length bitmap)

-- On every bitmap of 2048 words, `find_next_id` returns the least free id from DEFAULT_ID on and marks
-- it and no other; or, where every one of them is marked, -1, and the bitmap stays as it was.
pub find_next_id-NextId :
    (bitmap : List ℕ) → length bitmap ≡ words → NextId bitmap (find_next_id bitmap)
unfolding find_next_id
find_next_id-NextId bitmap full = elim (Option-cases (scan_words 2016 32 bitmap)) [
  | inl e ↦ rw (e, find_next_id) (rw e at (scan_words-Searched 2016 32 65536 bitmap refl), refl)
  | inr ((i, r), e) ↦
      let s : Searched bitmap 1024 65536 (some (i, r)) =
        rw e at (scan_words-Searched 2016 32 65536 bitmap refl) in
      rw (e, find_next_id, s.0)
        (s.1, s.2, s.3, s.4, λ k. used-mark bitmap r k (omega arith), length-set bitmap _ _)
]
