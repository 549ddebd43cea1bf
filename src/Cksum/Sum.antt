-- ===== src/Cksum/Sum.antt =====
-- What `cksum` computes: the one's complement sum of RFC 1071, against the plain sum of the words.
use cscd58_nat.Base.{
  ℕ, zero, suc, drop, get_or, load16, load32, ◌+◌, ◌-◌, ◌*◌, ◌/◌, ◌%◌, ◌^◌, ◌≤◌, ◌<◌, ◌≡◌, bit_and,
  bit_or, List, [], ◌∷◌, length, ntohs, ntohs-lt, bit_or_fields, bit_and-mask, arith, ◌⊎◌,
}
use cscd58_nat.Cksum.{sum_words, fold_carry, fold_fuel, cksum}

abbrev pub AllBytes : List ℕ → Type 0
AllBytes [] = Unit {0}
AllBytes (x ∷ xs) = (x < 256) × AllBytes xs

-- The big-endian 16-bit words of the bytes, an odd last byte padded by zero, added up.
unfoldable pub word_sum : List ℕ → ℕ
word_sum [] = 0
word_sum (a ∷ []) = a * 256
word_sum (a ∷ b ∷ rest) = a * 256 + b + word_sum rest

word_sum-le : (bytes : List ℕ) → AllBytes bytes → word_sum bytes ≤ 65535 * length bytes
unfolding word_sum
word_sum-le [] h = omega arith
word_sum-le (a ∷ []) h = omega arith
word_sum-le (a ∷ b ∷ rest) h = omega (arith, word_sum-le rest h.1.1)

sum_words-eq :
    (sum : ℕ) (bytes : List ℕ)
    → AllBytes bytes
    → sum + word_sum bytes < 2 ^ 32
    → sum_words sum bytes ≡ sum + word_sum bytes
unfolding sum_words word_sum
sum_words-eq sum [] h small = omega arith
sum_words-eq sum (a ∷ []) h small = omega arith
sum_words-eq sum (a ∷ b ∷ rest) h small =
    let e : bit_or (a * 2 ^ 8) b ≡ a * 2 ^ 8 + b = bit_or_fields 8 a b h.1.0 in
    let t : (sum + bit_or (a * 2 ^ 8) b) % 2 ^ 32 ≡ sum + a * 256 + b = omega arith in
    rw t (omega (arith, sum_words-eq (sum + a * 256 + b) rest h.1.1 (omega arith)))

fold_carry-suc :
    (fuel sum : ℕ)
    → sum < 2 ^ 32
    → ((sum ≤ 0xffff) × (fold_carry (suc fuel) sum ≡ sum))
      ⊎ ((0xffff < sum)
          × (fold_carry (suc fuel) sum ≡ fold_carry fuel (sum / 2 ^ 16 + sum % 2 ^ 16)))
unfolding fold_carry
fold_carry-suc fuel sum h =
    let e : (sum / 2 ^ 16 + bit_and sum 0xffff) % 2 ^ 32 ≡ sum / 2 ^ 16 + sum % 2 ^ 16 =
      omega (arith, bit_and-mask 16 sum) in
    rw e (ground arith)

-- The loop ends by its test within the fuel, and keeps the value modulo 65535.
pub fold_carry_lem :
    (sum : ℕ)
    → sum < 2 ^ 32
    → (fold_carry fold_fuel sum ≤ 0xffff) × (fold_carry fold_fuel sum % 65535 ≡ sum % 65535)
fold_carry_lem sum h =
    let once : ℕ = sum / 2 ^ 16 + sum % 2 ^ 16 in
    let twice : ℕ = once / 2 ^ 16 + once % 2 ^ 16 in
    ground (
      arith,
      fold_carry-suc 2 sum h,
      fold_carry-suc 1 once (omega arith),
      fold_carry-suc 0 twice (omega arith),
    )

-- The checksum of up to 65537 bytes, read in network byte order, makes up the sum of their words to
-- a multiple of 65535, and it is a 16-bit number other than 0.
pub cksum_complements :
    (bytes : List ℕ)
    → AllBytes bytes
    → length bytes ≤ 65537
    → ((word_sum bytes + ntohs (cksum bytes)) % 65535 ≡ 0)
      × (0 < cksum bytes)
      × (cksum bytes < 2 ^ 16)
unfolding cksum ntohs
cksum_complements bytes h short =
    let small : word_sum bytes < 2 ^ 32 = omega (arith, word_sum-le bytes h) in
    let e : sum_words 0 bytes ≡ word_sum bytes =
      omega (arith, sum_words-eq 0 bytes h (omega arith)) in
    rw e (ground (arith, fold_carry_lem (word_sum bytes) small))

pub cksum-lt : (bytes : List ℕ) → cksum bytes < 2 ^ 16
unfolding cksum
cksum-lt bytes = ground (arith, ntohs-lt (2 ^ 32 - 1 - fold_carry fold_fuel (sum_words 0 bytes)))

pub get_or-AllBytes : (bytes : List ℕ) (i : ℕ) → AllBytes bytes → get_or bytes i 0 < 256
get_or-AllBytes [] i h = omega arith
get_or-AllBytes (x ∷ xs) zero h = h.0
get_or-AllBytes (x ∷ xs) (suc i) h = get_or-AllBytes xs i h.1

pub AllBytes-drop : (n : ℕ) (p : List ℕ) → AllBytes p → AllBytes (drop n p)
AllBytes-drop zero p h = h
AllBytes-drop (suc n) [] h = h
AllBytes-drop (suc n) (x ∷ p) h = AllBytes-drop n p h.1

pub load16-AllBytes : (p : List ℕ) (o : ℕ) → AllBytes p → load16 p o < 2 ^ 16
unfolding load16
load16-AllBytes p o h = omega (arith, get_or-AllBytes p o h, get_or-AllBytes p (o + 1) h)

pub load32-AllBytes : (p : List ℕ) (o : ℕ) → AllBytes p → load32 p o < 2 ^ 32
unfolding load32
load32-AllBytes p o h = omega (arith, load16-AllBytes p o h, load16-AllBytes p (o + 2) h)
