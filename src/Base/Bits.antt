-- ===== src/Base/Bits.antt =====
-- Facts about `bit_and` and `bit_or` at variables, read digit by digit.
use Prim.Native.Nat.{
  ℕ, zero, suc, ◌+◌, ◌-◌, ◌*◌, ◌/◌, ◌%◌, ◌^◌, ◌≤◌, ◌<◌, min, max, bit_and, bit_or, digits, bitwise,
  bit_and-bitwise, bit_or-bitwise,
}
use native.Mathlib.Nat.{le_refl, pow-suc, one-le-pow}
use mathlib.Core.Path.{◌≡◌, refl, ap}
use mathlib.Core.Logic.{◌≢◌}
use native.Mathlib.Omega.{arith}
use native.Mathlib.Decide.{ℕ_discrete}

-- `digits` runs on fuel: beyond its first number more of it makes no difference, so one step of
-- the recursion is a step on the halves.
more_fuel :
    (rest : ℕ → ℕ) (op : ℕ → ℕ → ℕ) (x small large y : ℕ)
    → x ≤ small
    → small ≤ large
    → digits rest op large x y ≡ digits rest op small x y
more_fuel rest op zero zero zero y enough less = refl
more_fuel rest op zero zero (suc large) y enough less = refl
more_fuel rest op zero (suc small) (suc large) y enough less = refl
more_fuel rest op (suc x) (suc small) (suc large) y enough less =
    ap (λ d. d * 2 + op (suc x % 2) (y % 2))
      (more_fuel rest op (suc x / 2) small large (y / 2) (omega arith) (omega arith))
more_fuel rest op (suc x) zero large y enough less = absurd (omega arith)
more_fuel rest op x (suc small) zero y enough less = absurd (omega arith)

halves :
    (rest : ℕ → ℕ) (op : ℕ → ℕ → ℕ) (x y : ℕ)
    → 0 < x
    → bitwise rest op x y ≡ bitwise rest op (x / 2) (y / 2) * 2 + op (x % 2) (y % 2)
halves rest op zero y positive = absurd (omega arith)
halves rest op (suc x) y positive =
    ap (λ d. d * 2 + op (suc x % 2) (y % 2))
      (more_fuel rest op (suc x / 2) (suc x / 2) x (y / 2) (le_refl _) (omega arith))

-- One binary digit of a disjunction and of a conjunction.
pub bit_or_step : (x y : ℕ) → bit_or x y ≡ bit_or (x / 2) (y / 2) * 2 + max (x % 2) (y % 2)
bit_or_step x y = elim (ℕ_discrete x 0) [
  | yes none_left ↦ rw none_left (simp bit_or-bitwise (omega arith))
  | no positive ↦ simp bit_or-bitwise (halves (λ k. k) max x y (omega arith))
]

pub bit_and_step : (x y : ℕ) → bit_and x y ≡ bit_and (x / 2) (y / 2) * 2 + min (x % 2) (y % 2)
bit_and_step x y = elim (ℕ_discrete x 0) [
  | yes none_left ↦ rw none_left (simp bit_and-bitwise (omega arith))
  | no positive ↦ simp bit_and-bitwise (halves (λ k. 0) min x y (omega arith))
]

-- The bit of weight 2 ^ i.
abbrev pub test_bit : ℕ → ℕ → ℕ
test_bit w zero = w % 2
test_bit w (suc i) = test_bit (w / 2) i

pub test_bit-le : (w i : ℕ) → test_bit w i ≤ 1
test_bit-le w zero = omega arith
test_bit-le w (suc i) = test_bit-le (w / 2) i

pub test_bit-zero : (i : ℕ) → test_bit 0 i ≡ 0
test_bit-zero zero = refl
test_bit-zero (suc i) = test_bit-zero i

pub test_bit-bit_or : (a b i : ℕ) → test_bit (bit_or a b) i ≡ max (test_bit a i) (test_bit b i)
test_bit-bit_or a b zero = omega (arith, bit_or_step a b)
test_bit-bit_or a b (suc i) =
    let e : bit_or a b / 2 ≡ bit_or (a / 2) (b / 2) = omega (arith, bit_or_step a b) in
    rw e (test_bit-bit_or (a / 2) (b / 2) i)

pub test_bit-bit_and : (a b i : ℕ) → test_bit (bit_and a b) i ≡ min (test_bit a i) (test_bit b i)
test_bit-bit_and a b zero = omega (arith, bit_and_step a b)
test_bit-bit_and a b (suc i) =
    let e : bit_and a b / 2 ≡ bit_and (a / 2) (b / 2) = omega (arith, bit_and_step a b) in
    rw e (test_bit-bit_and (a / 2) (b / 2) i)

pub test_bit-pow_self : (i : ℕ) → test_bit (2 ^ i) i ≡ 1
test_bit-pow_self zero = refl
test_bit-pow_self (suc i) =
    let e : 2 ^ suc i / 2 ≡ 2 ^ i = omega (arith, pow-suc 2 i) in rw e (test_bit-pow_self i)

pub test_bit-pow_ne : (j i : ℕ) → j ≢ i → test_bit (2 ^ j) i ≡ 0
test_bit-pow_ne zero zero h = absurd (h refl)
test_bit-pow_ne zero (suc i) h = test_bit-zero i
test_bit-pow_ne (suc j) zero h = omega (arith, pow-suc 2 j)
test_bit-pow_ne (suc j) (suc i) h =
    let e : 2 ^ suc j / 2 ≡ 2 ^ j = omega (arith, pow-suc 2 j) in
    rw e (test_bit-pow_ne j i (λ p. h (ap suc p)))

-- The complement of a word of `n` bits.
pub test_bit-complement :
    (n x i : ℕ) → x < 2 ^ n → i < n → test_bit (2 ^ n - 1 - x) i + test_bit x i ≡ 1
test_bit-complement zero x i hx hi = absurd (omega arith)
test_bit-complement (suc n) x zero hx hi = omega (arith, pow-suc 2 n)
test_bit-complement (suc n) x (suc i) hx hi =
    let e : (2 ^ suc n - 1 - x) / 2 ≡ 2 ^ n - 1 - x / 2 = omega (arith, pow-suc 2 n) in
    rw e (test_bit-complement n (x / 2) i (omega (arith, pow-suc 2 n)) (omega arith))

-- Bits above the addend's are not seen below it.
pub test_bit-add_high : (k x b i : ℕ) → i < k → test_bit (x + b * 2 ^ k) i ≡ test_bit x i
test_bit-add_high zero x b i h = absurd (omega arith)
test_bit-add_high (suc k) x b zero h = omega (arith, ap (λ (t : ℕ). b * t) (pow-suc 2 k))
test_bit-add_high (suc k) x b (suc i) h =
    let e : (x + b * 2 ^ suc k) / 2 ≡ x / 2 + b * 2 ^ k =
      omega (arith, ap (λ (t : ℕ). b * t) (pow-suc 2 k)) in
    rw e (test_bit-add_high k (x / 2) b i (omega arith))

pub bit_and-zero : (i a : ℕ) → a ≤ i → bit_and a 0 ≡ 0
bit_and-zero i zero h = refl
bit_and-zero zero (suc a) h = absurd (omega arith)
bit_and-zero (suc i) (suc a) h =
    omega (arith, bit_and_step (suc a) 0, bit_and-zero i (suc a / 2) (omega arith))

bit_or-zero : (i a : ℕ) → a ≤ i → bit_or a 0 ≡ a
bit_or-zero i zero h = refl
bit_or-zero zero (suc a) h = absurd (omega arith)
bit_or-zero (suc i) (suc a) h =
    omega (arith, bit_or_step (suc a) 0, bit_or-zero i (suc a / 2) (omega arith))

bit_and_fields : (k q r : ℕ) → r < 2 ^ k → bit_and (q * 2 ^ k + r) (2 ^ k - 1) ≡ r
bit_and_fields zero q r fits = omega (arith, bit_and-zero (q * 1 + r) (q * 1 + r) (le_refl _))
bit_and_fields (suc k) q r fits = ground (
  arith,
  bit_and_step (q * 2 ^ suc k + r) (2 ^ suc k - 1),
  ap (λ (t : ℕ). q * t) (pow-suc 2 k),
  pow-suc 2 k,
  one-le-pow k 2,
  bit_and_fields k q (r / 2),
)

-- A mask of `k` low bits is the remainder by `2 ^ k`.
pub bit_and-mask : (k a : ℕ) → bit_and a (2 ^ k - 1) ≡ a % 2 ^ k
bit_and-mask k a = ground (arith, one-le-pow k 2, bit_and_fields k (a / 2 ^ k) (a % 2 ^ k))

-- A mask shifted up reads the bits above.
bit_and-shift :
    (k q r m : ℕ) → r < 2 ^ k → bit_and (q * 2 ^ k + r) (m * 2 ^ k) ≡ bit_and q m * 2 ^ k
bit_and-shift zero q r m h = ground arith
bit_and-shift (suc k) q r m h = ground (
  arith,
  bit_and_step (q * 2 ^ suc k + r) (m * 2 ^ suc k),
  ap (λ (t : ℕ). q * t) (pow-suc 2 k),
  ap (λ (t : ℕ). m * t) (pow-suc 2 k),
  ap (λ (t : ℕ). bit_and q m * t) (pow-suc 2 k),
  pow-suc 2 k,
  bit_and-shift k q (r / 2) m,
)

-- A mask of `n` ones shifted up by `k` reads a field.
pub bit_and-field : (n k a : ℕ) → bit_and a ((2 ^ n - 1) * 2 ^ k) ≡ a / 2 ^ k % 2 ^ n * 2 ^ k
bit_and-field n k a = ground (
  arith,
  one-le-pow k 2,
  bit_and-shift k (a / 2 ^ k) (a % 2 ^ k) (2 ^ n - 1),
  bit_and-mask n (a / 2 ^ k),
)

-- `(q << k) | r` is a sum when `r` fits `k` bits.
pub bit_or_fields : (k q r : ℕ) → r < 2 ^ k → bit_or (q * 2 ^ k) r ≡ q * 2 ^ k + r
bit_or_fields zero q r fits = ground (arith, bit_or-zero q q (le_refl q))
bit_or_fields (suc k) q r fits = ground (
  arith,
  bit_or_step (q * 2 ^ suc k) r,
  ap (λ (t : ℕ). q * t) (pow-suc 2 k),
  pow-suc 2 k,
  bit_or_fields k q (r / 2) (omega (arith, pow-suc 2 k)),
)
