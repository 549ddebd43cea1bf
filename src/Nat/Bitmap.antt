-- ===== src/Nat/Bitmap.antt =====
-- `find_next_id` and `ClearBit` of router/sr_nat.c and sr_nat.h, on the array `bitmap`.
pub mod Bits
pub mod Laws
use cscd58_nat.Base.{
  ℕ, zero, suc, ◌+◌, ◌-◌, ◌*◌, ◌/◌, ◌%◌, ◌^◌, bit_and, bit_or, List, Option, none, some, get_or,
  set, ◌==◌, if◌then◌else◌,
}
use cscd58_nat.Nat.Types.{default_id, total_ports}

-- `num >> 1` on a (32-bit, two's complement) int: the sign bit stays.
abbrev pub shift_right : ℕ → ℕ
shift_right num = num / 2 + num / 2 ^ 31 * 2 ^ 31

-- `for (j = 0; j < 32; j++) { if (!(num & 0x01)) ...; num = num >> 1; }`, with `left` rounds left.
unfoldable pub scan_word : ℕ → ℕ → ℕ → Option ℕ
scan_word zero j num = none
scan_word (suc left) j num =
    let rest = scan_word left (j + 1) (shift_right num) in
    if bit_and num 0x01 == 0 then some j else rest

-- `for (i = DEFAULT_ID/32; i < TOTAL_PORTS/32; i++)`, with `left` rounds left: `i` and the result.
unfoldable pub scan_words : ℕ → ℕ → List ℕ → Option (ℕ × ℕ)
scan_words zero i bitmap = none
scan_words (suc left) i bitmap = elim (scan_word 32 0 (get_or bitmap i 0)) [
  | some j ↦ some (i, i * 32 + j)
  | none ↦ scan_words left (i + 1) bitmap
]

-- The next free id and the bitmap with it marked; `none` is the result -1.
unfoldable pub find_next_id : List ℕ → Option ℕ × List ℕ
find_next_id bitmap =
    elim (scan_words (total_ports / 32 - default_id / 32) (default_id / 32) bitmap) [
      | none ↦ (none, bitmap)
      | some (i, res) ↦ (some res, set bitmap i (bit_or (get_or bitmap i 0) (2 ^ (res % 32))))
    ]

-- `A[(k/32)] &= ~(1 << (k%32))`
unfoldable pub clear_bit : List ℕ → ℕ → List ℕ
clear_bit bitmap k =
    set bitmap (k / 32) (bit_and (get_or bitmap (k / 32) 0) (2 ^ 32 - 1 - 2 ^ (k % 32)))
