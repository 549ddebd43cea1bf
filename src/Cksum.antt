-- ===== src/Cksum.antt =====
-- `cksum` of router/sr_utils.c: the Internet checksum. The argument is the `len` bytes summed.
pub mod Sum
use cscd58_nat.Base.{
  ℕ, zero, suc, ◌+◌, ◌-◌, ◌*◌, ◌/◌, ◌%◌, ◌^◌, bit_and, bit_or, List, [], ◌∷◌, Option, some, Buffer,
  ltb, ◌==◌, if◌then◌else◌, take, drop, view, ntohs, ◌>>◌, ◌>>=◌,
}

-- `for (sum = 0; len >= 2; data += 2, len -= 2) sum += data[0] << 8 | data[1];`, then the last byte
-- of an odd length. `sum` is a uint32_t.
unfoldable pub sum_words : ℕ → List ℕ → ℕ
sum_words sum [] = sum
sum_words sum (a ∷ []) = (sum + a * 2 ^ 8) % 2 ^ 32
sum_words sum (a ∷ b ∷ rest) = sum_words ((sum + bit_or (a * 2 ^ 8) b) % 2 ^ 32) rest

-- `while (sum > 0xffff) sum = (sum >> 16) + (sum & 0xffff);` with fuel.
unfoldable pub fold_carry : ℕ → ℕ → ℕ
fold_carry zero sum = sum
fold_carry (suc fuel) sum =
    let rest = fold_carry fuel ((sum / 2 ^ 16 + bit_and sum 0xffff) % 2 ^ 32) in
    if ltb 0xffff sum then rest else sum

-- Two rounds always bring a uint32_t to 16 bits.
abbrev pub fold_fuel : ℕ
fold_fuel = 3

unfoldable pub cksum : List ℕ → ℕ
unfolding sum_words fold_carry
cksum bytes =
    let sum = ntohs (2 ^ 32 - 1 - fold_carry fold_fuel (sum_words 0 bytes)) in
    if sum == 0 then 0xffff else sum

-- `cksum(p + offset, len)`: a fault where it reads past the end.
unfoldable pub cksum_at : Buffer → ℕ → ℕ → Option ℕ
cksum_at p offset len = do view p offset len; some (cksum (take len (drop offset p)))
