-- ===== src/Base/Words.antt =====
-- Machine words: the loads, stores and byte-order functions of the little-endian host
-- (`__BYTE_ORDER == __LITTLE_ENDIAN` in router/sr_protocol.h). A buffer is the list of its bytes;
-- a load outside it reads 0 here, and the callers test the extent of what they read by `view`.
use Prim.Native.Nat.{ℕ, ◌+◌, ◌*◌, ◌/◌, ◌%◌, ◌^◌, ◌<◌, ◌≤◌}
use mathlib.Core.Path.{◌≡◌}
use mathlib.Core.Logic.{◌⊎◌, ◌≢◌}
use mathlib.Core.Option.{Option}
use mathlib.Core.List.{List}
use native.Mathlib.Omega.{arith}
use cscd58_nat.Base.Tests.{leb, require}
use cscd58_nat.Base.Lists.{
  length, get_or, set, length-set, get_or-set_self, get_or-set_ne, set-set, set_comm,
}

abbrev pub Buffer : Type 0
Buffer = List ℕ

-- A header of `size` bytes is read or written at `offset`: a fault if it reaches past the end.
abbrev pub view : Buffer → ℕ → ℕ → Option (Unit {0})
view b offset size = require (leb (offset + size) (length b))

unfoldable pub load8 : Buffer → ℕ → ℕ
load8 b o = get_or b o 0

unfoldable pub store8 : Buffer → ℕ → ℕ → Buffer
store8 b o v = set b o (v % 256)

unfoldable pub load16 : Buffer → ℕ → ℕ
load16 b o = get_or b o 0 + get_or b (o + 1) 0 * 256

unfoldable pub store16 : Buffer → ℕ → ℕ → Buffer
store16 b o v = set (set b o (v % 256)) (o + 1) (v / 256 % 256)

unfoldable pub load32 : Buffer → ℕ → ℕ
load32 b o = load16 b o + load16 b (o + 2) * 2 ^ 16

unfoldable pub store32 : Buffer → ℕ → ℕ → Buffer
store32 b o v = store16 (store16 b o v) (o + 2) (v / 2 ^ 16)

-- `ntohs` and `htons` are one function here, and so are `ntohl` and `htonl`.
unfoldable pub ntohs : ℕ → ℕ
ntohs v = v % 256 * 256 + v / 256 % 256

unfoldable pub ntohl : ℕ → ℕ
ntohl v = ntohs v * 2 ^ 16 + ntohs (v / 2 ^ 16)

pub ntohs-lt : (v : ℕ) → ntohs v < 2 ^ 16
unfolding ntohs
ntohs-lt v = omega arith

pub ntohs-ntohs : (v : ℕ) → v < 2 ^ 16 → ntohs (ntohs v) ≡ v
unfolding ntohs
ntohs-ntohs v h = omega arith

pub ntohl-lt : (v : ℕ) → ntohl v < 2 ^ 32
unfolding ntohl ntohs
ntohl-lt v = omega arith

pub ntohl-ntohl : (v : ℕ) → v < 2 ^ 32 → ntohl (ntohl v) ≡ v
unfolding ntohl ntohs
ntohl-ntohl v h = omega arith

pub length-store8 : (b : Buffer) (o v : ℕ) → length (store8 b o v) ≡ length b
unfolding store8
length-store8 b o v = length-set b o _

pub length-store16 : (b : Buffer) (o v : ℕ) → length (store16 b o v) ≡ length b
unfolding store16
length-store16 b o v = rw (length-set, length-set)

pub length-store32 : (b : Buffer) (o v : ℕ) → length (store32 b o v) ≡ length b
unfolding store32
length-store32 b o v = rw (length-store16, length-store16)

-- Outside `size` bytes from `o`.
abbrev pub Outside : ℕ → ℕ → ℕ → Type 0
Outside o size i = (i < o) ⊎ (o + size ≤ i)

pub get_or-store8 :
    (b : Buffer) (o v i : ℕ) → Outside o 1 i → get_or (store8 b o v) i 0 ≡ get_or b i 0
unfolding store8
get_or-store8 b o v i h = get_or-set_ne b o i _ 0 (omega arith)

pub get_or-store16 :
    (b : Buffer) (o v i : ℕ) → Outside o 2 i → get_or (store16 b o v) i 0 ≡ get_or b i 0
unfolding store16
get_or-store16 b o v i h =
    rw (get_or-set_ne (set b o (v % 256)) (o + 1) i (v / 256 % 256) 0 (omega arith))
      (get_or-set_ne b o i _ 0 (omega arith))

pub get_or-store32 :
    (b : Buffer) (o v i : ℕ) → Outside o 4 i → get_or (store32 b o v) i 0 ≡ get_or b i 0
unfolding store32
get_or-store32 b o v i h =
    rw (get_or-store16 (store16 b o v) (o + 2) (v / 2 ^ 16) i (omega arith))
      (get_or-store16 b o v i (omega arith))

load16-store16_mod :
    (b : Buffer) (o v : ℕ) → o + 2 ≤ length b → load16 (store16 b o v) o ≡ v % 2 ^ 16
unfolding load16 store16
load16-store16_mod b o v h = omega (
  arith,
  get_or-set_ne (set b o (v % 256)) (o + 1) o (v / 256 % 256) 0 (omega arith),
  get_or-set_self b o (v % 256) 0 (omega arith),
  length-set b o (v % 256),
  get_or-set_self (set b o (v % 256)) (o + 1) (v / 256 % 256) 0
      (omega (arith, length-set b o (v % 256))),
)

pub load16-store16 :
    (b : Buffer) (o v : ℕ) → o + 2 ≤ length b → v < 2 ^ 16 → load16 (store16 b o v) o ≡ v
load16-store16 b o v h hv = omega (arith, load16-store16_mod b o v h)

pub load16-congr :
    (b c : Buffer) (o : ℕ)
    → get_or b o 0 ≡ get_or c o 0
    → get_or b (o + 1) 0 ≡ get_or c (o + 1) 0
    → load16 b o ≡ load16 c o
unfolding load16
load16-congr b c o p q = omega arith

pub load16-store16_ne :
    (b : Buffer) (o v i : ℕ) → (i + 2 ≤ o) ⊎ (o + 2 ≤ i) → load16 (store16 b o v) i ≡ load16 b i
load16-store16_ne b o v i h =
    load16-congr (store16 b o v) b i (get_or-store16 b o v i (omega arith))
      (get_or-store16 b o v (i + 1) (omega arith))

pub load16-store32_ne :
    (b : Buffer) (o v i : ℕ) → (i + 2 ≤ o) ⊎ (o + 4 ≤ i) → load16 (store32 b o v) i ≡ load16 b i
load16-store32_ne b o v i h =
    load16-congr (store32 b o v) b i (get_or-store32 b o v i (omega arith))
      (get_or-store32 b o v (i + 1) (omega arith))

pub store16-store16 : (b : Buffer) (o v w : ℕ) → store16 (store16 b o v) o w ≡ store16 b o w
unfolding store16
store16-store16 b o v w = rw (
  set_comm (set b o (v % 256)) (o + 1) o (v / 256 % 256) (w % 256) (omega arith),
  set-set b o (v % 256) (w % 256),
  set-set (set b o (w % 256)) (o + 1) (v / 256 % 256) (w / 256 % 256),
)

pub load32-congr :
    (b c : Buffer) (o : ℕ)
    → load16 b o ≡ load16 c o
    → load16 b (o + 2) ≡ load16 c (o + 2)
    → load32 b o ≡ load32 c o
unfolding load32
load32-congr b c o p q = omega arith

pub load32-store16_ne :
    (b : Buffer) (o v i : ℕ) → (i + 4 ≤ o) ⊎ (o + 2 ≤ i) → load32 (store16 b o v) i ≡ load32 b i
load32-store16_ne b o v i h =
    load32-congr (store16 b o v) b i (load16-store16_ne b o v i (omega arith))
      (load16-store16_ne b o v (i + 2) (omega arith))

pub load32-store32_ne :
    (b : Buffer) (o v i : ℕ) → (i + 4 ≤ o) ⊎ (o + 4 ≤ i) → load32 (store32 b o v) i ≡ load32 b i
load32-store32_ne b o v i h =
    load32-congr (store32 b o v) b i (load16-store32_ne b o v i (omega arith))
      (load16-store32_ne b o v (i + 2) (omega arith))

pub load32-store32 :
    (b : Buffer) (o v : ℕ) → o + 4 ≤ length b → v < 2 ^ 32 → load32 (store32 b o v) o ≡ v
unfolding load32 store32
load32-store32 b o v h hv = omega (
  arith,
  load16-store16_ne (store16 b o v) (o + 2) (v / 2 ^ 16) o (omega arith),
  load16-store16_mod b o v (omega arith),
  load16-store16 (store16 b o v) (o + 2) (v / 2 ^ 16) (omega (arith, length-store16 b o v))
      (omega arith),
)

pub load8-store8 : (b : Buffer) (o v : ℕ) → o < length b → load8 (store8 b o v) o ≡ v % 256
unfolding load8 store8
load8-store8 b o v h = get_or-set_self b o (v % 256) 0 h

pub load8-store8_ne : (b : Buffer) (o v i : ℕ) → o ≢ i → load8 (store8 b o v) i ≡ load8 b i
unfolding load8
load8-store8_ne b o v i h = get_or-store8 b o v i (omega arith)

pub load8-store16_ne :
    (b : Buffer) (o v i : ℕ) → Outside o 2 i → load8 (store16 b o v) i ≡ load8 b i
unfolding load8
load8-store16_ne b o v i h = get_or-store16 b o v i h

pub load8-store32_ne :
    (b : Buffer) (o v i : ℕ) → Outside o 4 i → load8 (store32 b o v) i ≡ load8 b i
unfolding load8
load8-store32_ne b o v i h = get_or-store32 b o v i h

pub load16-store8_ne :
    (b : Buffer) (o v i : ℕ) → (i + 2 ≤ o) ⊎ (o + 1 ≤ i) → load16 (store8 b o v) i ≡ load16 b i
load16-store8_ne b o v i h =
    load16-congr (store8 b o v) b i (get_or-store8 b o v i (omega arith))
      (get_or-store8 b o v (i + 1) (omega arith))

pub load32-store8_ne :
    (b : Buffer) (o v i : ℕ) → (i + 4 ≤ o) ⊎ (o + 1 ≤ i) → load32 (store8 b o v) i ≡ load32 b i
load32-store8_ne b o v i h =
    load32-congr (store8 b o v) b i (load16-store8_ne b o v i (omega arith))
      (load16-store8_ne b o v (i + 2) (omega arith))

pub store16-store8 :
    (b : Buffer) (o v i w : ℕ)
    → Outside o 2 i
    → store16 (store8 b i w) o v ≡ store8 (store16 b o v) i w
unfolding store16 store8
store16-store8 b o v i w h = rw (
  set_comm b i o (w % 256) (v % 256) (omega arith),
  set_comm (set b o (v % 256)) i (o + 1) (w % 256) (v / 256 % 256) (omega arith),
)
