-- ===== src/Vns/Socket/Stream.antt =====
-- Reading against the bytes of the stream, however they arrive.
use cscd58_nat.Base.{
  ℕ, zero, suc, ◌-◌, ◌≤◌, ◌≡◌, inl, inr, refl, sym, ap, ◌∙◌, List, [], ◌∷◌, ◌++◌, false, ltb,
  load32, take, drop, length, ntohl, arith, length-append, length-drop, ntohs, load16, Bool-cases,
  take-append_le, drop-append_le, take-append_ge, drop-append_ge,
}
use mathlib.Core.List.{append_assoc, append-nil}
use cscd58_nat.Build.{bytes32}
use cscd58_nat.Cksum.Sum.{AllBytes}
use cscd58_nat.Vns.Socket.{
  Event, bytes, interrupted, failed, shut, got, read_bytes, message, host_type, max_message,
  with_length, read_message,
}

-- Nothing but bytes and signals.
abbrev pub Flowing : List Event → Type 0
Flowing [] = Unit {0}
Flowing (bytes c ∷ es) = Flowing es
Flowing (interrupted ∷ es) = Flowing es
Flowing (failed ∷ es) = ⊥
Flowing (shut ∷ es) = ⊥

abbrev pub stream : List Event → List ℕ
stream [] = []
stream (bytes c ∷ es) = c ++ stream es
stream (interrupted ∷ es) = stream es
stream (failed ∷ es) = []
stream (shut ∷ es) = []

-- Reading `n` bytes takes the first `n` of the stream.
abbrev pub Takes : ℕ → List ℕ → List Event → Type 0
Takes n sofar es =
    (rest : List Event) × (read_bytes n sofar es ≡ got (sofar ++ take n (stream es)) rest)
    × Flowing rest
    × (stream rest ≡ drop n (stream es))

pub read_bytes-stream :
    (n : ℕ) (sofar : List ℕ) (es : List Event)
    → Flowing es
    → n ≤ length (stream es)
    → Takes n sofar es
unfolding read_bytes
read_bytes-stream zero sofar es f h = (es, ap (λ s. got s es) (sym (append-nil sofar)), f, refl)
read_bytes-stream (suc n) sofar [] f h = absurd (omega arith)
read_bytes-stream (suc n) sofar (interrupted ∷ es) f h = read_bytes-stream (suc n) sofar es f h
read_bytes-stream (suc n) sofar (failed ∷ es) f h = elim f [ ]
read_bytes-stream (suc n) sofar (shut ∷ es) f h = elim f [ ]
read_bytes-stream (suc n) sofar (bytes c ∷ es) f h = elim (Bool-cases (ltb n (length c))) [
  | inl enough ↦
      let fits : suc n ≤ length c = ground arith in
      (
        bytes (drop (suc n) c) ∷ es,
        rw (enough, take-append_le (suc n) c (stream es) fits),
        f,
        sym (drop-append_le (suc n) c (stream es) fits),
      )
  | inr short ↦
      let under : length c ≤ suc n = ground arith in
      let (rest, r, g, s) =
        read_bytes-stream (suc n - length c) (sofar ++ c) es f
          (omega (arith, length-append c (stream es))) in
      (
        rest,
        rw (short, take-append_ge (suc n) c (stream es) under)
            (r ∙ ap (λ l. got l rest) (append_assoc sofar c (take (suc n - length c) (stream es)))),
        g,
        s ∙ sym (drop-append_ge (suc n) c (stream es) under),
      )
]

-- The length that a stream announces.
abbrev pub announced : List ℕ → ℕ
announced b = ntohl (load32 (take 4 b) 0)

pub bytes32-load32 :
    (b : List ℕ) → 4 ≤ length b → AllBytes b → bytes32 (ntohl (announced b)) ≡ take 4 b
unfolding load32 load16 ntohl ntohs
bytes32-load32 [] h all = absurd (omega arith)
bytes32-load32 (x ∷ []) h all = absurd (omega arith)
bytes32-load32 (x ∷ y ∷ []) h all = absurd (omega arith)
bytes32-load32 (x ∷ y ∷ z ∷ []) h all = absurd (omega arith)
bytes32-load32 (x ∷ y ∷ z ∷ w ∷ b) h all = ground arith

pub take-take-drop :
    (m n : ℕ) (b : List ℕ) → m ≤ n → n ≤ length b → take m b ++ take (n - m) (drop m b) ≡ take n b
take-take-drop zero n b h k = ap (λ j. take j b) (omega arith)
take-take-drop (suc m) zero b h k = absurd (omega arith)
take-take-drop (suc m) (suc n) [] h k = absurd (omega arith)
take-take-drop (suc m) (suc n) (x ∷ b) h k =
    ap (λ l. x ∷ l)
      (ap (λ j. take m b ++ take j (drop m b)) (omega arith)
        ∙ take-take-drop m n b (omega arith) (omega arith))

drop-nil : (j : ℕ) → drop {A = ℕ} j [] ≡ []
drop-nil zero = refl
drop-nil (suc j) = refl

pub drop-drop : (m n : ℕ) (b : List ℕ) → m ≤ n → drop (n - m) (drop m b) ≡ drop n b
drop-drop zero n b h = ap (λ j. drop j b) (omega arith)
drop-drop (suc m) zero b h = absurd (omega arith)
drop-drop (suc m) (suc n) [] h = drop-nil (suc n - suc m)
drop-drop (suc m) (suc n) (x ∷ b) h =
    ap (λ j. drop j (drop m b)) (omega arith) ∙ drop-drop m n b (omega arith)

with_length_lem :
    (len : ℕ) (mid rest : List Event) (body : List ℕ)
    → 8 ≤ len
    → len ≤ 10000
    → read_bytes (len - 4) [] mid ≡ got body rest
    → with_length len mid ≡ message (host_type (bytes32 (ntohl len) ++ body)) rest
with_length_lem len mid rest body low high e =
    let a : ltb max_message len ≡ false = ground arith in
    let b : ltb len 4 ≡ false = ground arith in
    let c : ltb len 8 ≡ false = ground arith in rw (a, b, e, c)

-- Where the stream announces a length of 8 to 10000 bytes and has them, the message is those bytes
-- (the type in host byte order), whatever the pieces in which they arrive and the signals between
-- them, and the next message starts after them.
pub read_message-stream :
    (es : List Event)
    → Flowing es
    → let b = stream es in
      AllBytes b
      → 8 ≤ announced b
      → announced b ≤ 10000
      → announced b ≤ length b
      → (rest : List Event) × (read_message es ≡ message (host_type (take (announced b) b)) rest)
        × Flowing rest
        × (stream rest ≡ drop (announced b) b)
unfolding read_message
read_message-stream es f all low high there =
    let b = stream es in
    let len = announced b in
    let (mid, r, g, s) = read_bytes-stream 4 [] es f (omega arith) in
    let (rest, r', g', s') =
      read_bytes-stream (len - 4) [] mid g (omega (arith, ap length s, length-drop 4 b)) in
    let whole : bytes32 (ntohl len) ++ take (len - 4) (stream mid) ≡ take len b =
      ap (λ l. l ++ take (len - 4) (stream mid)) (bytes32-load32 b (omega arith) all)
      ∙ ap (λ l. take 4 b ++ take (len - 4) l) s
      ∙ take-take-drop 4 len b (omega arith) there in
    (
      rest,
      rw (r, read_message)
          (with_length_lem len mid rest (take (len - 4) (stream mid)) low high r'
            ∙ ap (λ l. message (host_type l) rest) whole),
      g',
      s' ∙ ap (drop (len - 4)) s ∙ drop-drop 4 len b (omega arith),
    )
