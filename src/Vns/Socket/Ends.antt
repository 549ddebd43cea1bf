-- ===== src/Vns/Socket/Ends.antt =====
-- How reading a message ends where the stream has no whole, well-formed message.
use cscd58_nat.Base.{
  ℕ, zero, suc, ◌+◌, ◌-◌, ◌≤◌, ◌<◌, ◌≡◌, ◌⊎◌, inl, inr, refl, ap, List, [], ◌∷◌, ◌++◌, true, false,
  ltb, take, length, arith, length-append, length-drop, Bool-cases,
}
use cscd58_nat.Vns.Socket.{
  Event, bytes, interrupted, failed, shut, got, spins, read_bytes, fault, spinning, max_message,
  with_length, read_message,
}
use cscd58_nat.Vns.Socket.Stream.{Flowing, stream, announced, read_bytes-stream}

-- What comes later does not matter to a loop that has its bytes.
read_bytes-append :
    (n : ℕ) (sofar out : List ℕ) (es fs rest : List Event)
    → read_bytes n sofar es ≡ got out rest
    → read_bytes n sofar (es ++ fs) ≡ got out (rest ++ fs)
unfolding read_bytes
read_bytes-append zero sofar out es fs rest e = ground arith
read_bytes-append (suc n) sofar out [] fs rest e = absurd (cc e)
read_bytes-append (suc n) sofar out (interrupted ∷ es) fs rest e =
    read_bytes-append (suc n) sofar out es fs rest e
read_bytes-append (suc n) sofar out (failed ∷ es) fs rest e = absurd (cc e)
read_bytes-append (suc n) sofar out (shut ∷ es) fs rest e = absurd (cc e)
read_bytes-append (suc n) sofar out (bytes c ∷ es) fs rest e =
    ground (arith, read_bytes-append (suc n - length c) (sofar ++ c) out es fs rest)

pub read_bytes_shut :
    (n : ℕ) (sofar : List ℕ) (es fs : List Event)
    → Flowing es
    → length (stream es) < n
    → read_bytes n sofar (es ++ shut ∷ fs) ≡ spins
unfolding read_bytes
read_bytes_shut zero sofar es fs f h = absurd (omega arith)
read_bytes_shut (suc n) sofar [] fs f h = refl
read_bytes_shut (suc n) sofar (interrupted ∷ es) fs f h = read_bytes_shut (suc n) sofar es fs f h
read_bytes_shut (suc n) sofar (failed ∷ es) fs f h = elim f [ ]
read_bytes_shut (suc n) sofar (shut ∷ es) fs f h = elim f [ ]
read_bytes_shut (suc n) sofar (bytes c ∷ es) fs f h =
    let l = length-append c (stream es) in
    let more : ltb n (length c) ≡ false = ground arith in
    rw more (read_bytes_shut (suc n - length c) (sofar ++ c) es fs f (omega arith))

with_length_shut :
    (len : ℕ) (es fs : List Event)
    → Flowing es
    → len ≤ 10000
    → length (stream es) + 4 < len
    → with_length len (es ++ shut ∷ fs) ≡ spinning
with_length_shut len es fs f high h =
    let a : ltb max_message len ≡ false = ground arith in
    let b : ltb len 4 ≡ false = ground arith in
    rw (a, b, read_bytes_shut (len - 4) [] es fs f (omega arith))

-- Where the server closes the connection before the four bytes of the length, or after them and
-- before the last byte of a message of at most 10000 bytes, the router never returns from reading:
-- it takes the result 0 of the call for an empty piece.
pub read_message_shut :
    (es fs : List Event)
    → Flowing es
    → let b = stream es in
      (length b < 4) ⊎ ((4 ≤ length b) × (announced b ≤ 10000) × (length b < announced b))
      → read_message (es ++ shut ∷ fs) ≡ spinning
unfolding read_message
read_message_shut es fs f (inl early) = rw (read_bytes_shut 4 [] es fs f early, read_message)
read_message_shut es fs f (inr (four, high, cut)) =
    let (mid, r, g, s) = read_bytes-stream 4 [] es f four in
    rw (read_bytes-append 4 [] (take 4 (stream es)) es (shut ∷ fs) mid r, read_message)
      (with_length_shut (announced (stream es)) mid fs g high
        (omega (arith, ap length s, length-drop 4 (stream es))))

with_length_short :
    (len : ℕ) (mid rest : List Event) (body : List ℕ)
    → len < 8
    → read_bytes (len - 4) [] mid ≡ got body rest
    → with_length len mid ≡ fault
with_length_short len mid rest body low e =
    let a : ltb max_message len ≡ false = ground arith in
    let c : ltb len 8 ≡ true = ground arith in
    elim (Bool-cases (ltb len 4)) [ inl b ↦ rw (a, b) | inr b ↦ rw (a, b, e, c) ]

-- A message that announces fewer than 8 bytes, and has them, makes the router write or read past the
-- block that it allocates for the message.
pub read_message_short :
    (es : List Event)
    → Flowing es
    → 4 ≤ length (stream es)
    → announced (stream es) < 8
    → announced (stream es) ≤ length (stream es)
    → read_message es ≡ fault
unfolding read_message
read_message_short es f four low there =
    let (mid, r, g, s) = read_bytes-stream 4 [] es f four in
    let (rest, r', g', s') =
      read_bytes-stream (announced (stream es) - 4) [] mid g
        (omega (arith, ap length s, length-drop 4 (stream es))) in
    rw (r, read_message) (with_length_short (announced (stream es)) mid rest _ low r')
