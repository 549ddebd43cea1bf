-- ===== src/Main/Loop.antt =====
-- The main loop of router/sr_main.c, on fuel.
use cscd58_nat.Base.{
  ℕ, zero, suc, ◌+◌, ◌-◌, ◌≤◌, ◌<◌, ◌≡◌, ◌≢◌, inl, inr, refl, List, [], ◌∷◌, ◌++◌, ltb, length,
  arith, length-drop, Bool-cases, Option-cases, take, drop, load32, ntohl,
}
use cscd58_nat.Vns.Client.{Client, Os}
use cscd58_nat.Vns.Socket.{
  Event, bytes, interrupted, failed, shut, Read, got, error, spins, waits, read_bytes, Received,
  message, broken, fault, spinning, waiting, max_message, with_length, with_body, read_message,
}
use cscd58_nat.Vns.Command.{
  Status, goes_on, closed, aborted, Served, returned, faulted, spun, stalled, served,
  handle_command, sr_read_from_server_expect, sr_read_from_server,
}

-- How the loop ends: a call of `sr_read_from_server` does not return 1, faults, never returns, or
-- waits for more of the stream; or the fuel is used up.
pub data Ended : Type 0 where
  stopped : Status → Client → List Event → Ended
  crashed hung blocked out_of_fuel : Ended

-- `while( sr_read_from_server(&sr) == 1);`
unfoldable pub main_loop : ℕ → Os → Client → List Event → Ended
unfolding sr_read_from_server_expect
main_loop zero os client es = out_of_fuel
main_loop (suc fuel) os client es = elim (sr_read_from_server os client es) [
  | returned goes_on after rest ↦ main_loop fuel os after rest
  | returned status after rest ↦ stopped status after rest
  | faulted ↦ crashed
  | spun ↦ hung
  | stalled ↦ blocked
]

-- The bytes and events that are left.
abbrev pub weight : List Event → ℕ
weight [] = 0
weight (bytes c ∷ es) = suc (length c) + weight es
weight (interrupted ∷ es) = suc (weight es)
weight (failed ∷ es) = suc (weight es)
weight (shut ∷ es) = suc (weight es)

read_bytes-weight :
    (n : ℕ) (sofar out : List ℕ) (es rest : List Event)
    → read_bytes n sofar es ≡ got out rest
    → weight rest + n ≤ weight es
unfolding read_bytes
read_bytes-weight zero sofar out es rest e = ground arith
read_bytes-weight (suc n) sofar out [] rest e = absurd (cc e)
read_bytes-weight (suc n) sofar out (interrupted ∷ es) rest e =
    omega (arith, read_bytes-weight (suc n) sofar out es rest e)
read_bytes-weight (suc n) sofar out (failed ∷ es) rest e = absurd (cc e)
read_bytes-weight (suc n) sofar out (shut ∷ es) rest e = absurd (cc e)
read_bytes-weight (suc n) sofar out (bytes c ∷ es) rest e = elim (Bool-cases (ltb n (length c))) [
  | inl enough ↦
      let left : got (sofar ++ take (suc n) c) (bytes (drop (suc n) c) ∷ es) ≡ got out rest =
        rw enough at e in
      ground (arith, left, length-drop (suc n) c)
  | inr short ↦
      let later = read_bytes-weight (suc n - length c) (sofar ++ c) out es rest (rw short at e) in
      ground arith
]

with_length-weight :
    (len : ℕ) (es rest : List Event) (buf : List ℕ)
    → with_length len es ≡ message buf rest
    → weight rest ≤ weight es
with_length-weight len es rest buf e = elim (Bool-cases (ltb max_message len)) [
  | inl long ↦ absurd (cc (rw long at e))
  | inr fits ↦ elim (Bool-cases (ltb len 4)) [
    | inl small ↦ absurd (cc (rw (fits, small) at e))
    | inr large ↦ by_read (read_bytes (len - 4) [] es) refl (rw (fits, large) at e)
  ]
]
  where
    by_read :
        (r : Read)
        → read_bytes (len - 4) [] es ≡ r
        → with_body len r ≡ message buf rest
        → weight rest ≤ weight es
    by_read (got body left) s f = elim (Bool-cases (ltb len 8)) [
      | inl tiny ↦ absurd (cc (rw tiny at f))
      | inr whole ↦
          let a = read_bytes-weight (len - 4) [] body es left s in
          let g = rw whole at f in ground arith
    ]
    by_read (error left) s f = absurd (cc f)
    by_read spins s f = absurd (cc f)
    by_read waits s f = absurd (cc f)

-- Reading a message takes something off the stream.
read_message-weight :
    (es rest : List Event) (buf : List ℕ)
    → read_message es ≡ message buf rest
    → weight rest < weight es
unfolding read_message
read_message-weight es rest buf e = by_read (read_bytes 4 [] es) refl e
  where
    by_read :
        (r : Read)
        → read_bytes 4 [] es ≡ r
        → (elim r [
          | got head rest ↦ with_length (ntohl (load32 head 0)) rest
          | error rest ↦ broken rest
          | spins ↦ spinning
          | waits ↦ waiting
        ])
          ≡ message buf rest
        → weight rest < weight es
    by_read (got head left) s f =
        let a = read_bytes-weight 4 [] head es left s in
        let b = with_length-weight (ntohl (load32 head 0)) left rest buf f in omega arith
    by_read (error left) s f = absurd (cc f)
    by_read spins s f = absurd (cc f)
    by_read waits s f = absurd (cc f)

-- One call that returns leaves less of the stream.
returned-weight :
    (os : Os) (client after : Client) (status : Status) (es rest : List Event)
    → sr_read_from_server os client es ≡ returned status after rest
    → status ≡ goes_on
    → weight rest < weight es
unfolding sr_read_from_server_expect
returned-weight os client after status es rest e ok = by_read (read_message es) refl e
  where
    by_read :
        (r : Received)
        → read_message es ≡ r
        → (elim r [
          | message buf rest ↦ served (handle_command os 0 client buf (os.time rest)) rest
          | broken rest ↦ returned aborted client rest
          | fault ↦ faulted
          | spinning ↦ spun
          | waiting ↦ stalled
        ])
          ≡ returned status after rest
        → weight rest < weight es
    by_read (message buf left) s f =
        let w = read_message-weight es left buf s in
        elim (Option-cases (handle_command os 0 client buf (os.time left))) [
          | inl n ↦ absurd (cc (rw n at f))
          | inr (r, n) ↦ let g = rw n at f in ground arith
        ]
    by_read (broken left) s f = absurd (cc (f, ok))
    by_read fault s f = absurd (cc f)
    by_read spinning s f = absurd (cc f)
    by_read waiting s f = absurd (cc f)

-- With more fuel than there are bytes and events on the stream, the main loop does not run out of
-- it: each message that it goes on from takes something off the stream, so the loop ends, faults,
-- hangs in a read or waits for more.
pub main_loop-ends :
    (fuel : ℕ) (os : Os) (client : Client) (es : List Event)
    → weight es < fuel
    → main_loop fuel os client es ≢ out_of_fuel
unfolding main_loop
main_loop-ends zero os client es h e = absurd (omega arith)
main_loop-ends (suc fuel) os client es h e =
    by_call (sr_read_from_server os client es) refl
      (λ after rest smaller. main_loop-ends fuel os after rest smaller) e
  where
    by_call :
        (s : Served)
        → sr_read_from_server os client es ≡ s
        → ((after : Client) (rest : List Event)
            → weight rest < fuel
            → main_loop fuel os after rest ≢ out_of_fuel)
        → (elim s [
          | returned goes_on after rest ↦ main_loop fuel os after rest
          | returned status after rest ↦ stopped status after rest
          | faulted ↦ crashed
          | spun ↦ hung
          | stalled ↦ blocked
        ])
          ≢ out_of_fuel
    by_call (returned goes_on after rest) s later f =
        let w = returned-weight os client after goes_on es rest s refl in
        later after rest (omega arith) f
    by_call (returned closed after rest) s later f = absurd (cc f)
    by_call (returned aborted after rest) s later f = absurd (cc f)
    by_call faulted s later f = absurd (cc f)
    by_call spun s later f = absurd (cc f)
    by_call stalled s later f = absurd (cc f)
