-- ===== src/Nat/State/Reach.antt =====
-- The TCP states that a tracked connection can be in.
use cscd58_nat.Base.{◌≤◌, ◌≡◌, ◌⊎◌, ◌↔◌, List, [], ◌∷◌, inl, refl, arith}
use cscd58_nat.Nat.Types.{TcpState, closed, syn_sent, estab, fin_wait_1, fin_wait_2, closing}
use cscd58_nat.Nat.State.{Flags, determine_state}

-- The flags are single bits.
abbrev pub IsFlags : Flags → Type 0
IsFlags f = (f.syn ≤ 1) × (f.ack ≤ 1) × (f.fin ≤ 1)

-- The states that a connection tracked from SYN_SENT takes.
abbrev pub Tracked : TcpState → Type 0
Tracked s =
    (s ≡ syn_sent)
    ⊎ (s ≡ estab)
    ⊎ (s ≡ fin_wait_1)
    ⊎ (s ≡ fin_wait_2)
    ⊎ (s ≡ closing)
    ⊎ (s ≡ closed)

determine_state-Tracked :
    (s : TcpState) (f : Flags) → IsFlags f → Tracked s → Tracked (determine_state s f)
unfolding determine_state
determine_state-Tracked closed f h t = ground arith
determine_state-Tracked _ f h t = ground arith

-- The states after the segments of a list, in order.
pub run_segments : TcpState → List Flags → TcpState
run_segments s [] = s
run_segments s (f ∷ fs) = run_segments (determine_state s f) fs

abbrev pub AllFlags : List Flags → Type 0
AllFlags [] = Unit {0}
AllFlags (f ∷ fs) = IsFlags f × AllFlags fs

run_segments-Tracked_from :
    (s : TcpState) (fs : List Flags) → AllFlags fs → Tracked s → Tracked (run_segments s fs)
unfolding run_segments
run_segments-Tracked_from s [] h t = t
run_segments-Tracked_from s (f ∷ fs) h t =
    run_segments-Tracked_from (determine_state s f) fs h.1 (determine_state-Tracked s f h.0 t)

-- Whatever segments follow, a connection that was inserted in SYN_SENT is in SYN_SENT, ESTAB,
-- FIN_WAIT_1, FIN_WAIT_2, CLOSING or CLOSED: never in SYN_RCVD, LISTEN, TIME_WAIT, CLOST_WAIT or
-- LAST_ACK.
pub run_segments-Tracked : (fs : List Flags) → AllFlags fs → Tracked (run_segments syn_sent fs)
run_segments-Tracked fs h = run_segments-Tracked_from syn_sent fs h (inl refl)

-- A segment leaves a connection CLOSED exactly when it is no SYN without ACK and either the
-- connection was CLOSED, or CLOSING and the segment has ACK, or in FIN_WAIT_2 and it has FIN.
pub determine_state-closed_iff :
    (s : TcpState) (f : Flags)
    → IsFlags f
    → (determine_state s f ≡ closed) ↔ (
        ¬ ((f.syn ≡ 1) × (f.ack ≡ 0))
        × ((s ≡ closed) ⊎ ((s ≡ closing) × (f.ack ≡ 1)) ⊎ ((s ≡ fin_wait_2) × (f.fin ≡ 1))))
unfolding determine_state
determine_state-closed_iff closed f h = ground arith
determine_state-closed_iff _ f h = ground arith

-- A connection in FIN_WAIT_1 that sees a segment with FIN (and no SYN) goes to CLOSING, also when
-- the segment has ACK: the later branch of the code that would close it is never taken.
pub fin_wait_1_fin : (f : Flags) → f.syn ≡ 0 → f.fin ≡ 1 → determine_state fin_wait_1 f ≡ closing
unfolding determine_state
fin_wait_1_fin f s h = ground arith

-- SYN and ACK after a SYN of the host inside.
pub determine_state-syn_ack :
    (f : Flags) → f.syn ≡ 1 → f.ack ≡ 1 → determine_state syn_sent f ≡ estab
unfolding determine_state
determine_state-syn_ack f s a = ground arith
