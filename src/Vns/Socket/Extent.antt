-- ===== src/Vns/Socket/Extent.antt =====
-- How long a message is that has been read.
use cscd58_nat.Base.{
  ℕ, zero, suc, ◌+◌, ◌-◌, ◌≤◌, ◌≡◌, inl, inr, refl, sym, ap, ◌∙◌, List, [], ◌∷◌, ◌++◌, false, ltb,
  Buffer, load32, take, drop, length, ntohl, ntohl-lt, ntohl-ntohl, arith, length-append,
  length-take, length-store32, load16-congr, get_or-store32, Outside, Bool-cases,
}
use cscd58_nat.Build.{bytes32}
use cscd58_nat.Vns.Message.{m_len}
use cscd58_nat.Vns.HwInfo.Entries.{load32-bytes32}
use cscd58_nat.Vns.Socket.{
  Event, bytes, interrupted, failed, shut, Read, got, error, spins, waits, read_bytes, message,
  broken, spinning, waiting, host_type, max_message, with_body, with_length, read_message,
}

length-read_bytes :
    (n : ℕ) (sofar out : List ℕ) (es rest : List Event)
    → read_bytes n sofar es ≡ got out rest
    → length out ≡ length sofar + n
unfolding read_bytes
length-read_bytes zero sofar out es rest e = ground arith
length-read_bytes (suc n) sofar out [] rest e = absurd (cc e)
length-read_bytes (suc n) sofar out (interrupted ∷ es) rest e =
    length-read_bytes (suc n) sofar out es rest e
length-read_bytes (suc n) sofar out (failed ∷ es) rest e = absurd (cc e)
length-read_bytes (suc n) sofar out (shut ∷ es) rest e = absurd (cc e)
length-read_bytes (suc n) sofar out (bytes c ∷ es) rest e = elim (Bool-cases (ltb n (length c))) [
  | inl enough ↦
      let took : got (sofar ++ take (suc n) c) (bytes (drop (suc n) c) ∷ es) ≡ got out rest =
        rw enough at e in
      let same : sofar ++ take (suc n) c ≡ out = cc took in
      let fits : suc n ≤ length c = ground arith in
      omega
        (arith, ap length same, length-append sofar (take (suc n) c), length-take (suc n) c fits)
  | inr short ↦
      let later = length-read_bytes (suc n - length c) (sofar ++ c) out es rest (rw short at e) in
      let under : length c ≤ suc n = ground arith in omega (arith, later, length-append sofar c)
]

-- The type is put back without touching the length.
m_len-host_type : (buf : Buffer) → m_len (host_type buf) ≡ m_len buf
unfolding load32
m_len-host_type buf =
    let v = ntohl (load32 buf 4) in
    let kept = λ (i : ℕ) (h : Outside 4 4 i). get_or-store32 buf 4 v i h in
    let low = load16-congr (host_type buf) buf 0 (kept 0 (omega arith)) (kept 1 (omega arith)) in
    let high = load16-congr (host_type buf) buf 2 (kept 2 (omega arith)) (kept 3 (omega arith)) in
    omega (arith, low, high)

-- The extent of a message.
abbrev pub Sized : Buffer → Type 0
Sized buf = (8 ≤ length buf) × (length buf ≤ 10000) × (ntohl (m_len buf) ≡ length buf)

with_length-Sized :
    (len : ℕ) (es rest : List Event) (buf : Buffer)
    → with_length len es ≡ message buf rest
    → Sized buf
with_length-Sized len es rest buf e = elim (Bool-cases (ltb max_message len)) [
  | inl long ↦ absurd (cc (rw long at e))
  | inr fits ↦ elim (Bool-cases (ltb len 4)) [
    | inl small ↦ absurd (cc (rw (fits, small) at e))
    | inr large ↦ by_read (read_bytes (len - 4) [] es) refl (rw (fits, large) at e) fits
  ]
]
  where
    by_read :
        (r : Read)
        → read_bytes (len - 4) [] es ≡ r
        → with_body len r ≡ message buf rest
        → ltb max_message len ≡ false
        → Sized buf
    by_read (got body left) s f fits = elim (Bool-cases (ltb len 8)) [
      | inl tiny ↦ absurd (cc (rw tiny at f))
      | inr whole ↦
          let same : host_type (bytes32 (ntohl len) ++ body) ≡ buf = cc (rw whole at f) in
          let low : 8 ≤ len = ground arith in
          let high : len ≤ 10000 = ground arith in
          let size : length buf ≡ len = omega (
            arith,
            ap length same,
            length-store32 (bytes32 (ntohl len) ++ body) 4
                (ntohl (load32 (bytes32 (ntohl len) ++ body) 4)),
            length-read_bytes (len - 4) [] body es left s,
          ) in
          let announced : ntohl (m_len buf) ≡ len =
            ap (λ b. ntohl (m_len b)) (sym same)
            ∙ (ap ntohl (m_len-host_type (bytes32 (ntohl len) ++ body))
                ∙ (ap ntohl (load32-bytes32 (ntohl len) body (ntohl-lt len))
                    ∙ ntohl-ntohl len (omega arith))) in
          (omega arith, omega arith, announced ∙ sym size)
    ]
    by_read (error left) s f fits = absurd (cc f)
    by_read spins s f fits = absurd (cc f)
    by_read waits s f fits = absurd (cc f)

-- Every message that is read has from 8 to 10000 bytes, and exactly as many as its length field says.
pub read_message-Sized :
    (es rest : List Event) (buf : Buffer) → read_message es ≡ message buf rest → Sized buf
unfolding read_message
read_message-Sized es rest buf e = by_read (read_bytes 4 [] es) e
  where
    by_read :
        (r : Read)
        → (elim r [
          | got head rest ↦ with_length (ntohl (load32 head 0)) rest
          | error rest ↦ broken rest
          | spins ↦ spinning
          | waits ↦ waiting
        ])
          ≡ message buf rest
        → Sized buf
    by_read (got head left) f = with_length-Sized (ntohl (load32 head 0)) left rest buf f
    by_read (error left) f = absurd (cc f)
    by_read spins f = absurd (cc f)
    by_read waits f = absurd (cc f)
