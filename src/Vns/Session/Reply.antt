-- ===== src/Vns/Session/Reply.antt =====
-- The answer to the server's challenge, as the server takes it apart (VNSAuthReply.unpack of
-- src/pox_module/cs144/VNSProtocol.py).
use cscd58_nat.Base.{
  ℕ, ◌+◌, ◌*◌, ◌^◌, ◌<◌, ◌≡◌, inl, inr, refl, ap, ◌∙◌, ◌-◌, List, [], ◌∷◌, ◌++◌, none, some, true,
  Buffer, load16, load32, take, drop, length, ntohl, ntohl-lt, ntohl-ntohl, arith, length-append,
  take-append_le, drop-append_ge, take_all, Option-cases, Bool-cases,
}
use cscd58_nat.Build.{bytes32}
use cscd58_nat.Vns.Message.{base_size, vns_auth_reply, string_in}
use cscd58_nat.Vns.Client.{Client, Os}
use cscd58_nat.Vns.Session.{digest_bytes, auth_reply, send_reply, sr_handle_auth_request}
use cscd58_nat.Vns.HwInfo.Entries.{load32-bytes32}
use cscd58_nat.Vns.Socket.Stream.{announced}

-- `body[:4]` gives the length of the name, and the digest follows the name.
abbrev pub unpack_name : Buffer → List ℕ
unpack_name body = take (ntohl (load32 body 0)) (drop 4 body)

abbrev pub unpack_digest : Buffer → Buffer
unpack_digest body = drop (ntohl (load32 body 0)) (drop 4 body)

length-digest_bytes : (ws : List ℕ) → length (digest_bytes ws) ≡ 4 * length ws
length-digest_bytes [] = omega arith
length-digest_bytes (w ∷ ws) = omega (arith, length-digest_bytes ws)

-- The reply to the challenge `req`: the user's name, and the hash of the salt in `req` followed by the
-- key.
abbrev pub Authenticates : Os → Buffer → Client → Buffer → Type 0
Authenticates os req client reply =
    (user key words : List ℕ) × (string_in client.user ≡ some user)
    × (os.auth_key ≡ some (some key))
    × (os.sha1 (drop base_size req ++ key) ≡ some words)
    × (reply ≡ auth_reply user (digest_bytes words))

abbrev pub Replied : Os → Buffer → Client → Client → Type 0
Replied os req client after =
    (reply : Buffer) × Authenticates os req client reply
    × (after ≡ record client { messages = reply ∷ client.messages })

send_reply-sent :
    (os : Os) (client after : Client) (words : List ℕ)
    → send_reply os client words ≡ some (true, after)
    → (user : List ℕ) × (string_in client.user ≡ some user)
      × (after
          ≡ record client { messages = auth_reply user (digest_bytes words) ∷ client.messages })
unfolding send_reply
send_reply-sent os client after words e = elim (Option-cases (string_in client.user)) [
  | inl n ↦ absurd (cc (rw n at e))
  | inr (user, n) ↦
      let f = rw n at e in
      elim (Bool-cases (os.sends (auth_reply user (digest_bytes words)))) [
        | inl t ↦ let g = rw t at f in (user, n, ground arith)
        | inr t ↦ let g = rw t at f in ground arith
      ]
]

-- A reply that was sent.
pub sr_handle_auth_request-sent :
    (os : Os) (client after : Client) (req : Buffer)
    → sr_handle_auth_request os client req ≡ some (true, after)
    → Replied os req client after
unfolding sr_handle_auth_request send_reply
sr_handle_auth_request-sent os client after req e = elim (Option-cases os.auth_key) [
  | inl n ↦ absurd (cc (rw n at e))
  | inr (none, n) ↦ absurd (cc (rw n at e))
  | inr (some key, n) ↦
      let f = rw n at e in
      elim (Option-cases (os.sha1 (drop base_size req ++ key))) [
        | inl m ↦ absurd (cc (rw m at f))
        | inr (words, m) ↦
            let (user, named, sent) = send_reply-sent os client after words (rw m at f) in
            (auth_reply user (digest_bytes words), (user, key, words, named, n, m, refl), sent)
      ]
]

-- Four bytes further on.
load32-skip : (a : ℕ) (rest : Buffer) → load32 (bytes32 a ++ rest) 4 ≡ load32 rest 0
unfolding load32 load16
load32-skip a rest = refl

-- The reply is as long as it announces, and the server takes the user's name and the digest out of
-- it, where the digest has five words and the name is shorter than 2^31 characters.
pub auth_reply-unpack :
    (user words : List ℕ)
    → length user < 2 ^ 31
    → length words ≡ 5
    → let message = auth_reply user (digest_bytes words) in
      let body = drop base_size message in
      (length message ≡ announced message)
      × (load32 message 4 ≡ ntohl vns_auth_reply)
      × (unpack_name body ≡ user)
      × (unpack_digest body ≡ digest_bytes words)
auth_reply-unpack user words small five =
    let digest = digest_bytes words in
    let n = length user in
    let total = 12 + n + 20 in
    let name : load32 (bytes32 (ntohl n) ++ (user ++ digest)) 0 ≡ ntohl n =
      load32-bytes32 (ntohl n) (user ++ digest) (ntohl-lt n) in
    let back : ntohl (ntohl n) ≡ n = ntohl-ntohl n (omega arith) in
    let none_left : n - n ≡ 0 = omega arith in
    let whole : ntohl (load32 (bytes32 (ntohl total) ++ []) 0) ≡ total =
      ap ntohl (load32-bytes32 (ntohl total) [] (ntohl-lt total))
      ∙ ntohl-ntohl total (omega arith) in
    (
      omega (arith, length-append user digest, length-digest_bytes words, whole),
      load32-skip _ _ ∙ load32-bytes32 (ntohl vns_auth_reply) _ (ntohl-lt vns_auth_reply),
      rw (name, back) (take-append_le n user digest (omega arith) ∙ take_all n user (omega arith)),
      rw (name, back)
          (drop-append_ge n user digest (omega arith) ∙ ap (λ k. drop k digest) none_left),
    )
