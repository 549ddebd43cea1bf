-- ===== src/Vns/Session.antt =====
-- `sr_handle_rtable`, `sr_handle_auth_request` and `sr_handle_auth_status` of router/sr_vns_comm.c.
-- Each returns whether it went well; `none` is a fault. The message is the block of as many bytes as
-- its length field says.
pub mod Reply
use cscd58_nat.Base.{
  ℕ, ◌+◌, List, [], ◌∷◌, ◌++◌, Option, none, some, Bool, true, false, not, ◌==◌, leb, if◌then◌else◌,
  Buffer, view, load8, drop, length, ntohl, require, ◌>>=◌, ◌>>◌,
}
use cscd58_nat.Build.{bytes32}
use cscd58_nat.Vns.Message.{base_size, idsize, vns_auth_reply, c_string, string_in}
use cscd58_nat.Vns.Client.{File, Client, Os}

-- "rtable."
abbrev pub rtable_prefix : List ℕ
rtable_prefix = 114 ∷ 116 ∷ 97 ∷ 98 ∷ 108 ∷ 101 ∷ 46 ∷ []

-- `fopen`, `fwrite` and `fclose`. The size that is written out wraps around where the message is
-- shorter than its fixed part.
unfoldable pub write_rtable : Os → Client → Buffer → List ℕ → Option (Bool × Client)
write_rtable os client rtable fn =
    if os.writable fn
    then (view rtable 0 (base_size + idsize)
        >> some (
          true,
          record client {
            files =
                record { name = fn; contents = drop (base_size + idsize) rtable } ∷ client.files;
          },
        ))
    else some (false, client)

-- `strcat` writes past `fn` where the id has more than 32 characters before its 0.
unfoldable pub sr_handle_rtable : Os → Client → Buffer → Option (Bool × Client)
unfolding c_string write_rtable
sr_handle_rtable os client rtable = do
  id ← c_string (idsize + 1) (drop base_size rtable)
  require (leb (length id) idsize)
  write_rtable os client rtable (rtable_prefix ++ id)

-- `htonl` of each word of the digest, in memory.
abbrev pub digest_bytes : List ℕ → Buffer
digest_bytes [] = []
digest_bytes (w ∷ ws) = bytes32 (ntohl w) ++ digest_bytes ws

-- c_auth_reply with the user's name and the digest behind it.
abbrev pub auth_reply : List ℕ → Buffer → Buffer
auth_reply user digest =
    bytes32 (ntohl (12 + length user + 20))
    ++ (bytes32 (ntohl vns_auth_reply) ++ (bytes32 (ntohl (length user)) ++ (user ++ digest)))

-- The reply is built and sent.
unfoldable pub send_reply : Os → Client → List ℕ → Option (Bool × Client)
unfolding c_string
send_reply os client words = do
  user ← string_in client.user
  let buf = auth_reply user (digest_bytes words)
  some (
      if os.sends buf
      then (true, record client { messages = buf ∷ client.messages })
      else (false, client))

-- The salt is what follows the header; all 64 characters of the key's array are hashed.
unfoldable pub sr_handle_auth_request : Os → Client → Buffer → Option (Bool × Client)
unfolding send_reply
sr_handle_auth_request os client req = elim os.auth_key [
  | none ↦ some (false, client)
  | some none ↦ some (false, client)
  | some (some auth_key) ↦ elim (os.sha1 (drop base_size req ++ auth_key)) [
    | none ↦ some (false, client)
    | some words ↦ send_reply os client words
  ]
]

-- `auth_ok` is the byte after the header.
unfoldable pub sr_handle_auth_status : Buffer → Option Bool
sr_handle_auth_status status = do view status base_size 1; some (not (load8 status base_size == 0))
