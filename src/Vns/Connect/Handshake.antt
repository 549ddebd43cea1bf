-- ===== src/Vns/Connect/Handshake.antt =====
-- What has been said when the session is open.
use cscd58_nat.Base.{
  ℕ, ◌+◌, ◌≡◌, ◌≢◌, sym, ◌∙◌, List, ◌∷◌, some, Bool, true, false, ltb, leb, length, if◌then◌else◌,
  Buffer, arith, require_parts, load8, not, ◌==◌,
}
use mathlib.Core.Path.{subst}
use cscd58_nat.Vns.Message.{m_type, base_size, vns_auth_request, vns_auth_status}
use cscd58_nat.Vns.Client.{Client, Os}
use cscd58_nat.Vns.Session.{sr_handle_auth_status}
use cscd58_nat.Vns.Session.Reply.{Authenticates}
use cscd58_nat.Vns.Socket.{Event, message, read_message}
use cscd58_nat.Vns.Command.{goes_on, returned, sr_read_from_server_expect}
use cscd58_nat.Vns.Connect.{
  negotiate, connected, not_connected, need, send_open, sr_connect_to_server,
}
use cscd58_nat.Vns.Connect.Opening.{
  Opening, Opened, need-connected, expected-handled, send_open-Opened, opening_message-messages,
}
use cscd58_nat.Vns.Connect.Order.{on_command-auth_request, on_command-auth_status}

-- The two steps before the opening.
negotiate-parts :
    (os : Os) (client after : Client) (es rest : List Event)
    → negotiate os client es ≡ connected after rest
    → (asked told : Client) × (left left₂ : List Event) × (sr_read_from_server_expect os
          vns_auth_request client es
        ≡ returned goes_on asked left)
      × (sr_read_from_server_expect os vns_auth_status asked left ≡ returned goes_on told left₂)
      × (send_open os told left₂ ≡ connected after rest)
unfolding negotiate
negotiate-parts os client after es rest e =
    let (asked, left, s, f) =
      need-connected (sr_read_from_server_expect os vns_auth_request client es)
        (λ asked left.
          need (sr_read_from_server_expect os vns_auth_status asked left)
            (λ told remaining. send_open os told remaining))
        after rest e in
    let (told, left₂, s₂, g) =
      need-connected (sr_read_from_server_expect os vns_auth_status asked left)
        (λ told remaining. send_open os told remaining) after rest f in
    (asked, told, left, left₂, s, s₂, g)

-- The message that is read from `es` is of the given type, and `left` is what comes after it.
abbrev pub Reads : List Event → ℕ → Buffer → List Event → Type 0
Reads es command buf left = (read_message es ≡ message buf left) × (m_type buf ≡ command)

-- What a session that is open has taken from the server and sent to it: a challenge and the answer to
-- it, a status that accepts the answer, and the opening message.
abbrev pub Said : Os → List Event → Client → List Buffer → Type 0
Said os es client messages =
    (challenge status reply opening : Buffer) × (left left₂ : List Event) × Reads es
      vns_auth_request challenge left
    × Authenticates os challenge client reply
    × Reads left vns_auth_status status left₂
    × (load8 status base_size ≢ 0)
    × Opening client opening
    × (messages ≡ opening ∷ reply ∷ client.messages)

abbrev pub Greeted : Os → List Event → Client → Client → Type 0
Greeted os es client after = (after.sr ≡ client.sr) × Said os es client after.messages

accepted : (status : Buffer) → sr_handle_auth_status status ≡ some true → load8 status base_size ≢ 0
unfolding sr_handle_auth_status
accepted status e =
    let (_, f) =
      require_parts (leb (base_size + 1) (length status)) (some (not (load8 status base_size == 0)))
        true e in
    ground arith

-- The opening message is that of the client before the answer was sent.
Opening-messages :
    (client : Client) (messages : List Buffer) (buf : Buffer)
    → Opening (record client { messages = messages }) buf
    → Opening client buf
Opening-messages client messages buf (name, n, m) =
    (name, n, sym (opening_message-messages client messages (ltb 0 (length name))) ∙ m)

negotiate-Greeted :
    (os : Os) (client after : Client) (es rest : List Event)
    → negotiate os client es ≡ connected after rest
    → Greeted os es client after
negotiate-Greeted os client after es rest e =
    let (asked, told, left, left₂, s, s₂, f) = negotiate-parts os client after es rest e in
    let (challenge, came, kind, went) =
      expected-handled os vns_auth_request client asked es left (omega arith) s in
    let (reply, proven, sent) =
      on_command-auth_request os (os.time left) client asked challenge kind went in
    let (status, came₂, kind₂, went₂) =
      expected-handled os vns_auth_status asked told left left₂ (omega arith) s₂ in
    let (ok, same) = on_command-auth_status os (os.time left₂) asked told status kind₂ went₂ in
    let (opening, proper, sr, said) =
      subst (λ c. Opened c after) (same ∙ sent) (send_open-Opened os told after left₂ rest f) in
    (
      sr,
      (
        challenge,
        status,
        reply,
        opening,
        left,
        left₂,
        (came, kind),
        proven,
        (came₂, kind₂),
        accepted status ok,
        Opening-messages client _ opening proper,
        said,
      ),
    )

-- Where the connection succeeds, the first message read from the server is a challenge and the second
-- a status with a flag other than 0. The router has answered the challenge with its user's name and
-- the hash of the challenge's salt followed by the key of the key file, and has then sent the opening
-- message for its template or, without one, its topology; it has sent no other message, and the state
-- of the router itself is what it was.
pub sr_connect_to_server-Greeted :
    (os : Os) (client after : Client) (es rest : List Event)
    → sr_connect_to_server os client es ≡ connected after rest
    → Greeted os es client after
unfolding sr_connect_to_server
sr_connect_to_server-Greeted os client after es rest e = by_reach os.reaches e
  where
    by_reach :
        (b : Bool)
        → (if b then negotiate os client es else not_connected client) ≡ connected after rest
        → Greeted os es client after
    by_reach true f = negotiate-Greeted os client after es rest f
    by_reach false f = absurd (cc f)
