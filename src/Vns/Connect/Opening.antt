-- ===== src/Vns/Connect/Opening.antt =====
-- The opening message of a session.
use cscd58_nat.Base.{
  ℕ, ◌+◌, ◌≡◌, ◌≢◌, refl, sym, ap, ◌∙◌, inl, inr, List, ◌∷◌, some, Bool, true, false, ltb, leb,
  length, if◌then◌else◌, Buffer, drop, arith, Bool-cases, Option-cases, ◌++◌, bind_parts,
  require_parts,
}
use cscd58_nat.Vns.Message.{m_type, base_size, idsize, c_string, vns_rtable, string_in}
use cscd58_nat.Vns.Client.{Client, Os}
use cscd58_nat.Vns.Session.{rtable_prefix, write_rtable, sr_handle_rtable}
use cscd58_nat.Vns.Socket.{Event, message, read_message}
use cscd58_nat.Vns.Command.{
  goes_on, closed, aborted, Served, returned, faulted, spun, stalled, on_command,
  sr_read_from_server_expect,
}
use cscd58_nat.Vns.Connect.{
  open_message, open_template_message, opening_message, after_opening, Connected, connected, need,
  send_open,
}
use cscd58_nat.Vns.Connect.Order.{returned-message, handle_command-expected}

-- Only files are added.
abbrev SameBut : Client → Client → Type 0
SameBut client after = (after.sr ≡ client.sr) × (after.messages ≡ client.messages)

write_rtable-SameBut :
    (os : Os) (client after : Client) (buf : Buffer) (fn : List ℕ) (ok : Bool)
    → write_rtable os client buf fn ≡ some (ok, after)
    → SameBut client after
unfolding write_rtable
write_rtable-SameBut os client after buf fn ok e = elim (Bool-cases (os.writable fn)) [
  | inl t ↦ elim (Bool-cases (leb 40 (length buf))) [
    | inl l ↦ let h = rw (t, l) at e in (cc h, cc h)
    | inr l ↦ absurd (cc (rw (t, l) at e))
  ]
  | inr t ↦ let h = rw t at e in (cc h, cc h)
]

sr_handle_rtable-SameBut :
    (os : Os) (client after : Client) (buf : Buffer) (ok : Bool)
    → sr_handle_rtable os client buf ≡ some (ok, after)
    → SameBut client after
unfolding sr_handle_rtable
sr_handle_rtable-SameBut os client after buf ok e =
    let (id, _, f) = bind_parts (c_string (idsize + 1) (drop base_size buf)) _ _ e in
    let (_, g) = require_parts (leb (length id) idsize) _ _ f in
    write_rtable-SameBut os client after buf (rtable_prefix ++ id) ok g

pub on_command-rtable :
    (os : Os) (now : ℕ) (client after : Client) (buf : Buffer)
    → m_type buf ≡ vns_rtable
    → on_command os client buf now ≡ some (goes_on, after)
    → SameBut client after
unfolding on_command
on_command-rtable os now client after buf m e =
    elim (Option-cases (sr_handle_rtable os client buf)) [
      | inl n ↦ absurd (cc (rw (m, n) at e))
      | inr ((true, c), n) ↦
          let f = rw (m, n) at e in
          sr_handle_rtable-SameBut os client after buf true (n ∙ ap (λ x. some (true, x)) (cc f))
      | inr ((false, c), n) ↦ absurd (cc (rw (m, n) at e))
    ]

-- A step that was needed went well.
pub need-connected :
    (s : Served) (next : Client → List Event → Connected) (after : Client) (rest : List Event)
    → need s next ≡ connected after rest
    → (mid : Client) × (left : List Event) × (s ≡ returned goes_on mid left)
      × (next mid left ≡ connected after rest)
need-connected (returned goes_on mid left) next after rest e = (mid, left, refl, e)
need-connected (returned closed mid left) next after rest e = absurd (cc e)
need-connected (returned aborted mid left) next after rest e = absurd (cc e)
need-connected faulted next after rest e = absurd (cc e)
need-connected spun next after rest e = absurd (cc e)
need-connected stalled next after rest e = absurd (cc e)

-- The command that was expected has been handled.
pub expected-handled :
    (os : Os) (cmd : ℕ) (client after : Client) (es rest : List Event)
    → cmd ≢ 0
    → sr_read_from_server_expect os cmd client es ≡ returned goes_on after rest
    → (buf : Buffer) × (read_message es ≡ message buf rest)
      × (m_type buf ≡ cmd)
      × (on_command os client buf (os.time rest) ≡ some (goes_on, after))
expected-handled os cmd client after es rest nz e =
    let (buf, came, handled) = returned-message os cmd client after es rest e in
    let (kind, went) = handle_command-expected os cmd (os.time rest) client after buf nz handled in
    (buf, came, kind, went)

-- The opening message: for the template where it has a name, and otherwise for the topology.
abbrev pub Opening : Client → Buffer → Type 0
Opening client buf =
    (name : List ℕ) × (string_in client.vm_template ≡ some name)
    × (opening_message client (ltb 0 (length name)) ≡ some buf)

after_opening-SameBut :
    (os : Os) (client after : Client) (es rest : List Event) (from_template : Bool) (buf : Buffer)
    → after_opening os client es from_template buf ≡ connected after rest
    → SameBut (record client { messages = buf ∷ client.messages }) after
unfolding after_opening
after_opening-SameBut os client after es rest from_template buf e =
    elim (Bool-cases (os.sends buf)) [
      | inl t ↦ by_template from_template (rw t at e)
      | inr t ↦ absurd (cc (rw t at e))
    ]
  where
    opened : Client
    opened = record client { messages = buf ∷ client.messages }

    by_template :
        (b : Bool)
        → (if b
            then need (sr_read_from_server_expect os vns_rtable opened es) connected
            else connected opened es)
          ≡ connected after rest
        → SameBut opened after
    by_template true f =
        let (mid, left, s, g) =
          need-connected (sr_read_from_server_expect os vns_rtable opened es) connected after rest
            f in
        let (m, _, kind, went) =
          expected-handled os vns_rtable opened mid es left (omega arith) s in
        let same = on_command-rtable os (os.time left) opened mid m kind went in
        let q : mid ≡ after = cc g in
        (
          sym (ap (λ (c : Client). c.sr) q) ∙ same.0,
          sym (ap (λ (c : Client). c.messages) q) ∙ same.1,
        )
    by_template false f = (cc f, cc f)

-- The opening message is sent, and then at most files are written.
abbrev pub Opened : Client → Client → Type 0
Opened client after =
    (buf : Buffer) × Opening client buf
    × (after.sr ≡ client.sr)
    × (after.messages ≡ buf ∷ client.messages)

pub send_open-Opened :
    (os : Os) (client after : Client) (es rest : List Event)
    → send_open os client es ≡ connected after rest
    → Opened client after
unfolding send_open
send_open-Opened os client after es rest e = elim (Option-cases (string_in client.vm_template)) [
  | inl n ↦ absurd (cc (rw (n, send_open) at e))
  | inr (name, n) ↦
      let f = rw (n, send_open) at e in
      elim (Option-cases (opening_message client (ltb 0 (length name)))) [
        | inl m ↦ absurd (cc (rw m at f))
        | inr (buf, m) ↦
            let same = after_opening-SameBut os client after es rest _ buf (rw m at f) in
            (buf, (name, n, m), same.0, same.1)
      ]
]

-- What was said before does not matter to the opening message.
pub opening_message-messages :
    (client : Client) (messages : List Buffer) (from_template : Bool)
    → opening_message (record client { messages = messages }) from_template
      ≡ opening_message client from_template
unfolding opening_message open_message open_template_message
opening_message-messages client messages true = refl
opening_message-messages client messages false = refl
