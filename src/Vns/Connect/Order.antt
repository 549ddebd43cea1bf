-- ===== src/Vns/Connect/Order.antt =====
-- In which order the session is opened.
use cscd58_nat.Base.{
  ℕ, ◌≡◌, ◌≢◌, ◌⊎◌, inl, inr, refl, ap, ◌∙◌, List, some, true, false, Buffer, arith, Bool-cases,
  Option-cases,
}
use cscd58_nat.Vns.Message.{m_type, vnsclose, vns_auth_request, vns_auth_status}
use cscd58_nat.Vns.Client.{Client, Os}
use cscd58_nat.Vns.Session.{sr_handle_auth_request, sr_handle_auth_status}
use cscd58_nat.Vns.Session.Reply.{Replied, sr_handle_auth_request-sent}
use cscd58_nat.Vns.Socket.{Event, Received, message, broken, fault, spinning, waiting, read_message}
use cscd58_nat.Vns.Command.{
  goes_on, closed, aborted, returned, faulted, spun, stalled, served, unexpected, on_command,
  handle_command, sr_read_from_server_expect,
}

-- A call that goes on has handled one message.
pub returned-message :
    (os : Os) (cmd : ℕ) (client after : Client) (es rest : List Event)
    → sr_read_from_server_expect os cmd client es ≡ returned goes_on after rest
    → (buf : Buffer) × (read_message es ≡ message buf rest)
      × (handle_command os cmd client buf (os.time rest) ≡ some (goes_on, after))
unfolding sr_read_from_server_expect
returned-message os cmd client after es rest e = by_read (read_message es) refl e
  where
    by_read :
        (r : Received)
        → read_message es ≡ r
        → (elim r [
          | message buf rest ↦ served (handle_command os cmd client buf (os.time rest)) rest
          | broken rest ↦ returned aborted client rest
          | fault ↦ faulted
          | spinning ↦ spun
          | waiting ↦ stalled
        ])
          ≡ returned goes_on after rest
        → (buf : Buffer) × (read_message es ≡ message buf rest)
          × (handle_command os cmd client buf (os.time rest) ≡ some (goes_on, after))
    by_read (message buf left) r f =
        elim (Option-cases (handle_command os cmd client buf (os.time left))) [
          | inl n ↦ absurd (cc (rw n at f))
          | inr ((status, c), n) ↦
              let g = rw n at f in
              let same : left ≡ rest = cc g in (buf, r ∙ ap (message buf) same, ground arith)
        ]
    by_read (broken left) r f = absurd (cc f)
    by_read fault r f = absurd (cc f)
    by_read spinning r f = absurd (cc f)
    by_read waiting r f = absurd (cc f)

close_command :
    (os : Os) (now : ℕ) (client : Client) (buf : Buffer)
    → m_type buf ≡ vnsclose
    → on_command os client buf now ≡ some (closed, client)
unfolding on_command
close_command os now client buf e = rw e refl

expected-cases :
    (cmd command : ℕ)
    → cmd ≢ 0
    → unexpected cmd command ≡ false
    → (command ≡ cmd) ⊎ (command ≡ vnsclose)
expected-cases cmd command nz f = ground arith

-- While a command is expected, the router goes on from a message only if it is that command.
pub handle_command-expected :
    (os : Os) (cmd now : ℕ) (client after : Client) (buf : Buffer)
    → cmd ≢ 0
    → handle_command os cmd client buf now ≡ some (goes_on, after)
    → (m_type buf ≡ cmd) × (on_command os client buf now ≡ some (goes_on, after))
unfolding handle_command
handle_command-expected os cmd now client after buf nz e =
    elim (Bool-cases (unexpected cmd (m_type buf))) [
      | inl t ↦ absurd (cc (rw t at e))
      | inr f ↦
          let went : on_command os client buf now ≡ some (goes_on, after) = rw f at e in
          elim (expected-cases cmd (m_type buf) nz f) [
            | inl same ↦ (same, went)
            | inr close ↦ absurd (cc (went, close_command os now client buf close))
          ]
    ]

pub on_command-auth_request :
    (os : Os) (now : ℕ) (client after : Client) (buf : Buffer)
    → m_type buf ≡ vns_auth_request
    → on_command os client buf now ≡ some (goes_on, after)
    → Replied os buf client after
unfolding on_command
on_command-auth_request os now client after buf m e =
    elim (Option-cases (sr_handle_auth_request os client buf)) [
      | inl n ↦ absurd (cc (rw (m, n) at e))
      | inr ((true, c), n) ↦
          let f = rw (m, n) at e in
          sr_handle_auth_request-sent os client after buf (n ∙ ap (λ x. some (true, x)) (cc f))
      | inr ((false, c), n) ↦ absurd (cc (rw (m, n) at e))
    ]

pub on_command-auth_status :
    (os : Os) (now : ℕ) (client after : Client) (buf : Buffer)
    → m_type buf ≡ vns_auth_status
    → on_command os client buf now ≡ some (goes_on, after)
    → (sr_handle_auth_status buf ≡ some true) × (after ≡ client)
unfolding on_command
on_command-auth_status os now client after buf m e =
    elim (Option-cases (sr_handle_auth_status buf)) [
      | inl n ↦ absurd (cc (rw (m, n) at e))
      | inr (true, n) ↦ let f = rw (m, n) at e in (n, cc f)
      | inr (false, n) ↦ absurd (cc (rw (m, n) at e))
    ]
