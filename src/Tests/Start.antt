-- ===== src/Tests/Start.antt =====
-- Start-up.
use cscd58_nat.Base.{
  ℕ, ◌-◌, ◌*◌, ◌^◌, ◌≡◌, refl, List, [], ◌∷◌, Option, none, some, ◌==◌, if◌then◌else◌, map, load8,
  load16, load32, store16, store32, ntohl, ntohs,
}
use cscd58_nat.Rt.{sr_add_rt_entry}
use cscd58_nat.Rt.Load.{Reader, Row, loaded, row_of, load_lines, sr_load_rt}
use cscd58_nat.Rt.Load.Lines.{Gives, entry_of, sr_load_rt-rows}
use cscd58_nat.Vns.Message.{c_string}
use cscd58_nat.Vns.Client.{Client}
use cscd58_nat.Vns.Socket.{Event, read_bytes, read_message}
use cscd58_nat.Vns.Session.{sr_handle_auth_request, send_reply, sr_handle_auth_status}
use cscd58_nat.Vns.Command.{on_command, handle_command, sr_read_from_server_expect}
use cscd58_nat.Vns.Connect.{
  open_message, open_template_message, opening_message, after_opening, send_open, negotiate,
  sr_connect_to_server,
}
use cscd58_nat.Main.Options.{
  Options, Opt, nat, port, default_options, set_option, set_options, SameTimeouts,
  set_options-SameTimeouts,
}
use cscd58_nat.Main.Loop.{Ended, main_loop}
use cscd58_nat.Main.Start.{
  Disk, sr_init_instance, sr_init, looped, sr_load_rt_wrap, set_up, open_session, main,
}
use cscd58_nat.Main.Started.{Fresh, main-Fresh}
use cscd58_nat.Tests.Data.{eth}
use cscd58_nat.Tests.Session.{fine, client, greeting}

-- Words between spaces, and addresses of one digit.
abbrev push : ℕ → List (List ℕ) → List (List ℕ)
push x [] = (x ∷ []) ∷ []
push x (w ∷ ws) = (x ∷ w) ∷ ws

abbrev split : List ℕ → List (List ℕ)
split [] = []
split (x ∷ xs) = if x == 32 then [] ∷ split xs else push x (split xs)

abbrev digit : List ℕ → Option ℕ
digit [] = none
digit (x ∷ []) = some ((x - 48) * 2 ^ 24)
digit (x ∷ y ∷ xs) = none

abbrev reader : Reader
reader = record { sscanf = split; inet_aton = digit }

-- "8 7 6 eth" and "1 2 3 eth"
abbrev line : List ℕ
line = 56 ∷ 32 ∷ 55 ∷ 32 ∷ 54 ∷ 32 ∷ eth

abbrev line₂ : List ℕ
line₂ = 49 ∷ 32 ∷ 50 ∷ 32 ∷ 51 ∷ 32 ∷ eth

abbrev row : Row
row = record { dest_addr = 8 * 2 ^ 24; gw_addr = 7 * 2 ^ 24; mask_addr = 6 * 2 ^ 24; if_name = eth }

abbrev row₂ : Row
row₂ = record {
  dest_addr = 1 * 2 ^ 24;
  gw_addr = 2 * 2 ^ 24;
  mask_addr = 3 * 2 ^ 24;
  if_name = eth;
}

line-Gives : Gives reader line row
line-Gives = (56 ∷ [], 55 ∷ [], 54 ∷ [], refl, refl, refl, refl, refl)

line₂-Gives : Gives reader line₂ row₂
line₂-Gives = (49 ∷ [], 50 ∷ [], 51 ∷ [], refl, refl, refl, refl, refl)

sr_load_rt-rows_example :
    sr_load_rt reader [] (some (line ∷ line₂ ∷ [])) ≡ some (loaded (map entry_of (row ∷ row₂ ∷ [])))
sr_load_rt-rows_example =
    sr_load_rt-rows reader [] line (line₂ ∷ []) row (row₂ ∷ []) (line-Gives, (line₂-Gives, tt))

-- -n -p 9
abbrev given : List Opt
given = nat ∷ port (57 ∷ []) ∷ []

set : (o : Options) × (set_options (λ _. 9) default_options given ≡ some o)
unfolding set_options set_option
set = (_, refl)

set_options-SameTimeouts_example : SameTimeouts default_options set.0
set_options-SameTimeouts_example =
    set_options-SameTimeouts (λ _. 9) default_options set.0 given (tt, (tt, tt)) set.1

abbrev disk : Disk
disk = record { reader = reader; lines = λ _ _. some (line ∷ []); login = some (97 ∷ []) }

ran : (e : Ended) × (main 100 fine disk default_options client greeting ≡ looped e)
unfolding main set_up open_session sr_load_rt_wrap sr_load_rt load_lines row_of sr_add_rt_entry
    sr_init main_loop sr_connect_to_server negotiate send_open after_opening opening_message
    open_message open_template_message sr_read_from_server_expect read_message read_bytes
    handle_command on_command sr_handle_auth_request send_reply sr_handle_auth_status c_string
    store32 store16 load8 load32 load16 ntohl ntohs
ran = (_, refl)

main-Fresh_example :
    (started : Client) × (rest : List Event) × (looped (main_loop 100 fine started rest)
      ≡ looped ran.0)
    × Fresh fine disk default_options greeting
        (sr_init_instance client default_options.nat_enabled)
        started
main-Fresh_example = main-Fresh 100 fine disk default_options client greeting ran.0 ran.1
