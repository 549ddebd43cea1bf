-- ===== src/Main/Start.antt =====
-- `main` of router/sr_main.c after the options, with `sr_init_instance`, `sr_set_user` and
-- `sr_load_rt_wrap`, and `sr_init` of router/sr_router.c. The threads that `sr_init` starts are left
-- out.
use cscd58_nat.Base.{
  ℕ, ◌%◌, ◌^◌, List, [], ◌∷◌, Option, none, some, Bool, if◌then◌else◌, Buffer, set,
}
use cscd58_nat.Arp.{sr_arpcache_init}
use cscd58_nat.Nat.Table.{sr_nat_init}
use cscd58_nat.Rt.Load.{Reader, loaded, refused, sr_load_rt}
use cscd58_nat.Instance.{Sr}
use cscd58_nat.Send.{same_bytes}
use cscd58_nat.Vns.Message.{strncpy}
use cscd58_nat.Vns.Client.{File, Client, Os}
use cscd58_nat.Vns.Socket.{Event}
use cscd58_nat.Vns.Connect.{connected, not_connected, crashed, hung, blocked, sr_connect_to_server}
use cscd58_nat.Main.Options.{Options}
use cscd58_nat.Main.Loop.{Ended, main_loop}

-- The files: what `fgets` returns for the file of a name, one line after the other, once the
-- program has written the files of the list; `none` where it cannot be read. `login` is what
-- `getpwuid` finds.
pub record Disk : Type 0 where
  pub reader : Reader
  pub lines : List File → List ℕ → Option (List (List ℕ))
  pub login : Option (List ℕ)

-- "something_silly"
abbrev pub something_silly : List ℕ
something_silly =
    115 ∷ 111 ∷ 109 ∷ 101 ∷ 116 ∷ 104 ∷ 105 ∷ 110 ∷ 103 ∷ 95 ∷ 115 ∷ 105 ∷ 108 ∷ 108 ∷ 121 ∷ []

-- "rtable.vrhost"
abbrev pub rtable_vrhost : List ℕ
rtable_vrhost = 114 ∷ 116 ∷ 97 ∷ 98 ∷ 108 ∷ 101 ∷ 46 ∷ 118 ∷ 114 ∷ 104 ∷ 111 ∷ 115 ∷ 116 ∷ []

-- The instance is a variable of `main`: what is not set is what was in the memory. Nothing has been
-- sent or written.
abbrev pub sr_init_instance : Client → Bool → Client
sr_init_instance client nat_enabled = record client {
  user = set client.user 0 0;
  host = set client.host 0 0;
  topo_id = 0;
  sr = record (client.sr) {
    if_list = [];
    routing_table = [];
    nat_enabled = nat_enabled;
    sent = [];
  };
  messages = [];
  files = [];
}

unfoldable pub sr_init : Sr → ℕ → ℕ → ℕ → Sr
sr_init sr icmp_query_to tcp_estab_idle_to tcp_transitory_to = record sr {
  cache = sr_arpcache_init;
  nat = sr_nat_init sr.nat icmp_query_to tcp_estab_idle_to tcp_transitory_to;
}

-- How the program ends: with a status, in the main loop, or in a call that faults, hangs or waits.
pub data Exit : Type 0 where
  exits : ℕ → Exit
  looped : Ended → Exit
  faults hangs waits : Exit

-- `sr_load_rt_wrap`, and what comes after it.
unfoldable pub sr_load_rt_wrap : Disk → Client → List ℕ → (Client → Exit) → Exit
unfolding sr_load_rt
sr_load_rt_wrap disk client name next =
    elim (sr_load_rt disk.reader client.sr.routing_table (disk.lines client.files name)) [
      | none ↦ faults
      | some (refused table) ↦ exits 1
      | some (loaded table) ↦
          next (record client { sr = record (client.sr) { routing_table = table } })
    ]

-- The user that runs the program.
abbrev pub sr_set_user : Disk → Buffer
sr_set_user disk = elim disk.login [
  | none ↦ strncpy 32 something_silly
  | some pw_name ↦ strncpy 32 pw_name
]

-- `topo_id` is an unsigned short.
abbrev pub named : Disk → Options → Client → Client
named disk o client = record client {
  topo_id = o.topo % 2 ^ 16;
  host = strncpy 32 o.host;
  user = elim o.user [ none ↦ sr_set_user disk | some user ↦ strncpy 32 user ];
}

-- The template, or else the routing table.
unfoldable pub set_up : Disk → Options → Client → (Client → Exit) → Exit
unfolding sr_load_rt_wrap
set_up disk o client next = elim o.vm_template [
  | none ↦
      sr_load_rt_wrap disk (record client { vm_template = set client.vm_template 0 0 }) o.rtable
        (λ c. next (named disk o c))
  | some name ↦ next (named disk o (record client { vm_template = strncpy 30 name }))
]

-- `template != NULL && strcmp(rtable, "rtable.vrhost") == 0`
abbrev pub table_name : Options → List ℕ
table_name o = elim o.vm_template [
  | none ↦ o.rtable
  | some name ↦ if same_bytes o.rtable rtable_vrhost then rtable_vrhost else o.rtable
]

abbrev pub initialised : Options → Client → Client
initialised o client = record client {
  sr = sr_init client.sr o.icmp_query_to o.tcp_estab_idle_to o.tcp_transitory_to;
}

-- The session, the routing table, and what comes after `sr_init`.
unfoldable pub open_session :
    Os → Disk → Options → Client → List Event → (Client → List Event → Exit) → Exit
unfolding sr_connect_to_server sr_load_rt_wrap sr_init same_bytes
open_session os disk o client es next = elim (sr_connect_to_server os client es) [
  | connected after rest ↦
      sr_load_rt_wrap disk after (table_name o) (λ c. next (initialised o c) rest)
  | not_connected after ↦ exits 1
  | crashed ↦ faults
  | hung ↦ hangs
  | blocked ↦ waits
]

-- `main` after the options; `memory` is what the variable `sr` holds at first.
unfoldable pub main : ℕ → Os → Disk → Options → Client → List Event → Exit
unfolding set_up open_session main_loop
main fuel os disk o memory es = set_up disk o (sr_init_instance memory o.nat_enabled) λ client.
    open_session os disk o client es λ started rest. looped (main_loop fuel os started rest)
