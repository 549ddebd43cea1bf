-- ===== src/Main/Started.antt =====
-- The state in which the main loop starts.
use cscd58_nat.Base.{
  ℕ, ◌≡◌, refl, ap, ◌∙◌, List, Option, none, some, set, inl, inr, Option-cases, ◌%◌, ◌^◌,
}
use cscd58_nat.Arp.{sr_arpcache_init}
use cscd58_nat.Nat.Table.Invariant.{IsValid, sr_nat_init-IsValid}
use cscd58_nat.Rt.{RtEntry}
use cscd58_nat.Rt.Load.{Loaded, loaded, refused, sr_load_rt}
use cscd58_nat.Instance.{Sr}
use cscd58_nat.Vns.Message.{strncpy}
use cscd58_nat.Vns.Client.{Client, Os}
use cscd58_nat.Vns.Socket.{Event}
use cscd58_nat.Vns.Connect.{
  Connected, connected, not_connected, crashed, hung, blocked, sr_connect_to_server,
}
use cscd58_nat.Vns.Connect.Handshake.{Said, sr_connect_to_server-Greeted}
use cscd58_nat.Main.Options.{Options}
use cscd58_nat.Main.Loop.{Ended, main_loop}
use cscd58_nat.Main.Start.{
  Disk, sr_init_instance, sr_init, Exit, exits, looped, faults, hangs, waits, sr_load_rt_wrap,
  sr_set_user, named, set_up, table_name, initialised, open_session, main,
}

abbrev with_table : Client → List RtEntry → Client
with_table client table = record client { sr = record (client.sr) { routing_table = table } }

-- Where the program comes to its main loop, the table has been loaded.
sr_load_rt_wrap-looped :
    (disk : Disk) (client : Client) (name : List ℕ) (next : Client → Exit) (e : Ended)
    → sr_load_rt_wrap disk client name next ≡ looped e
    → (table : List RtEntry) × (next (with_table client table) ≡ looped e)
unfolding sr_load_rt_wrap
sr_load_rt_wrap-looped disk client name next e h =
    by_load (sr_load_rt disk.reader client.sr.routing_table (disk.lines client.files name)) h
  where
    by_load :
        (l : Option Loaded)
        → (elim l [
          | none ↦ faults
          | some (refused table) ↦ exits 1
          | some (loaded table) ↦ next (with_table client table)
        ])
          ≡ looped e
        → (table : List RtEntry) × (next (with_table client table) ≡ looped e)
    by_load none f = absurd (cc f)
    by_load (some (refused table)) f = absurd (cc f)
    by_load (some (loaded table)) f = (table, f)

-- The client that connects: set up from the options, and otherwise as it was.
abbrev pub IsSetUp : Disk → Options → Client → Client → Type 0
IsSetUp disk o before ready =
    (ready.user ≡ elim o.user [ none ↦ sr_set_user disk | some user ↦ strncpy 32 user ])
    × (ready.host ≡ strncpy 32 o.host)
    × (ready.topo_id ≡ o.topo % 2 ^ 16)
    × (ready.vm_template
        ≡ elim o.vm_template [ none ↦ set before.vm_template 0 0 | some name ↦ strncpy 30 name ])
    × (ready.messages ≡ before.messages)
    × (ready.sr.if_list ≡ before.sr.if_list)
    × (ready.sr.nat_enabled ≡ before.sr.nat_enabled)

-- The router that the main loop starts with.
abbrev pub FreshRouter : Sr → Sr → Type 0
FreshRouter before started =
    IsValid started.nat
    × (started.cache ≡ sr_arpcache_init)
    × (started.if_list ≡ before.if_list)
    × (started.nat_enabled ≡ before.nat_enabled)

-- What the main loop starts with, and what has been said by then.
abbrev pub Fresh : Os → Disk → Options → List Event → Client → Client → Type 0
Fresh os disk o es before started =
    FreshRouter before.sr started.sr
    × ((ready : Client) × IsSetUp disk o before ready × Said os es ready started.messages)

open_session-FreshRouter :
    (os : Os) (disk : Disk) (o : Options) (client : Client) (es : List Event)
    (next : Client → List Event → Exit) (e : Ended)
    → open_session os disk o client es next ≡ looped e
    → (started : Client) × (rest : List Event) × (next started rest ≡ looped e)
      × FreshRouter client.sr started.sr
      × Said os es client started.messages
unfolding open_session sr_init
open_session-FreshRouter os disk o client es next e h =
    by_session (sr_connect_to_server os client es) refl h
  where
    by_session :
        (c : Connected)
        → sr_connect_to_server os client es ≡ c
        → (elim c [
          | connected after rest ↦
              sr_load_rt_wrap disk after (table_name o) (λ c. next (initialised o c) rest)
          | not_connected after ↦ exits 1
          | crashed ↦ faults
          | hung ↦ hangs
          | blocked ↦ waits
        ])
          ≡ looped e
        → (started : Client) × (rest : List Event) × (next started rest ≡ looped e)
          × FreshRouter client.sr started.sr
          × Said os es client started.messages
    by_session (connected after rest) s f =
        let (same, said) = sr_connect_to_server-Greeted os client after es rest s in
        let (table, g) =
          sr_load_rt_wrap-looped disk after (table_name o) (λ c. next (initialised o c) rest) e f in
        (
          initialised o (with_table after table),
          rest,
          g,
          (
            sr_nat_init-IsValid after.sr.nat o.icmp_query_to o.tcp_estab_idle_to
                o.tcp_transitory_to,
            refl,
            ap (λ (x : Sr). x.if_list) same,
            ap (λ (x : Sr). x.nat_enabled) same,
          ),
          said,
        )
    by_session (not_connected after) s f = absurd (cc f)
    by_session crashed s f = absurd (cc f)
    by_session hung s f = absurd (cc f)
    by_session blocked s f = absurd (cc f)

set_up-IsSetUp :
    (disk : Disk) (o : Options) (client : Client) (next : Client → Exit) (e : Ended)
    → set_up disk o client next ≡ looped e
    → (ready : Client) × (next ready ≡ looped e) × IsSetUp disk o client ready
unfolding set_up
set_up-IsSetUp disk o client next e h = elim (Option-cases o.vm_template) [
  | inl n ↦
      let (table, g) =
        sr_load_rt_wrap-looped disk without o.rtable (λ c. next (named disk o c)) e (rw n at h) in
      (named disk o (with_table without table), g, (refl, refl, refl, rw n refl, refl, refl, refl))
  | inr (name, n) ↦ (
    named disk o (record client { vm_template = strncpy 30 name }),
    rw n at h,
    (refl, refl, refl, rw n refl, refl, refl, refl),
  )
]
  where
    without : Client
    without = record client { vm_template = set client.vm_template 0 0 }

-- Where the program comes to its main loop, the loop starts with a valid mapping table, an empty ARP
-- cache, no interfaces yet and the NAT switched on or off as the options say. The first message read
-- from the server was a challenge and the second a status with a flag other than 0. Exactly two
-- messages have been sent: the answer to the challenge, with the user's name and the hash of the
-- challenge's salt followed by the key of the key file, and then the opening message for the template
-- or, without one, the topology; user, host, topology and template are those of the options, and the
-- user is the one that runs the program where no option gives one.
pub main-Fresh :
    (fuel : ℕ) (os : Os) (disk : Disk) (o : Options) (memory : Client) (es : List Event) (e : Ended)
    → main fuel os disk o memory es ≡ looped e
    → (started : Client) × (rest : List Event) × (looped (main_loop fuel os started rest)
        ≡ looped e)
      × Fresh os disk o es (sr_init_instance memory o.nat_enabled) started
unfolding main
main-Fresh fuel os disk o memory es e h =
    let client = sr_init_instance memory o.nat_enabled in
    let (ready, f, is) =
      set_up-IsSetUp disk o client
        (λ c. open_session os disk o c es (λ started rest. looped (main_loop fuel os started rest)))
        e h in
    let (started, rest, g, (ok, empty, ifs, nat), said) =
      open_session-FreshRouter os disk o ready es
        (λ started rest. looped (main_loop fuel os started rest)) e f in
    let (_, _, _, _, _, ifs', nat') = is in
    (started, rest, g, ((ok, empty, ifs ∙ ifs', nat ∙ nat'), (ready, is, said)))
