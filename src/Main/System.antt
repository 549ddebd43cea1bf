-- ===== src/Main/System.antt =====
-- The router as it runs: the main loop of router/sr_main.c together with the threads
-- `sr_arpcache_timeout` of router/sr_arpcache.c and `sr_nat_timeout` of router/sr_nat.c. A message and
-- a round of a thread are one step each, in any order.
use cscd58_nat.Base.{ℕ, ◌≡◌, refl, ◌⊎◌, inl, inr, ◌∙◌, List, Option, some}
use cscd58_nat.Rt.{RtEntry, sr_rt_lookup}
use cscd58_nat.Instance.{Sr}
use cscd58_nat.Nat.Table.Invariant.{IsValid, HasRoom}
use cscd58_nat.Router.Periodic.{arpcache_round, nat_round}
use cscd58_nat.Router.Step.{Steps, done, more, Step, Steps-Keeps}
use cscd58_nat.Vns.Client.{Client, Os}
use cscd58_nat.Vns.Socket.{Event}
use cscd58_nat.Vns.Command.{goes_on, returned, sr_read_from_server}
use cscd58_nat.Vns.Command.Keeps.{Serves, sr_read_from_server-Serves}
use cscd58_nat.Main.Verify.{sr_verify_routing_table, Known, sr_verify_routing_table-lookup}

-- One step, from a state of the client and what is on the socket to the next ones. A message is
-- taken while some external id is free.
pub data Tick (os : Os) (client : Client) (es : List Event) : Client → List Event → Type 0 where
  message :
      (after : Client) (rest : List Event)
      → HasRoom client.sr.nat
      → sr_read_from_server os client es ≡ returned goes_on after rest
      → Tick os client es after rest
  arp_timeout :
      (sr : Sr) (now : ℕ)
      → arpcache_round client.sr now ≡ some sr
      → Tick os client es (record client { sr = sr }) es
  nat_timeout :
      (sr : Sr) (now : ℕ)
      → nat_round client.sr now ≡ some sr
      → Tick os client es (record client { sr = sr }) es

pub data Run (os : Os) : Client → List Event → Client → List Event → Type 0 where
  stop : {client : Client} {es : List Event} → Run os client es client es
  tick :
      {client next after : Client} {es es' rest : List Event}
      → Tick os client es next es'
      → Run os next es' after rest
      → Run os client es after rest

Steps-Serves : (before after : Sr) → IsValid before.nat → Steps before after → Serves before after
Steps-Serves before after v steps =
    let k = Steps-Keeps before after v steps in (k.0.1, k.0.2, k.1, inl k.0.0)

Tick-Serves :
    {os : Os} {client after : Client} {es rest : List Event}
    → IsValid client.sr.nat
    → Tick os client es after rest
    → Serves client.sr after.sr
Tick-Serves {os} {client} {es} v (message after rest room e) =
    sr_read_from_server-Serves os client after es rest v room e
Tick-Serves {client} v (arp_timeout sr now e) =
    Steps-Serves client.sr sr v
      (more client.sr sr sr (Step.arp_timeout client.sr sr now e) (done sr))
Tick-Serves {client} v (nat_timeout sr now e) =
    Steps-Serves client.sr sr v
      (more client.sr sr sr (Step.nat_timeout client.sr sr now e) (done sr))

-- The verification reads the interfaces and the routes only.
verified_again :
    (before after : Sr)
    → after.if_list ≡ before.if_list
    → after.routing_table ≡ before.routing_table
    → sr_verify_routing_table before ≡ 0
    → sr_verify_routing_table after ≡ 0
unfolding sr_verify_routing_table
verified_again before after is rt e = rw (is, rt) e

Serves-trans : (a b c : Sr) → Serves a b → Serves b c → Serves a c
Serves-trans a b c (rt, nat, v, ifs) (rt', nat', v', ifs') =
    (rt' ∙ rt, nat' ∙ nat, v', chained ifs ifs')
  where
    chained :
        (b.if_list ≡ a.if_list) ⊎ (sr_verify_routing_table b ≡ 0)
        → (c.if_list ≡ b.if_list) ⊎ (sr_verify_routing_table c ≡ 0)
        → (c.if_list ≡ a.if_list) ⊎ (sr_verify_routing_table c ≡ 0)
    chained x (inr ok) = inr ok
    chained (inl same) (inl same') = inl (same' ∙ same)
    chained (inr ok) (inl same') = inr (verified_again b c same' rt' ok)

-- From a state with a valid mapping table, every run of messages and timeout rounds in which some
-- external id is free whenever a message is taken keeps the routes and the NAT switch, ends with a valid table, and ends with the same interfaces or with routes that
-- are verified against the new ones.
pub Run-Serves :
    {os : Os} {client after : Client} {es rest : List Event}
    → IsValid client.sr.nat
    → Run os client es after rest
    → Serves client.sr after.sr
Run-Serves v stop = (refl, refl, v, inl refl)
Run-Serves {client} {after} v (tick {next} t rest) =
    let s = Tick-Serves v t in Serves-trans client.sr next.sr after.sr s (Run-Serves s.2 rest)

-- Once the routes have been verified, from a state with a valid mapping table, after every run of
-- messages and timeout rounds in which some external id is free whenever a message is taken, the
-- lookup of a route does not fail its assertion, and a route that it finds leads to an interface of
-- the router.
pub found_routes_lead :
    {os : Os} {client after : Client} {es rest : List Event} (ip : ℕ)
    → IsValid client.sr.nat
    → sr_verify_routing_table client.sr ≡ 0
    → Run os client es after rest
    → (o : Option RtEntry) × (sr_rt_lookup after.sr.routing_table ip ≡ some o)
      × ((e : RtEntry) → o ≡ some e → Known after.sr.if_list e)
found_routes_lead {client} {after} ip v ok r =
    sr_verify_routing_table-lookup after.sr ip (still_verified (Run-Serves v r))
  where
    still_verified : Serves client.sr after.sr → sr_verify_routing_table after.sr ≡ 0
    still_verified (rt, nat, v', inl same) = verified_again client.sr after.sr same rt ok
    still_verified (rt, nat, v', inr ok') = ok'
