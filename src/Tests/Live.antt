-- ===== src/Tests/Live.antt =====
-- A run of the router: a message, and a round of each thread.
use cscd58_nat.Base.{
  ◌≡◌, refl, Option, some, List, [], ◌∷◌, ◌++◌, replicate, load8, load16, load32, store16, store32,
  ntohl, ntohs,
}
use cscd58_nat.Send.{same_bytes, sr_arp_req_not_for_us}
use cscd58_nat.Router.Handle.{sr_handlepacket, wrong_destination, handle_payload}
use cscd58_nat.Vns.Message.{c_string}
use cscd58_nat.Vns.Command.{
  goes_on, returned, on_packet, sr_read_from_server, on_command, handle_command,
  sr_read_from_server_expect,
}
use cscd58_nat.Tests.Data.{one_nat, eth, router}
use cscd58_nat.If.{strncmp_eq, sr_get_interface}
use cscd58_nat.Rt.{RtEntry, sr_rt_lookup}
use cscd58_nat.Arp.{sr_arpcache_init, expire_entries}
use cscd58_nat.Nat.Table.{sr_nat_init, sr_nat_insert_mapping}
use cscd58_nat.Instance.{Sr}
use cscd58_nat.Router.Periodic.{
  arpcache_round, sr_arpcache_sweepreqs, sweep_requests, nat_round, expire_unsolicited,
}
use cscd58_nat.Vns.Client.{Client}
use cscd58_nat.Vns.Socket.{Event, bytes, read_bytes, read_message}
use cscd58_nat.Vns.Command.Keeps.{Serves}
use cscd58_nat.Main.Verify.{
  sr_verify_routing_table, verify_lists, verify_loop, interface_exists, Known,
}
use cscd58_nat.Main.System.{
  Run, stop, tick, message, arp_timeout, nat_timeout, Run-Serves, found_routes_lead,
}
use cscd58_nat.Tests.Table.{one-IsValid, one-HasRoom}
use cscd58_nat.Tests.Session.{fine, client}

-- A frame of 14 bytes for the interface "eth", of an unknown type.
abbrev framed : List Event
framed =
    bytes (
      0 ∷ 0 ∷ 0 ∷ 38 ∷ 0 ∷ 0 ∷ 0 ∷ 4 ∷ (eth ++ replicate 13 0)
      ++ (replicate 6 2 ++ (replicate 6 1 ++ 18 ∷ 52 ∷ [])))
    ∷ []

abbrev serving : Client
serving = record client { sr = router one_nat }

taken :
    (after : Client) × (rest : List Event) × (sr_read_from_server fine serving framed
      ≡ returned goes_on after rest)
unfolding sr_read_from_server_expect read_message read_bytes handle_command on_command on_packet
    sr_arp_req_not_for_us sr_handlepacket wrong_destination handle_payload sr_get_interface
    strncmp_eq same_bytes c_string store32 store16 load8 load32 load16 ntohl ntohs
taken = (_, _, refl)

-- After the message, the round of the ARP thread, and then that of the NAT's thread.
swept : (sr : Sr) × (arpcache_round taken.0.sr 20 ≡ some sr)
unfolding arpcache_round sr_arpcache_sweepreqs sweep_requests expire_entries sr_arpcache_init taken
swept = (_, refl)

aged : (sr : Sr) × (nat_round swept.0 100 ≡ some sr)
unfolding nat_round expire_unsolicited swept taken sr_nat_init sr_nat_insert_mapping
aged = (_, refl)

abbrev last : Client
last = record (taken.0) { sr = aged.0 }

lived : Run fine serving framed last taken.1
lived =
    tick (message taken.0 taken.1 one-HasRoom taken.2)
      (tick (arp_timeout swept.0 20 swept.1) (tick (nat_timeout aged.0 100 aged.1) stop))

Run-Serves_example : Serves serving.sr aged.0
Run-Serves_example = Run-Serves one-IsValid lived

all_there : sr_verify_routing_table serving.sr ≡ 0
unfolding sr_verify_routing_table verify_lists verify_loop interface_exists strncmp_eq
all_there = refl

found_routes_lead_example :
    (o : Option RtEntry) × (sr_rt_lookup aged.0.routing_table 0x08080808 ≡ some o)
    × ((e : RtEntry) → o ≡ some e → Known aged.0.if_list e)
found_routes_lead_example = found_routes_lead 0x08080808 one-IsValid all_there lived
