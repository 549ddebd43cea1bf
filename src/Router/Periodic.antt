-- ===== src/Router/Periodic.antt =====
-- The rounds of the two timeout threads: `sr_arpcache_timeout` and `sr_arpcache_sweepreqs` of
-- router/sr_arpcache.c, and `sr_nat_timeout` of router/sr_nat.c.
use cscd58_nat.Base.{
  ℕ, ◌+◌, ◌^◌, ◌%◌, List, [], ◌∷◌, Option, none, some, Bool, true, false, leb, if◌then◌else◌,
  Buffer, replicate, map, ◌>>=◌,
}
use cscd58_nat.Proto.Arp
use cscd58_nat.Proto.Ip
use cscd58_nat.Proto.Icmp
use cscd58_nat.Rt.{sr_rt_lookup}
use cscd58_nat.Arp.{
  ArpReq, SrPacket, find_req, update_req, sr_arpreq_destroy, expire_entries, arpreq_to, arpreq_max,
}
use cscd58_nat.Nat.Types.{UnsolPkt, pkts, dangling, older, default_tcp_syn_to}
use cscd58_nat.Nat.Timeout.{timeout_mappings}
use cscd58_nat.Instance.{Sr}
use cscd58_nat.Router.Output.{sr_send_arp, sr_send_icmp}

-- `ether_broadcast_addr`
abbrev pub ether_broadcast_addr : Buffer
ether_broadcast_addr = replicate 6 0xFF

unfoldable pub unreachable_all : Sr → List SrPacket → Option Sr
unreachable_all sr [] = some sr
unreachable_all sr (p ∷ ps) = elim (sr_send_icmp sr p.buf p.sender Icmp.dstunreachable 1) [
  | none ↦ none
  | some sr' ↦ unreachable_all sr' ps
]

-- `req->packets->iface`
abbrev pub first_iface : List SrPacket → Option (List ℕ)
first_iface [] = none
first_iface (p ∷ ps) = some p.iface

abbrev pub count_sent : ℕ → ArpReq → ArpReq
count_sent now r = record r { sent = now; times_sent = (r.times_sent + 1) % 2 ^ 32 }

-- Five requests were not answered: the senders are told, and the request is destroyed.
unfoldable pub give_up : Sr → ArpReq → Option (Bool × Sr)
unfolding unreachable_all
give_up sr req = do
  sr' ← unreachable_all sr req.packets
  some (true, record sr' { cache = sr_arpreq_destroy sr'.cache req.ip })

unfoldable pub ask_again : Sr → ArpReq → ℕ → Option (Bool × Sr)
ask_again sr req now = do
  interface ← first_iface req.packets
  sr' ← sr_send_arp sr interface Arp.op_request ether_broadcast_addr req.ip
  some (
    false,
    record sr' {
      cache = record (sr'.cache) {
        requests = update_req req.ip (count_sent now) sr'.cache.requests;
      };
    },
  )

-- Whether the request was destroyed, and the state.
unfoldable pub sr_handle_arpreq_queue : Sr → ArpReq → ℕ → Option (Bool × Sr)
unfolding give_up ask_again
sr_handle_arpreq_queue sr req now =
    if older now req.sent arpreq_to
    then if leb arpreq_max req.times_sent then give_up sr req else ask_again sr req now
    else some (false, sr)

-- The walk over the requests that are queued when it starts, by their addresses: a new request goes
-- in front of the queue, where the walk does not come by. `req->next` of a request that has been
-- destroyed is a read of freed memory.
unfoldable pub sweep_requests : Sr → ℕ → List ℕ → Option Sr
unfolding sr_handle_arpreq_queue
sweep_requests sr now [] = some sr
sweep_requests sr now (ip ∷ ips) =
    elim (find_req ip sr.cache.requests >>= λ req. sr_handle_arpreq_queue sr req now) [
      | none ↦ none
      | some (destroyed, sr') ↦ elim destroyed [ true ↦ none | false ↦ sweep_requests sr' now ips ]
    ]

unfoldable pub sr_arpcache_sweepreqs : Sr → ℕ → Option Sr
unfolding sweep_requests
sr_arpcache_sweepreqs sr now = sweep_requests sr now (map (λ (r : ArpReq). r.ip) sr.cache.requests)

-- One round of `sr_arpcache_timeout`.
unfoldable pub arpcache_round : Sr → ℕ → Option Sr
unfolding sr_arpcache_sweepreqs
arpcache_round sr curtime =
    sr_arpcache_sweepreqs
      (record sr {
        cache = record (sr.cache) { entries = expire_entries curtime sr.cache.entries };
      })
      curtime

-- The walk over the unsolicited packets: those kept, and the state. A packet whose source has a route
-- and that is more than six seconds old is answered by an ICMP message and freed.
unfoldable pub expire_unsolicited : Sr → ℕ → List UnsolPkt → Option (List UnsolPkt × Sr)
expire_unsolicited sr curtime [] = some ([], sr)
expire_unsolicited sr curtime (u ∷ us) = elim (sr_rt_lookup sr.routing_table (Ip.src u.ip_packet)) [
  | none ↦ none
  | some none ↦ expire_unsolicited sr curtime us >>= λ r. some (u ∷ r.0, r.1)
  | some (some lpm) ↦ elim (older curtime u.last_updated default_tcp_syn_to) [
    | false ↦ expire_unsolicited sr curtime us >>= λ r. some (u ∷ r.0, r.1)
    | true ↦ elim (sr_send_icmp sr u.ip_packet lpm.interface Icmp.dstunreachable 3) [
      | none ↦ none
      | some sr' ↦ expire_unsolicited sr' curtime us
    ]
  ]
]

-- One round of `sr_nat_timeout`.
unfoldable pub nat_round : Sr → ℕ → Option Sr
unfolding expire_unsolicited
nat_round sr curtime = elim sr.nat.unsol_pkt [
  | dangling ↦ none
  | pkts us ↦ expire_unsolicited sr curtime us >>= λ r.
      some (record (r.1) {
        nat = timeout_mappings (record (r.1.nat) { unsol_pkt = pkts r.0 }) curtime;
      })
]
