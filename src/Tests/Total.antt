-- ===== src/Tests/Total.antt =====
-- A frame that is handled without a fault.
use cscd58_nat.Base.{◌≡◌, refl, some, arith, load8, load16, ntohs, drop}
use cscd58_nat.Proto.Ether
use cscd58_nat.If.{sr_get_interface, strncmp_eq}
use cscd58_nat.Arp.{sr_arpcache_init, find_req}
use cscd58_nat.Main.Verify.{sr_verify_routing_table, verify_lists, verify_loop, interface_exists}
use cscd58_nat.Router.Handle.{sr_handlepacket}
use cscd58_nat.Router.Done.{IsDone, IsWhole}
use cscd58_nat.Router.Total.{sr_handlepacket-IsDone}
use cscd58_nat.Tests.Data.{eth_if, eth}
use cscd58_nat.Tests.FrameData.{plain_router, echo_frame}

routes_there : sr_verify_routing_table (plain_router sr_arpcache_init) ≡ 0
unfolding sr_verify_routing_table verify_lists verify_loop interface_exists strncmp_eq
routes_there = refl

interface_there : sr_get_interface (plain_router sr_arpcache_init).if_list eth ≡ some eth_if
unfolding sr_get_interface strncmp_eq
interface_there = refl

echo-IsWhole : IsWhole (drop Ether.size echo_frame)
unfolding load8 load16 ntohs
echo-IsWhole = record {
  quoted = omega arith;
  header = omega arith;
  least = omega arith;
  total = omega arith;
}

sr_handlepacket-IsDone_example :
    IsDone (sr_handlepacket (plain_router sr_arpcache_init) echo_frame eth 5)
unfolding load16 ntohs find_req sr_arpcache_init
sr_handlepacket-IsDone_example =
    sr_handlepacket-IsDone (plain_router sr_arpcache_init) echo_frame eth 5 eth_if routes_there refl
      interface_there (omega arith) (λ e. absurd (omega arith)) (λ e. echo-IsWhole)
      (λ req e. absurd (cc e))
