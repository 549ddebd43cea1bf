-- ===== src/Router/Quiet.antt =====
-- What the functions that send leave alone.
use cscd58_nat.Base.{ℕ, ◌≡◌, List, Option, none, some, Buffer, arith}
use cscd58_nat.Arp.{ArpEntry}
use cscd58_nat.Proto.Icmp
use cscd58_nat.Instance.{Sr}
use cscd58_nat.Send.{sr_send_packet}
use cscd58_nat.Router.Output.{sr_send_arp, sr_send_icmp, send_or_queue, sr_forward_ippacket}

-- The interfaces, the routes and the switch of the NAT are the same.
abbrev pub SameConfig : Sr → Sr → Type 0
SameConfig sr sr' =
    (sr'.if_list ≡ sr.if_list)
    × (sr'.routing_table ≡ sr.routing_table)
    × (sr'.nat_enabled ≡ sr.nat_enabled)

-- Only the ARP cache and the frames sent may differ.
abbrev pub Quiet : Sr → Sr → Type 0
Quiet sr sr' = SameConfig sr sr' × (sr'.nat ≡ sr.nat)

pub sr_send_packet-Quiet :
    (sr : Sr) (frame : Buffer) (iface : List ℕ) → Quiet sr (sr_send_packet sr frame iface)
unfolding sr_send_packet
sr_send_packet-Quiet sr frame iface = ground arith

pub sr_send_arp-Quiet :
    (sr sr' : Sr) (iface : List ℕ) (type : ℕ) (mac : Buffer) (ip : ℕ)
    → sr_send_arp sr iface type mac ip ≡ some sr'
    → Quiet sr sr'
unfolding sr_send_arp sr_send_packet
sr_send_arp-Quiet sr sr' iface type mac ip e = ground arith

pub send_or_queue-Quiet :
    (sr sr' : Sr) (entry : Option ArpEntry) (ip : ℕ) (packet : Buffer) (iface sender : List ℕ)
    → send_or_queue sr entry ip packet iface sender ≡ some sr'
    → Quiet sr sr'
unfolding send_or_queue sr_send_packet
send_or_queue-Quiet sr sr' none ip packet iface sender e = ground arith
send_or_queue-Quiet sr sr' (some entry) ip packet iface sender e = ground arith

pub sr_send_icmp-Quiet :
    (sr sr' : Sr) (packet : Buffer) (iface : List ℕ) (type code : ℕ)
    → sr_send_icmp sr packet iface type code ≡ some sr'
    → Quiet sr sr'
unfolding sr_send_icmp send_or_queue sr_send_packet
sr_send_icmp-Quiet sr sr' packet iface type code e = ground arith

pub sr_forward_ippacket-Quiet :
    (sr sr' : Sr) (packet : Buffer) (iface : List ℕ)
    → sr_forward_ippacket sr packet iface ≡ some sr'
    → Quiet sr sr'
unfolding sr_forward_ippacket send_or_queue sr_send_packet
sr_forward_ippacket-Quiet sr sr' packet iface e =
    ground (arith, sr_send_icmp-Quiet sr sr' packet iface Icmp.dstunreachable 0)
