-- ===== src/Tests/Data.antt =====
-- The state and the packets of the tests: the private host 10.0.0.5 behind the interface 9.9.9.9, and
-- 8.8.8.8 outside.
use cscd58_nat.Base.{ℕ, List, [], ◌∷◌, ◌++◌, true, Buffer, replicate}
use cscd58_nat.If.{SrIf}
use cscd58_nat.Rt.{RtEntry}
use cscd58_nat.Arp.{sr_arpcache_init}
use cscd58_nat.Nat.Types.{SrNat, icmp, pkts}
use cscd58_nat.Nat.Table.{sr_nat_init, sr_nat_insert_mapping}
use cscd58_nat.Instance.{Sr}

-- The memory that `sr_nat_init` is given.
abbrev pub memory : SrNat
memory = record {
  mappings = [];
  icmp_query_to = 0;
  tcp_estab_idle_to = 0;
  tcp_transitory_to = 0;
  bitmap = [];
  unsol_pkt = pkts [];
}

abbrev pub empty_nat : SrNat
empty_nat = sr_nat_init memory 60 7440 300

abbrev pub inside : ℕ
inside = 0x0A000005

-- The table with the mapping of the identifier 7 of the host inside.
abbrev pub one_nat : SrNat
one_nat = (sr_nat_insert_mapping empty_nat inside 7 icmp 0).1

abbrev pub eth : List ℕ
eth = 101 ∷ 116 ∷ 104 ∷ []

abbrev pub outside_route : RtEntry
outside_route = record { dest = 8; gw = 0x08080808; mask = 0xFF; interface = eth }

abbrev pub eth_if : SrIf
eth_if = record { name = eth; addr = replicate 6 2; ip = 0x09090909 }

abbrev pub router : SrNat → Sr
router nat = record {
  if_list = eth_if ∷ [];
  routing_table = outside_route ∷ [];
  cache = sr_arpcache_init;
  nat = nat;
  nat_enabled = true;
  sent = [];
}

-- An IP header of 20 bytes for a total length of 28, with TTL 64 and protocol ICMP.
abbrev ip_header : List ℕ → List ℕ → Buffer
ip_header source dest = 69 ∷ 0 ∷ 0 ∷ 28 ∷ 0 ∷ 0 ∷ 0 ∷ 0 ∷ 64 ∷ 1 ∷ 0 ∷ 0 ∷ (source ++ dest)

-- An echo request with the identifier 7, and the reply to it under the identifier 1024.
abbrev pub request : Buffer
request = ip_header (10 ∷ 0 ∷ 0 ∷ 5 ∷ []) (8 ∷ 8 ∷ 8 ∷ 8 ∷ []) ++ 8 ∷ 0 ∷ 0 ∷ 0 ∷ 0 ∷ 7 ∷ 0 ∷ 1 ∷ []

abbrev pub reply : Buffer
reply = ip_header (8 ∷ 8 ∷ 8 ∷ 8 ∷ []) (9 ∷ 9 ∷ 9 ∷ 9 ∷ []) ++ 0 ∷ 0 ∷ 0 ∷ 0 ∷ 4 ∷ 0 ∷ 0 ∷ 1 ∷ []
