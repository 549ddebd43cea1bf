-- ===== src/Tests/FrameData.antt =====
-- Whole frames, and a router that does not translate.
use cscd58_nat.Base.{
  ℕ, refl, inr, List, [], ◌∷◌, ◌++◌, true, false, Buffer, replicate, arith, load8, load16, ntohs,
  store16, drop,
}
use cscd58_nat.Proto.Ether
use cscd58_nat.Proto.Arp
use cscd58_nat.Cksum.{cksum_at, cksum, sum_words, fold_carry}
use cscd58_nat.If.{sr_get_interface, strncmp_eq}
use cscd58_nat.Arp.{ArpEntry, ArpCache}
use cscd58_nat.Instance.{Sr}
use cscd58_nat.Router.Handle.Arrival.{Arrives}
use cscd58_nat.Router.Handle.ArpAnswer.{IsArpPayload}
use cscd58_nat.Router.Handle.Forward.{IsIp}
use cscd58_nat.Tests.Data.{empty_nat, router, eth_if, eth}

abbrev pub plain_router : ArpCache → Sr
plain_router cache = record (router empty_nat) { nat_enabled = false; cache = cache }

-- A cache with an entry for the address.
abbrev pub knows : ℕ → ArpEntry
knows ip = record { mac = replicate 6 3; ip = ip; added = 0; valid = true }

abbrev pub known_cache : ℕ → ArpCache
known_cache ip = record { entries = knows ip ∷ []; requests = [] }

-- The Ethernet header of a frame to the interface from a host whose address is 3:3:3:3:3:3.
abbrev pub framed : List ℕ → Buffer → Buffer
framed type load = replicate 6 2 ++ (replicate 6 3 ++ (type ++ load))

abbrev arp_packet : ℕ → Buffer
arp_packet op =
    0
    ∷ 1
    ∷ 8
    ∷ 0
    ∷ 6
    ∷ 4
    ∷ 0
    ∷ op
    ∷ (replicate 6 3 ++ (replicate 4 8 ++ (replicate 6 0 ++ replicate 4 9)))

abbrev pub arp_request : Buffer
arp_request = framed (8 ∷ 6 ∷ []) (arp_packet 1)

abbrev pub arp_reply : Buffer
arp_reply = framed (8 ∷ 6 ∷ []) (arp_packet 2)

-- An echo request from 10.0.0.5, by its TTL, the checksum of the header, and where it goes.
abbrev ping_packet : ℕ → List ℕ → List ℕ → Buffer
ping_packet ttl sum dest =
    69
    ∷ 0
    ∷ 0
    ∷ 28
    ∷ 0
    ∷ 0
    ∷ 0
    ∷ 0
    ∷ ttl
    ∷ 1
    ∷ (sum ++ (10 ∷ 0 ∷ 0 ∷ 5 ∷ (dest ++ 8 ∷ 0 ∷ 247 ∷ 247 ∷ 0 ∷ 7 ∷ 0 ∷ 1 ∷ [])))

abbrev ping_frame : ℕ → List ℕ → List ℕ → Buffer
ping_frame ttl sum dest = framed (8 ∷ 0 ∷ []) (ping_packet ttl sum dest)

abbrev pub transit_frame : Buffer
transit_frame = ping_frame 64 (96 ∷ 205 ∷ []) (replicate 4 8)

abbrev pub expired_frame : Buffer
expired_frame = ping_frame 1 (159 ∷ 205 ∷ []) (replicate 4 8)

abbrev pub echo_frame : Buffer
echo_frame = ping_frame 64 (94 ∷ 203 ∷ []) (replicate 4 9)

pub arp_request-Arrives :
    (cache : ArpCache)
    → Arrives (plain_router cache).if_list arp_request eth eth_if Ether.ethertype_arp
unfolding sr_get_interface strncmp_eq load16 ntohs
arp_request-Arrives cache = record {
  known = refl;
  address = refl;
  long = omega arith;
  ours = inr refl;
  ether_type = refl;
}

pub arp_reply-Arrives :
    (cache : ArpCache)
    → Arrives (plain_router cache).if_list arp_reply eth eth_if Ether.ethertype_arp
unfolding sr_get_interface strncmp_eq load16 ntohs
arp_reply-Arrives cache = record {
  known = refl;
  address = refl;
  long = omega arith;
  ours = inr refl;
  ether_type = refl;
}

pub ping-Arrives :
    (cache : ArpCache) (ttl : ℕ) (a b c d e f : ℕ)
    → Arrives
        (plain_router cache).if_list
        (ping_frame ttl (a ∷ b ∷ []) (c ∷ d ∷ e ∷ f ∷ []))
        eth
        eth_if
        Ether.ethertype_ip
unfolding sr_get_interface strncmp_eq load16 ntohs
ping-Arrives cache ttl a b c d e f = record {
  known = refl;
  address = refl;
  long = omega arith;
  ours = inr refl;
  ether_type = refl;
}

pub transit-IsIp : IsIp (drop Ether.size transit_frame)
unfolding cksum_at cksum sum_words fold_carry load16 load8 store16 ntohs
transit-IsIp = record {
  bytes = ground arith;
  long = omega arith;
  short = omega arith;
  header = omega arith;
  sum = refl;
}

pub expired-IsIp : IsIp (drop Ether.size expired_frame)
unfolding cksum_at cksum sum_words fold_carry load16 load8 store16 ntohs
expired-IsIp = record {
  bytes = ground arith;
  long = omega arith;
  short = omega arith;
  header = omega arith;
  sum = refl;
}

pub echo-IsIp : IsIp (drop Ether.size echo_frame)
unfolding cksum_at cksum sum_words fold_carry load16 load8 store16 ntohs
echo-IsIp = record {
  bytes = ground arith;
  long = omega arith;
  short = omega arith;
  header = omega arith;
  sum = refl;
}

pub arp_request-IsArpPayload : IsArpPayload Arp.op_request (drop Ether.size arp_request)
unfolding load16 ntohs
arp_request-IsArpPayload = record { long = omega arith; hrd = refl; pro = refl; op = refl }

pub arp_reply-IsArpPayload : IsArpPayload Arp.op_reply (drop Ether.size arp_reply)
unfolding load16 ntohs
arp_reply-IsArpPayload = record { long = omega arith; hrd = refl; pro = refl; op = refl }
