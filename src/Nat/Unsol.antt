-- ===== src/Nat/Unsol.antt =====
-- The unsolicited packets of router/sr_nat.c. `none` is a walk over a freed node.
pub mod Laws
use cscd58_nat.Base.{
  ℕ, List, [], ◌∷◌, ◌++◌, Option, none, some, Bool, true, false, ◌==◌, ◌&&◌, if◌then◌else◌, Buffer,
}
use cscd58_nat.Proto.Ip
use cscd58_nat.Proto.Tcp
use cscd58_nat.Nat.Types.{UnsolPkt, UnsolHead, pkts, dangling}

-- The test of both walks: addresses, ports and sequence number, the stored packet's TCP header
-- being taken at the header length of `ip_packet`. What lies past the end of a stored packet that is
-- shorter reads as 0 here, where the source reads past its block.
unfoldable pub same_segment : Buffer → Buffer → Bool
same_segment ip_packet temp_pkt =
    Ip.src ip_packet == Ip.src temp_pkt
    && Ip.dst ip_packet == Ip.dst temp_pkt
    && Tcp.src_port ip_packet (Ip.header_len ip_packet)
      == Tcp.src_port temp_pkt (Ip.header_len ip_packet)
    && Tcp.dst_port ip_packet (Ip.header_len ip_packet)
      == Tcp.dst_port temp_pkt (Ip.header_len ip_packet)
    && Tcp.seq_num ip_packet (Ip.header_len ip_packet)
      == Tcp.seq_num temp_pkt (Ip.header_len ip_packet)

-- The nodes that the walk of the removal leaves linked behind the dummy.
unfoldable pub without_segment : Buffer → List UnsolPkt → List UnsolPkt
without_segment ip_packet [] = []
without_segment ip_packet (u ∷ us) =
    if same_segment ip_packet u.ip_packet
    then without_segment ip_packet us
    else u ∷ without_segment ip_packet us

-- Whether the node that `unsol_pkt` points to is among those freed.
unfoldable pub frees_head : Buffer → List UnsolPkt → Bool
frees_head ip_packet [] = false
frees_head ip_packet (u ∷ us) = same_segment ip_packet u.ip_packet

-- `nat->unsol_pkt` is not assigned: where its node is freed, it dangles.
unfoldable pub sr_nat_remove_unsolicited_packet : UnsolHead → Buffer → Option UnsolHead
sr_nat_remove_unsolicited_packet dangling ip_packet = none
sr_nat_remove_unsolicited_packet (pkts us) ip_packet =
    some (if frees_head ip_packet us then dangling else pkts (without_segment ip_packet us))

unfoldable pub holds_segment : Buffer → List UnsolPkt → Bool
holds_segment ip_packet [] = false
holds_segment ip_packet (u ∷ us) =
    if same_segment ip_packet u.ip_packet then true else holds_segment ip_packet us

-- A copy of the packet goes to the end of the list, unless it is there already.
unfoldable pub sr_nat_insert_unsolicited_packet : UnsolHead → Buffer → ℕ → Option UnsolHead
sr_nat_insert_unsolicited_packet dangling ip_packet now = none
sr_nat_insert_unsolicited_packet (pkts us) ip_packet now = some (
    if holds_segment ip_packet us
    then pkts us
    else pkts (us ++ record { ip_packet = ip_packet; last_updated = now } ∷ []))
