-- ===== src/Tests/Tcp.antt =====
-- TCP states and unsolicited packets.
use cscd58_nat.Base.{◌≡◌, ◌↔◌, ◌⊎◌, [], ◌∷◌, some, arith}
use cscd58_nat.Nat.Types.{closed, syn_sent, closing, fin_wait_2, UnsolPkt, pkts}
use cscd58_nat.Nat.State.{Flags, determine_state}
use cscd58_nat.Nat.State.Reach.{
  Tracked, run_segments, run_segments-Tracked, determine_state-closed_iff,
}
use cscd58_nat.Nat.Unsol.{sr_nat_remove_unsolicited_packet}
use cscd58_nat.Nat.Unsol.Laws.{sr_nat_remove_unsolicited_packet-inbound}
use cscd58_nat.Tests.Data.{request, reply}
use cscd58_nat.Tests.Packets.{from_inside, from_outside}

abbrev syn_ack : Flags
syn_ack = record { syn = 1; ack = 1; fin = 0 }

abbrev fin_ack : Flags
fin_ack = record { syn = 0; ack = 1; fin = 1 }

run_segments-Tracked_example : Tracked (run_segments syn_sent (syn_ack ∷ fin_ack ∷ []))
run_segments-Tracked_example = run_segments-Tracked (syn_ack ∷ fin_ack ∷ []) (ground arith)

determine_state-closed_iff_example : (determine_state closing fin_ack ≡ closed) ↔ (
    ¬ ((fin_ack.syn ≡ 1) × (fin_ack.ack ≡ 0))
    × ((closing ≡ closed)
        ⊎ ((closing ≡ closing) × (fin_ack.ack ≡ 1))
        ⊎ ((closing ≡ fin_wait_2) × (fin_ack.fin ≡ 1))))
determine_state-closed_iff_example = determine_state-closed_iff closing fin_ack (ground arith)

abbrev kept : UnsolPkt
kept = record { ip_packet = reply; last_updated = 1 }

sr_nat_remove_unsolicited_packet-inbound_example :
    sr_nat_remove_unsolicited_packet (pkts (kept ∷ [])) request ≡ some (pkts (kept ∷ []))
sr_nat_remove_unsolicited_packet-inbound_example =
    sr_nat_remove_unsolicited_packet-inbound request (kept ∷ []) from_inside (from_outside, tt)
