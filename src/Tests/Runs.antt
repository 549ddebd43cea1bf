-- ===== src/Tests/Runs.antt =====
-- Timeout rounds.
use cscd58_nat.Base.{◌≡◌, refl, [], ◌∷◌, some}
use cscd58_nat.Arp.{ArpReq}
use cscd58_nat.Nat.Table.{sr_nat_init, sr_nat_insert_mapping}
use cscd58_nat.Instance.{Sr}
use cscd58_nat.Router.Periodic.{nat_round, expire_unsolicited}
use cscd58_nat.Router.Keeps.{Keeps}
use cscd58_nat.Router.Step.{Steps, nat_timeout, done, more, Steps-Keeps}
use cscd58_nat.Tests.Data.{one_nat, router, eth}
use cscd58_nat.Tests.Table.{one-IsValid}

-- The mapping is two minutes old when the round starts.
aged : (sr' : Sr) × (nat_round (router one_nat) 120 ≡ some sr')
unfolding nat_round expire_unsolicited sr_nat_insert_mapping sr_nat_init
aged = (_, refl)

one_round : Steps (router one_nat) aged.0
one_round =
    more (router one_nat) aged.0 aged.0 (nat_timeout (router one_nat) aged.0 120 aged.1)
      (done aged.0)

Steps-Keeps_example : Keeps (router one_nat) aged.0
Steps-Keeps_example = Steps-Keeps (router one_nat) aged.0 one-IsValid one_round

-- A request that was sent three times, for a packet on the one interface.
abbrev pending : ArpReq
pending = record {
  ip = 0x08080808;
  sent = 4;
  times_sent = 3;
  packets = record { buf = 1 ∷ []; iface = eth; sender = eth } ∷ [];
}

abbrev waiting_router : Sr
waiting_router = record (router one_nat) {
  cache = record { entries = []; requests = record pending { ip = 7; sent = 19 } ∷ pending ∷ [] };
}
