-- ===== src/Nat/Timeout.antt =====
-- The walk over the mappings in `sr_nat_timeout` of router/sr_nat.c, one round of its loop. The walk
-- over the unsolicited packets sends ICMP messages and stands with the router.
pub mod Sweep
pub mod Idle
pub mod Conns
use cscd58_nat.Base.{ℕ, List, [], ◌∷◌, Option, none, some, Bool, true, false, ◌&&◌, if◌then◌else◌}
use cscd58_nat.Nat.Types.{
  MappingType, icmp, tcp, TcpState, closed, estab, same_state, older, Connection, Mapping, SrNat,
}
use cscd58_nat.Nat.Bitmap.{clear_bit}

-- The tests of the walk over the connections, in order: whether the connection is freed.
unfoldable pub conn_expired : SrNat → ℕ → Connection → Bool
conn_expired nat curtime c =
    if same_state c.state estab && older curtime c.last_updated nat.tcp_estab_idle_to
    then true
    else if same_state c.state closed
    then true
    else if older curtime c.last_updated nat.tcp_transitory_to
    then true
    else false

unfoldable pub sweep_conns : SrNat → ℕ → List Connection → List Connection
sweep_conns nat curtime [] = []
sweep_conns nat curtime (c ∷ cs) =
    if conn_expired nat curtime c
    then sweep_conns nat curtime cs
    else c ∷ sweep_conns nat curtime cs

abbrev kept_tcp : Mapping → List Connection → Option Mapping
kept_tcp m [] = none
kept_tcp m (c ∷ cs) = some (record m { conns = c ∷ cs })

abbrev sweep_typed : MappingType → SrNat → ℕ → Mapping → Option Mapping
sweep_typed icmp nat curtime m =
    if older curtime m.last_updated nat.icmp_query_to then none else some m
sweep_typed tcp nat curtime m = kept_tcp m (sweep_conns nat curtime m.conns)

-- What is left of a mapping; `none` is that it is freed.
unfoldable pub sweep_mapping : SrNat → ℕ → Mapping → Option Mapping
sweep_mapping nat curtime m = sweep_typed m.type nat curtime m

-- The walk: the mappings kept, and the bitmap with the ids of the others cleared.
unfoldable pub sweep_mappings : SrNat → ℕ → List Mapping → List ℕ → List Mapping × List ℕ
sweep_mappings nat curtime [] bitmap = ([], bitmap)
sweep_mappings nat curtime (m ∷ ms) bitmap = elim (sweep_mapping nat curtime m) [
  | none ↦ sweep_mappings nat curtime ms (clear_bit bitmap m.aux_ext)
  | some m' ↦ let (rest, after) = sweep_mappings nat curtime ms bitmap in (m' ∷ rest, after)
]

unfoldable pub timeout_mappings : SrNat → ℕ → SrNat
timeout_mappings nat curtime =
    let (mappings, bitmap) = sweep_mappings nat curtime nat.mappings nat.bitmap in
    record nat { mappings = mappings; bitmap = bitmap }
