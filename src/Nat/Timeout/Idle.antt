-- ===== src/Nat/Timeout/Idle.antt =====
-- What is left after a round of timeouts.
use cscd58_nat.Base.{
  ℕ, ◌+◌, ◌≤◌, ◌≡◌, ◌≢◌, inl, inr, refl, sym, ◌∙◌, List, [], ◌∷◌, some, false, arith, bind_parts,
  Bool-cases,
}
use mathlib.Core.Path.{subst}
use cscd58_nat.Nat.Types.{MappingType, icmp, tcp, closed, Mapping, Connection, SrNat, older}
use cscd58_nat.Nat.Table.{sr_nat_lookup_external}
use cscd58_nat.Nat.Table.Invariant.{IsValid}
use cscd58_nat.Nat.Timeout.{
  conn_expired, sweep_conns, kept_tcp, sweep_typed, sweep_mapping, timeout_mappings,
}
use cscd58_nat.Nat.View.{view-timeout_mappings}

-- No connection that is closed or has been idle for longer than the transitory timeout.
abbrev pub AllLive : SrNat → ℕ → List Connection → Type 0
AllLive nat now [] = Unit {0}
AllLive nat now (c ∷ cs) =
    ((c.state ≢ closed) × (now ≤ c.last_updated + nat.tcp_transitory_to)) × AllLive nat now cs

-- An ICMP mapping that has been used within its timeout, or a TCP mapping with a connection and none
-- but live ones.
abbrev pub IsLive : SrNat → ℕ → MappingType → Mapping → Type 0
IsLive nat now icmp m = now ≤ m.last_updated + nat.icmp_query_to
IsLive nat now tcp m = (m.conns ≢ []) × AllLive nat now m.conns

live_conn :
    (nat : SrNat) (now : ℕ) (c : Connection)
    → conn_expired nat now c ≡ false
    → (c.state ≢ closed) × (now ≤ c.last_updated + nat.tcp_transitory_to)
unfolding conn_expired
live_conn nat now c f = ((λ h. ground arith), ground arith)

sweep_conns-AllLive :
    (nat : SrNat) (now : ℕ) (cs : List Connection) → AllLive nat now (sweep_conns nat now cs)
unfolding sweep_conns
sweep_conns-AllLive nat now [] = tt
sweep_conns-AllLive nat now (c ∷ cs) = elim (Bool-cases (conn_expired nat now c)) [
  | inl gone ↦ rw gone (sweep_conns-AllLive nat now cs)
  | inr stays ↦ rw stays (live_conn nat now c stays, sweep_conns-AllLive nat now cs)
]

icmp-IsLive :
    (nat : SrNat) (now : ℕ) (m left : Mapping)
    → m.type ≡ icmp
    → sweep_typed icmp nat now m ≡ some left
    → IsLive nat now left.type left
icmp-IsLive nat now m left t e = elim (Bool-cases (older now m.last_updated nat.icmp_query_to)) [
  | inl old ↦ absurd (cc (rw old at e))
  | inr young ↦
      let in_time : now ≤ m.last_updated + nat.icmp_query_to = ground arith in
      let same : m ≡ left = cc (rw young at e) in
      subst (λ (x : Mapping). IsLive nat now x.type x) same
        (subst (λ k. IsLive nat now k m) (sym t) in_time)
]

tcp-IsLive :
    (nat : SrNat) (now : ℕ) (m left : Mapping) (cs : List Connection)
    → m.type ≡ tcp
    → AllLive nat now cs
    → kept_tcp m cs ≡ some left
    → IsLive nat now left.type left
tcp-IsLive nat now m left [] t all e = absurd (cc e)
tcp-IsLive nat now m left (c ∷ cs) t all e =
    let kept : Mapping = record m { conns = c ∷ cs } in
    let same : kept ≡ left = cc e in
    let nonempty : c ∷ cs ≢ [] = λ n. absurd (cc n) in
    subst (λ (x : Mapping). IsLive nat now x.type x) same
      (subst (λ k. IsLive nat now k kept) (sym t) (nonempty, all))

sweep_mapping-IsLive :
    (nat : SrNat) (now : ℕ) (m left : Mapping)
    → sweep_mapping nat now m ≡ some left
    → IsLive nat now left.type left
unfolding sweep_mapping
sweep_mapping-IsLive nat now m left e = by_type m.type refl e
  where
    by_type :
        (t : MappingType)
        → m.type ≡ t
        → sweep_typed t nat now m ≡ some left
        → IsLive nat now left.type left
    by_type icmp same f = icmp-IsLive nat now m left same f
    by_type tcp same f =
        tcp-IsLive nat now m left (sweep_conns nat now m.conns) same
          (sweep_conns-AllLive nat now m.conns) f

-- After a round of timeouts on a valid table, what is found by an external id is live: an ICMP mapping
-- that has been used within its timeout, or a TCP mapping that has a connection and whose connections
-- are all neither CLOSED nor idle for longer than the transitory timeout.
pub timeout_mappings-IsLive :
    (nat : SrNat) (now aux_ext : ℕ) (left : Mapping)
    → IsValid nat
    → sr_nat_lookup_external (timeout_mappings nat now) aux_ext icmp ≡ some left
    → IsLive nat now left.type left
timeout_mappings-IsLive nat now aux_ext left v e =
    let swept = sym (view-timeout_mappings nat now aux_ext v) ∙ e in
    let (m, _, kept) =
      bind_parts (sr_nat_lookup_external nat aux_ext icmp) (sweep_mapping nat now) left swept in
    sweep_mapping-IsLive nat now m left kept
