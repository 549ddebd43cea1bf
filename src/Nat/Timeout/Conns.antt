-- ===== src/Nat/Timeout/Conns.antt =====
-- The connections of a mapping across a round of timeouts.
use cscd58_nat.Base.{
  ℕ, ◌+◌, ◌<◌, ◌≡◌, ◌≢◌, ◌⊎◌, inl, inr, refl, ap, ◌∙◌, List, [], ◌∷◌, none, some, true, false,
  arith, Bool-cases, ◌>>=◌,
}
use cscd58_nat.Nat.Types.{tcp, closed, estab, Connection, Mapping, SrNat}
use cscd58_nat.Nat.Table.{sr_nat_lookup_external}
use cscd58_nat.Nat.Table.Invariant.{IsValid}
use cscd58_nat.Nat.Timeout.{
  conn_expired, sweep_conns, kept_tcp, sweep_typed, sweep_mapping, timeout_mappings,
}
use cscd58_nat.Nat.View.{view-timeout_mappings}

-- CLOSED, or idle for longer than the transitory timeout, or ESTAB and idle for longer than the
-- established timeout.
abbrev pub IsOver : SrNat → ℕ → Connection → Type 0
IsOver nat now c =
    (c.state ≡ closed)
    ⊎ (c.last_updated + nat.tcp_transitory_to < now)
    ⊎ ((c.state ≡ estab) × (c.last_updated + nat.tcp_estab_idle_to < now))

-- From the first list, the connections that are over have been taken out, and no other.
pub data Purges (nat : SrNat) (now : ℕ) : List Connection → List Connection → Type 0 where
  empty : Purges nat now [] []
  freed :
      (c : Connection) (cs rest : List Connection)
      → IsOver nat now c
      → Purges nat now cs rest
      → Purges nat now (c ∷ cs) rest
  stays :
      (c : Connection) (cs rest : List Connection)
      → ¬ IsOver nat now c
      → Purges nat now cs rest
      → Purges nat now (c ∷ cs) (c ∷ rest)

expired-IsOver :
    (nat : SrNat) (now : ℕ) (c : Connection) → conn_expired nat now c ≡ true → IsOver nat now c
unfolding conn_expired
expired-IsOver nat now c e = ground arith

not-IsOver :
    (nat : SrNat) (now : ℕ) (c : Connection) → conn_expired nat now c ≡ false → ¬ IsOver nat now c
unfolding conn_expired
not-IsOver nat now c e h = ground arith

sweep_conns-Purges :
    (nat : SrNat) (now : ℕ) (cs : List Connection) → Purges nat now cs (sweep_conns nat now cs)
unfolding sweep_conns
sweep_conns-Purges nat now [] = empty
sweep_conns-Purges nat now (c ∷ cs) = elim (Bool-cases (conn_expired nat now c)) [
  | inl t ↦ rw t (freed c cs _ (expired-IsOver nat now c t) (sweep_conns-Purges nat now cs))
  | inr f ↦ rw f (stays c cs _ (not-IsOver nat now c f) (sweep_conns-Purges nat now cs))
]

-- A round of timeouts on a valid table, and a TCP mapping that an external id finds before it: the
-- connections that are CLOSED, or idle for longer than the transitory timeout, or ESTAB and idle for
-- longer than the established timeout are taken out of it, and no other; the others stay as they are
-- and in their order. Where none is left the id finds nothing afterwards, and otherwise it finds the
-- mapping with the connections that are left.
pub timeout_mappings-Purges :
    (nat : SrNat) (now aux_ext : ℕ) (m : Mapping)
    → IsValid nat
    → sr_nat_lookup_external nat aux_ext tcp ≡ some m
    → m.type ≡ tcp
    → (left : List Connection) × Purges nat now m.conns left
      × (((left ≡ []) × (sr_nat_lookup_external (timeout_mappings nat now) aux_ext tcp ≡ none))
          ⊎ ((left ≢ [])
              × (sr_nat_lookup_external (timeout_mappings nat now) aux_ext tcp
                  ≡ some (record m { conns = left }))))
unfolding sr_nat_lookup_external sweep_mapping
timeout_mappings-Purges nat now aux_ext m v found type =
    let left = sweep_conns nat now m.conns in
    let swept : sr_nat_lookup_external (timeout_mappings nat now) aux_ext tcp ≡ kept_tcp m left =
      view-timeout_mappings nat now aux_ext v
      ∙ ap (λ o. o >>= sweep_mapping nat now) found
      ∙ ap (λ t. sweep_typed t nat now m) type in
    (left, sweep_conns-Purges nat now m.conns, by_left left swept)
  where
    by_left :
        (left : List Connection)
        → sr_nat_lookup_external (timeout_mappings nat now) aux_ext tcp ≡ kept_tcp m left
        → ((left ≡ []) × (sr_nat_lookup_external (timeout_mappings nat now) aux_ext tcp ≡ none))
          ⊎ ((left ≢ [])
              × (sr_nat_lookup_external (timeout_mappings nat now) aux_ext tcp
                  ≡ some (record m { conns = left })))
    by_left [] e = inl (refl, e)
    by_left (c ∷ cs) e = inr (λ n. absurd (cc n), e)
