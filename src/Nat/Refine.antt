-- ===== src/Nat/Refine.antt =====
-- Runs of the table's operations against a specification on the finite map that the table stands
-- for: no list, no bitmap and no order of insertion.
use cscd58_nat.Base.{
  ℕ, ◌%◌, ◌^◌, ◌≤◌, ◌<◌, ◌≡◌, ◌≢◌, inl, inr, refl, ◌∙◌, ap, List, [], ◌∷◌, Option, none, some, ◌==◌,
  if◌then◌else◌, arith, ◌>>=◌, bind_parts, Option-cases, Buffer,
}
use mathlib.Core.Path.{fun_ext, subst}
use cscd58_nat.Nat.Types.{
  MappingType, TcpState, Mapping, Connection, SrNat, default_id, total_ports,
}
use cscd58_nat.Nat.Bitmap.{find_next_id}
use cscd58_nat.Nat.Bitmap.Laws.{NextId, find_next_id-NextId}
use cscd58_nat.Nat.Table.{stored_id, sr_nat_insert_mapping}
use cscd58_nat.Nat.Table.Invariant.{IsValid, HasRoom, sr_nat_insert_mapping-IsValid}
use cscd58_nat.Nat.Conn.{push_conn, new_connection, sr_nat_insert_connection}
use cscd58_nat.Nat.Conn.Laws.{SameIds-IsValid, sr_nat_insert_connection-SameIds}
use cscd58_nat.Nat.Timeout.{conn_expired, sweep_conns, sweep_mapping, timeout_mappings}
use cscd58_nat.Nat.Timeout.Sweep.{timeout_mappings-IsValid}
use cscd58_nat.Nat.View.{
  View, view_of, view-used, view-timeout_mappings, view-insert_mapping, view-insert_connection,
}

-- The operations: `sr_nat_insert_mapping`, `sr_nat_insert_connection` and the round over the mappings
-- in `sr_nat_timeout`, each with the time at which it runs.
pub data Op : Type 0 where
  insert : (ip_int aux_int : ℕ) (type : MappingType) (now : ℕ) → Op
  connect : (ext_port : ℕ) (ip_packet : Buffer) (state : TcpState) (now : ℕ) → Op
  expire : (now : ℕ) → Op

unfoldable pub apply : Op → SrNat → Option SrNat
apply (insert ip aux t now) nat = some (sr_nat_insert_mapping nat ip aux t now).1
apply (connect port p state now) nat =
    sr_nat_insert_connection nat port p state now >>= λ r. some r.1
apply (expire now) nat = some (timeout_mappings nat now)

unfoldable pub run : List Op → SrNat → Option SrNat
unfolding apply
run [] nat = some nat
run (op ∷ ops) nat = apply op nat >>= run ops

-- The least id from DEFAULT_ID on for which nothing is kept.
pub record LeastFree (v : View) (id : ℕ) : Type 0 where
  pub low : default_id ≤ id
  pub high : id < total_ports
  pub free : v id ≡ none
  pub least : (k : ℕ) → default_id ≤ k → k < id → v k ≢ none

-- The specification of an operation, under the timeouts of `limits`.
abbrev pub SpecStep : SrNat → Op → View → View → Type 0
SpecStep limits (insert ip aux t now) v w =
    (id : ℕ) × LeastFree v id
    × (w ≡ λ k.
        if k == id
        then some (record {
          type = t;
          ip_int = ip;
          aux_int = aux;
          aux_ext = id;
          last_updated = now;
          conns = [];
        })
        else v k)
SpecStep limits (connect port p state now) v w = w ≡ λ k.
    if k == port then (v k >>= λ m. some (push_conn (new_connection p state now) m)) else v k
SpecStep limits (expire now) v w = w ≡ λ k. v k >>= sweep_mapping limits now

abbrev pub SpecRun : SrNat → List Op → View → View → Type 0
SpecRun limits [] v w = w ≡ v
SpecRun limits (op ∷ ops) v w = (u : View) × SpecStep limits op v u × SpecRun limits ops u w

-- Some id is free whenever a mapping is inserted.
abbrev RoomNow : Op → SrNat → Type 0
RoomNow (insert ip aux t now) nat = HasRoom nat
RoomNow (connect port p state now) nat = Unit {0}
RoomNow (expire now) nat = Unit {0}

abbrev pub RoomFor : List Op → SrNat → Type 0
RoomFor [] nat = Unit {0}
RoomFor (op ∷ ops) nat =
    RoomNow op nat × (elim (apply op nat) [ none ↦ Unit {0} | some nat' ↦ RoomFor ops nat' ])

abbrev SameLimits : SrNat → SrNat → Type 0
SameLimits limits nat =
    (nat.icmp_query_to ≡ limits.icmp_query_to)
    × (nat.tcp_estab_idle_to ≡ limits.tcp_estab_idle_to)
    × (nat.tcp_transitory_to ≡ limits.tcp_transitory_to)

insert-LeastFree :
    (nat : SrNat) (ip aux : ℕ) (t : MappingType) (now : ℕ)
    → IsValid nat
    → HasRoom nat
    → LeastFree (view_of nat) (sr_nat_insert_mapping nat ip aux t now).0.aux_ext
unfolding sr_nat_insert_mapping
insert-LeastFree nat ip aux t now v (j, lo, hi, free) =
    go (find_next_id nat.bitmap) (find_next_id-NextId nat.bitmap v.size)
  where
    go : (r : Option ℕ × List ℕ) → NextId nat.bitmap r → LeastFree (view_of nat) (stored_id r.0)
    go (none, after) n = absurd (omega (arith, n.0 j lo hi))
    go (some id, after) (a, b, c, d, e, f) =
        let i : id % 2 ^ 16 ≡ id = omega arith in
        rw i (record {
          low = a;
          high = b;
          free = (view-used nat id v).1 c;
          least = λ k l h z. omega (arith, d k l h, (view-used nat k v).0 z);
        })

sweep_conns-limits :
    (limits nat : SrNat) (now : ℕ) (cs : List Connection)
    → SameLimits limits nat
    → sweep_conns nat now cs ≡ sweep_conns limits now cs
unfolding sweep_conns conn_expired
sweep_conns-limits limits nat now [] s = refl
sweep_conns-limits limits nat now (c ∷ cs) s =
    ground (arith, sweep_conns-limits limits nat now cs s)

sweep_mapping-limits :
    (limits nat : SrNat) (now : ℕ) (m : Mapping)
    → SameLimits limits nat
    → sweep_mapping nat now m ≡ sweep_mapping limits now m
unfolding sweep_mapping
sweep_mapping-limits limits nat now m s =
    ground (arith, sweep_conns-limits limits nat now m.conns s)

abbrev Refined : SrNat → Op → SrNat → SrNat → Type 0
Refined limits op nat nat' =
    IsValid nat' × SameLimits limits nat' × SpecStep limits op (view_of nat) (view_of nat')

insert_refines :
    (limits nat : SrNat) (ip aux : ℕ) (t : MappingType) (now : ℕ)
    → IsValid nat
    → SameLimits limits nat
    → HasRoom nat
    → Refined limits (insert ip aux t now) nat (sr_nat_insert_mapping nat ip aux t now).1
unfolding sr_nat_insert_mapping
insert_refines limits nat ip aux t now v s room =
    let (m, nat') = sr_nat_insert_mapping nat ip aux t now in
    (
      (sr_nat_insert_mapping-IsValid nat ip aux t now v room).0,
      s,
      (
        m.aux_ext,
        insert-LeastFree nat ip aux t now v room,
        fun_ext (λ k. view-insert_mapping nat ip aux t now k),
      ),
    )

connect_refines :
    (limits nat nat' : SrNat) (port : ℕ) (p : Buffer) (state : TcpState) (now : ℕ)
    (c : Option Connection)
    → IsValid nat
    → SameLimits limits nat
    → sr_nat_insert_connection nat port p state now ≡ some (c, nat')
    → Refined limits (connect port p state now) nat nat'
unfolding sr_nat_insert_connection
connect_refines limits nat nat' port p state now c v s e = (
  SameIds-IsValid nat nat' (sr_nat_insert_connection-SameIds nat port p state now c nat' e) v,
  ground arith,
  fun_ext (λ k. view-insert_connection nat nat' port p state now k c e),
)

expire_refines :
    (limits nat : SrNat) (now : ℕ)
    → IsValid nat
    → SameLimits limits nat
    → Refined limits (expire now) nat (timeout_mappings nat now)
unfolding timeout_mappings
expire_refines limits nat now v s = (
  timeout_mappings-IsValid nat now v,
  s,
  fun_ext (λ k.
      view-timeout_mappings nat now k v
      ∙ ap (λ g. view_of nat k >>= g) (fun_ext (λ m. sweep_mapping-limits limits nat now m s))),
)

apply_refines :
    (limits nat nat' : SrNat) (op : Op)
    → IsValid nat
    → SameLimits limits nat
    → RoomNow op nat
    → apply op nat ≡ some nat'
    → Refined limits op nat nat'
unfolding apply
apply_refines limits nat nat' (insert ip aux t now) v s room e =
    subst (Refined limits (insert ip aux t now) nat) (cc)
      (insert_refines limits nat ip aux t now v s room)
apply_refines limits nat nat' (connect port p state now) v s room e =
    let (r, f, g) =
      bind_parts (sr_nat_insert_connection nat port p state now)
        (λ (r : Option Connection × SrNat). some r.1) nat' e in
    subst (Refined limits (connect port p state now) nat) (cc)
      (connect_refines limits nat r.1 port p state now r.0 v s f)
apply_refines limits nat nat' (expire now) v s room e =
    subst (Refined limits (expire now) nat) (cc) (expire_refines limits nat now v s)

run_refines_from :
    (limits nat nat' : SrNat) (ops : List Op)
    → IsValid nat
    → SameLimits limits nat
    → RoomFor ops nat
    → run ops nat ≡ some nat'
    → IsValid nat' × SpecRun limits ops (view_of nat) (view_of nat')
unfolding run
run_refines_from limits nat nat' [] v s room e =
    subst (λ n. IsValid n × (view_of n ≡ view_of nat)) (cc) (v, refl)
run_refines_from limits nat nat' (op ∷ ops) v s room e = elim (Option-cases (apply op nat)) [
  | inl f ↦ absurd (cc (rw f at e))
  | inr (mid, f) ↦
      let (ok, same, step) = apply_refines limits nat mid op v s room.0 f in
      let (last, rest) =
        run_refines_from limits mid nat' ops ok same (rw f at room.1) (rw f at e) in
      (last, (view_of mid, step, rest))
]

-- From a valid table, every run of insertions, new connections and timeout rounds that does not fault
-- and has an id free at each insertion ends in a valid table, and what the table keeps for each id is
-- what the specification allows: an insertion puts the mapping under the least free id, a connection
-- is added to the mapping of its port, a round sweeps each mapping by itself, and nothing else changes.
pub run_refines :
    (nat nat' : SrNat) (ops : List Op)
    → IsValid nat
    → RoomFor ops nat
    → run ops nat ≡ some nat'
    → IsValid nat' × SpecRun nat ops (view_of nat) (view_of nat')
run_refines nat nat' ops v room e = run_refines_from nat nat nat' ops v (refl, refl, refl) room e
