-- ===== src/Nat/View.antt =====
-- The mapping table as a finite map from external ids, and its operations on that map.
use cscd58_nat.Base.{
  ℕ, ◌≤◌, ◌≡◌, inl, inr, refl, sym, ◌∙◌, List, [], ◌∷◌, Option, none, some, ◌==◌, if◌then◌else◌,
  arith, ◌>>=◌, Bool-cases, Option-cases, Buffer,
}
use cscd58_nat.Nat.Types.{MappingType, icmp, TcpState, Mapping, Connection, SrNat}
use cscd58_nat.Nat.Bitmap.{clear_bit}
use cscd58_nat.Nat.Bitmap.Bits.{used, used-le}
use cscd58_nat.Nat.Table.{find_mapping, has_ext, sr_nat_insert_mapping, sr_nat_lookup_external}
use cscd58_nat.Nat.Table.Invariant.{count_ext, IsValid}
use cscd58_nat.Nat.Conn.{update_mapping, push_conn, new_connection, sr_nat_insert_connection}
use cscd58_nat.Nat.Timeout.{sweep_mapping, sweep_mappings, timeout_mappings}
use cscd58_nat.Nat.Timeout.Sweep.{aux_ext-sweep_mapping}

-- What is kept for an external id. The lookup does not read its type argument.
abbrev pub View : Type 0
View = ℕ → Option Mapping

abbrev pub view_of : SrNat → View
view_of nat k = sr_nat_lookup_external nat k icmp

pub find_mapping-none :
    (k : ℕ) (ms : List Mapping)
    → (find_mapping (has_ext k) ms ≡ none → count_ext k ms ≡ 0)
      × (count_ext k ms ≡ 0 → find_mapping (has_ext k) ms ≡ none)
unfolding find_mapping
find_mapping-none k [] = (λ _. refl, λ _. refl)
find_mapping-none k (m ∷ ms) =
    let ih = find_mapping-none k ms in (λ e. ground (arith, ih.0), λ e. ground (arith, ih.1))

-- An id is marked exactly when something is kept for it.
pub view-used :
    (nat : SrNat) (k : ℕ)
    → IsValid nat
    → (view_of nat k ≡ none → used nat.bitmap k ≡ 0)
      × (used nat.bitmap k ≡ 0 → view_of nat k ≡ none)
unfolding sr_nat_lookup_external
view-used nat k v =
    let e = v.exact k in
    let f = find_mapping-none k nat.mappings in (λ h. e ∙ f.0 h, λ h. f.1 (sym e ∙ h))

find_mapping-swept :
    (nat : SrNat) (now k : ℕ) (ms : List Mapping) (bitmap : List ℕ)
    → count_ext k ms ≤ 1
    → find_mapping (has_ext k) (sweep_mappings nat now ms bitmap).0
      ≡ (find_mapping (has_ext k) ms >>= sweep_mapping nat now)
unfolding find_mapping sweep_mappings
find_mapping-swept nat now k [] bitmap u = refl
find_mapping-swept nat now k (m ∷ ms) bitmap u = elim (Option-cases (sweep_mapping nat now m)) [
  | inl gone ↦
      let ih = find_mapping-swept nat now k ms (clear_bit bitmap m.aux_ext) (omega arith) in
      elim (Bool-cases (has_ext k m)) [
        | inl own ↦
            let rest = (find_mapping-none k ms).1 (ground arith) in
            rw (gone, own, sweep_mappings, gone) (ih ∙ rw rest refl)
        | inr other ↦ rw (gone, other, sweep_mappings) ih
      ]
  | inr (m', kept) ↦
      let ih = find_mapping-swept nat now k ms bitmap (omega arith) in
      let id = aux_ext-sweep_mapping nat now m m' kept in ground (arith, ih, id)
]

-- A timeout round on what is kept for an id.
pub view-timeout_mappings :
    (nat : SrNat) (now k : ℕ)
    → IsValid nat
    → view_of (timeout_mappings nat now) k ≡ (view_of nat k >>= sweep_mapping nat now)
unfolding sr_nat_lookup_external timeout_mappings
view-timeout_mappings nat now k v =
    find_mapping-swept nat now k nat.mappings nat.bitmap
      (omega (arith, v.exact k, used-le nat.bitmap k))

-- An insertion on what is kept for an id.
pub view-insert_mapping :
    (nat : SrNat) (ip aux : ℕ) (t : MappingType) (now k : ℕ)
    → let (m, nat') = sr_nat_insert_mapping nat ip aux t now in
      view_of nat' k ≡ (if k == m.aux_ext then some m else view_of nat k)
unfolding sr_nat_lookup_external sr_nat_insert_mapping find_mapping
view-insert_mapping nat ip aux t now k = ground arith

find_mapping-update_mapping :
    (k port : ℕ) (change : Mapping → Mapping) (ms : List Mapping)
    → ((m : Mapping) → (change m).aux_ext ≡ m.aux_ext)
    → find_mapping (has_ext k) (update_mapping (has_ext port) change ms) ≡ (
        if k == port
        then (find_mapping (has_ext k) ms >>= λ m. some (change m))
        else find_mapping (has_ext k) ms)
unfolding find_mapping update_mapping
find_mapping-update_mapping k port change [] keep = ground arith
find_mapping-update_mapping k port change (m ∷ ms) keep =
    ground (arith, keep m, find_mapping-update_mapping k port change ms keep)

-- A new connection on what is kept for an id.
pub view-insert_connection :
    (nat nat' : SrNat) (port : ℕ) (p : Buffer) (state : TcpState) (now k : ℕ)
    (c : Option Connection)
    → sr_nat_insert_connection nat port p state now ≡ some (c, nat')
    → view_of nat' k ≡ (
        if k == port
        then (view_of nat k >>= λ m. some (push_conn (new_connection p state now) m))
        else view_of nat k)
unfolding sr_nat_lookup_external sr_nat_insert_connection
view-insert_connection nat nat' port p state now k c e = ground (
  arith,
  find_mapping-update_mapping k port (push_conn (new_connection p state now)) nat.mappings
      (λ m. refl),
)
