-- ===== src/Nat/Conn/Laws.antt =====
-- The external ids across the operations on connections.
use cscd58_nat.Base.{ℕ, ◌≡◌, refl, List, [], ◌∷◌, Option, some, Bool, arith, Buffer}
use cscd58_nat.Nat.Types.{TcpState, Connection, Mapping, SrNat}
use cscd58_nat.Nat.Table.{has_ext, has_int}
use cscd58_nat.Nat.Table.Invariant.{count_ext, IsValid}
use cscd58_nat.Nat.Conn.{
  update_mapping, push_conn, new_connection, advance_conn, Direction, sr_nat_insert_connection,
  sr_nat_update_connection,
}

-- A change that keeps the external ids keeps their counts.
count_ext-update_mapping :
    (test : Mapping → Bool) (change : Mapping → Mapping) (k : ℕ) (ms : List Mapping)
    → ((m : Mapping) → (change m).aux_ext ≡ m.aux_ext)
    → count_ext k (update_mapping test change ms) ≡ count_ext k ms
unfolding update_mapping
count_ext-update_mapping test change k [] h = refl
count_ext-update_mapping test change k (m ∷ ms) h =
    ground (arith, h m, count_ext-update_mapping test change k ms h)

-- The same marked ids, and the same external ids as often.
abbrev pub SameIds : SrNat → SrNat → Type 0
SameIds nat nat' =
    (nat'.bitmap ≡ nat.bitmap) × ((k : ℕ) → count_ext k nat'.mappings ≡ count_ext k nat.mappings)

pub SameIds-IsValid : (nat nat' : SrNat) → SameIds nat nat' → IsValid nat → IsValid nat'
SameIds-IsValid nat nat' s v = record {
  size = rw (s.0) v.size;
  exact = λ k. rw (s.0, s.1 k) (v.exact k);
}

pub sr_nat_insert_connection-SameIds :
    (nat : SrNat) (ext_port : ℕ) (ip_packet : Buffer) (state : TcpState) (now : ℕ)
    (c : Option Connection) (nat' : SrNat)
    → sr_nat_insert_connection nat ext_port ip_packet state now ≡ some (c, nat')
    → SameIds nat nat'
unfolding sr_nat_insert_connection
sr_nat_insert_connection-SameIds nat ext_port ip_packet state now c nat' e = (
  ground arith,
  λ k. ground (
    arith,
    count_ext-update_mapping (has_ext ext_port) (push_conn (new_connection ip_packet state now)) k
        nat.mappings (λ m. refl),
  ),
)

pub sr_nat_update_connection-SameIds :
    (nat : SrNat) (mapping : Mapping) (ip_packet : Buffer) (d : Direction) (now : ℕ)
    (c : Option Connection) (nat' : SrNat)
    → sr_nat_update_connection nat mapping ip_packet d now ≡ some (c, nat')
    → SameIds nat nat'
unfolding sr_nat_update_connection
sr_nat_update_connection-SameIds nat mapping ip_packet d now c nat' e = (
  ground arith,
  λ k. ground (
    arith,
    count_ext-update_mapping (has_int mapping.ip_int mapping.aux_int) (advance_conn d ip_packet now)
        k nat.mappings (λ m. refl),
  ),
)
