-- ===== src/Nat/Conn.antt =====
-- The connections of a mapping: `sr_nat_insert_connection` and `sr_nat_update_connection` of
-- router/sr_nat.c. The outer `none` is a fault, the inner one the NULL result.
pub mod Laws
use cscd58_nat.Base.{
  ℕ, List, [], ◌∷◌, Option, none, some, Bool, true, false, ◌==◌, ◌&&◌, if◌then◌else◌, Buffer, ◌>>=◌,
  get_or,
}
use cscd58_nat.Proto.Ip
use cscd58_nat.Proto.Tcp
use cscd58_nat.Nat.Types.{TcpState, Connection, Mapping, SrNat}
use cscd58_nat.Nat.State.{Flags, determine_state}
use cscd58_nat.Nat.Table.{find_mapping, has_ext, has_int}
use cscd58_nat.Nat.Unsol.{sr_nat_remove_unsolicited_packet, sr_nat_insert_unsolicited_packet}

-- A write through the pointer at which a walk with this test stops.
unfoldable pub update_mapping : (Mapping → Bool) → (Mapping → Mapping) → List Mapping → List Mapping
update_mapping test change [] = []
update_mapping test change (m ∷ ms) =
    if test m then change m ∷ ms else m ∷ update_mapping test change ms

unfoldable pub update_conn :
    (Connection → Bool) → (Connection → Connection) → List Connection → List Connection
update_conn test change [] = []
update_conn test change (c ∷ cs) = if test c then change c ∷ cs else c ∷ update_conn test change cs

unfoldable pub find_conn : (Connection → Bool) → List Connection → Option Connection
find_conn test [] = none
find_conn test (c ∷ cs) = if test c then some c else find_conn test cs

abbrev pub new_connection : Buffer → TcpState → ℕ → Connection
new_connection ip_packet state now = record {
  state = state;
  peer_ip = Ip.dst ip_packet;
  peer_port = Tcp.dst_port ip_packet (Ip.header_len ip_packet);
  last_updated = now;
}

abbrev pub push_conn : Connection → Mapping → Mapping
push_conn c m = record m { conns = c ∷ m.conns }

-- The new connection is pushed in front of those of the first mapping with this external port.
unfoldable pub sr_nat_insert_connection :
    SrNat → ℕ → Buffer → TcpState → ℕ → Option (Option Connection × SrNat)
sr_nat_insert_connection nat ext_port ip_packet state now =
    elim (find_mapping (has_ext ext_port) nat.mappings) [
      | none ↦ some (none, nat)
      | some curr ↦ do
        unsol ← sr_nat_remove_unsolicited_packet nat.unsol_pkt ip_packet
        some (
          some (new_connection ip_packet state now),
          record nat {
            mappings =
                update_mapping (has_ext ext_port) (push_conn (new_connection ip_packet state now))
                  nat.mappings;
            unsol_pkt = unsol;
          },
        )
    ]

-- `direction`: 1 is external -> internal, 0 is internal -> external.
pub data Direction : Type 0 where
  inbound outbound : Direction

abbrev pub is_peer : Direction → Buffer → Connection → Bool
is_peer inbound ip_packet c =
    c.peer_ip == Ip.src ip_packet && c.peer_port == Tcp.src_port ip_packet (Ip.header_len ip_packet)
is_peer outbound ip_packet c =
    c.peer_ip == Ip.dst ip_packet && c.peer_port == Tcp.dst_port ip_packet (Ip.header_len ip_packet)

abbrev pub flags_of : Buffer → Flags
flags_of ip_packet = record {
  syn = Tcp.syn ip_packet (Ip.header_len ip_packet);
  ack = Tcp.ack ip_packet (Ip.header_len ip_packet);
  fin = Tcp.fin ip_packet (Ip.header_len ip_packet);
}

abbrev pub advance : Buffer → ℕ → Connection → Connection
advance ip_packet now c = record c {
  state = determine_state c.state (flags_of ip_packet);
  last_updated = now;
}

abbrev pub advance_conn : Direction → Buffer → ℕ → Mapping → Mapping
advance_conn direction ip_packet now m = record m {
  conns = update_conn (is_peer direction ip_packet) (advance ip_packet now) m.conns;
}

-- `mapping` is a copy whose `conns` pointer is that of the mapping in the table with its internal
-- address and port, so the write shows there; where two mappings have them, it is the first that
-- changes here. An unknown peer's packet is kept as unsolicited.
unfoldable pub sr_nat_update_connection :
    SrNat → Mapping → Buffer → Direction → ℕ → Option (Option Connection × SrNat)
sr_nat_update_connection nat mapping ip_packet direction now =
    elim (find_conn (is_peer direction ip_packet) mapping.conns) [
      | some curr ↦ some (
        some (advance ip_packet now curr),
        record nat {
          mappings =
              update_mapping (has_int mapping.ip_int mapping.aux_int)
                (advance_conn direction ip_packet now) nat.mappings;
        },
      )
      | none ↦ do
        unsol ← sr_nat_insert_unsolicited_packet nat.unsol_pkt ip_packet now
        some (none, record nat { unsol_pkt = unsol })
    ]
