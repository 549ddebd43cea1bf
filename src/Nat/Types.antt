-- ===== src/Nat/Types.antt =====
-- The data types and constants of router/sr_nat.h. Linked lists are lists, times are whole seconds.
use cscd58_nat.Base.{ℕ, List, Buffer, Bool, ◌==◌, ◌+◌, ltb}

-- sr_nat_mapping_type
pub data MappingType : Type 0 where
  icmp tcp : MappingType

-- sr_tcp_state_type, with the header's spelling of CLOSE_WAIT.
pub data TcpState : Type 0 where
  closed listen syn_sent syn_rcvd estab fin_wait_1 fin_wait_2 : TcpState
  closing time_wait clost_wait last_ack : TcpState

-- The values of the enumerators.
abbrev pub state_code : TcpState → ℕ
state_code closed = 0
state_code listen = 1
state_code syn_sent = 2
state_code syn_rcvd = 3
state_code estab = 4
state_code fin_wait_1 = 5
state_code fin_wait_2 = 6
state_code closing = 7
state_code time_wait = 8
state_code clost_wait = 9
state_code last_ack = 10

-- `a == b` on two enumerators.
abbrev pub same_state : TcpState → TcpState → Bool
same_state a b = state_code a == state_code b

-- struct sr_nat_unsol_pkt
pub record UnsolPkt : Type 0 where
  pub ip_packet : Buffer
  pub last_updated : ℕ

-- The pointer `unsol_pkt`: a list, or a pointer to a node that has been freed.
pub data UnsolHead : Type 0 where
  pkts : List UnsolPkt → UnsolHead
  dangling : UnsolHead

-- struct sr_nat_connection. `peer_ip` and `peer_port` are kept in network byte order.
pub record Connection : Type 0 where
  pub state : TcpState
  pub peer_ip : ℕ
  pub peer_port : ℕ
  pub last_updated : ℕ

-- struct sr_nat_mapping. `ip_int`, `aux_int` and `aux_ext` are in host byte order. The field
-- `ip_ext` is never read or written after `calloc` and is left out.
pub record Mapping : Type 0 where
  pub type : MappingType
  pub ip_int : ℕ
  pub aux_int : ℕ
  pub aux_ext : ℕ
  pub last_updated : ℕ
  pub conns : List Connection

-- struct sr_nat. `bitmap` holds the `int`s as 32-bit patterns. The lock and the thread are left out:
-- each function below is one step under the lock.
pub record SrNat : Type 0 where
  pub mappings : List Mapping
  pub icmp_query_to : ℕ
  pub tcp_estab_idle_to : ℕ
  pub tcp_transitory_to : ℕ
  pub bitmap : List ℕ
  pub unsol_pkt : UnsolHead

-- DEFAULT_ID and TOTAL_PORTS
abbrev pub default_id : ℕ
default_id = 1024

abbrev pub total_ports : ℕ
total_ports = 65536

-- DEFAULT_TCP_SYN_TO
abbrev pub default_tcp_syn_to : ℕ
default_tcp_syn_to = 6

-- `difftime(now, then) > limit`
abbrev pub older : ℕ → ℕ → ℕ → Bool
older now then limit = ltb (then + limit) now
