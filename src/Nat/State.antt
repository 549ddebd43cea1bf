-- ===== src/Nat/State.antt =====
-- `_determine_state` of router/sr_nat.c. The flags are the bits SYN, ACK and FIN.
pub mod Reach
use cscd58_nat.Base.{ℕ, ◌==◌, ◌&&◌, if◌then◌else◌}
use cscd58_nat.Nat.Types.{
  TcpState, same_state, closed, syn_sent, syn_rcvd, estab, fin_wait_1, fin_wait_2, closing,
}

pub record Flags : Type 0 where
  pub syn : ℕ
  pub ack : ℕ
  pub fin : ℕ

pub determine_state : TcpState → Flags → TcpState
determine_state state f =
    if f.syn == 1 && f.ack == 0
    then syn_sent
    else if same_state state syn_sent && f.syn == 1 && f.ack == 1
    then estab
    else if same_state state syn_sent && f.syn == 1
    then syn_rcvd
    else if same_state state syn_rcvd && f.ack == 1
    then estab
    else if same_state state estab && f.fin == 1
    then fin_wait_1
    else if same_state state fin_wait_1 && f.fin == 1
    then closing
    else if same_state state closing && f.ack == 1
    then closed
    else if same_state state fin_wait_1 && f.fin == 1 && f.ack == 1
    then closed
    else if same_state state fin_wait_1 && f.ack == 1
    then fin_wait_2
    else if same_state state fin_wait_2 && f.fin == 1
    then closed
    else state
