-- ===== src/Instance.antt =====
-- struct sr_instance of router/sr_router.h: the state of the router. The socket, the log file and
-- the names given to the server are left out; `sent` is what has been written to the server, the
-- latest first.
use cscd58_nat.Base.{ℕ, List, Bool, Buffer}
use cscd58_nat.If.{SrIf}
use cscd58_nat.Rt.{RtEntry}
use cscd58_nat.Arp.{ArpCache}
use cscd58_nat.Nat.Types.{SrNat}

-- A frame and the interface that it leaves by.
pub record Sent : Type 0 where
  pub iface : List ℕ
  pub frame : Buffer

pub record Sr : Type 0 where
  pub if_list : List SrIf
  pub routing_table : List RtEntry
  pub cache : ArpCache
  pub nat : SrNat
  pub nat_enabled : Bool
  pub sent : List Sent
