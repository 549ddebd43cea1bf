-- ===== src/Proto/Arp.antt =====
-- struct sr_arp_packet of router/sr_protocol.h.
use cscd58_nat.Base.{ℕ, Buffer, load16, load32, take, drop}

abbrev pub size : ℕ
size = 28

abbrev pub hrd : Buffer → ℕ
hrd p = load16 p 0

abbrev pub pro : Buffer → ℕ
pro p = load16 p 2

abbrev pub op : Buffer → ℕ
op p = load16 p 6

abbrev pub sha : Buffer → Buffer
sha p = take 6 (drop 8 p)

abbrev pub sip : Buffer → ℕ
sip p = load32 p 14

abbrev pub tha : Buffer → Buffer
tha p = take 6 (drop 18 p)

abbrev pub tip : Buffer → ℕ
tip p = load32 p 24

abbrev pub hrd_ethernet : ℕ
hrd_ethernet = 0x0001

abbrev pub pro_ip : ℕ
pro_ip = 0x0800

abbrev pub op_request : ℕ
op_request = 0x0001

abbrev pub op_reply : ℕ
op_reply = 0x0002
