-- ===== src/Proto/Icmp.antt =====
-- struct sr_icmp_hdr and struct sr_icmp_packet of router/sr_protocol.h.
use cscd58_nat.Base.{ℕ, ◌+◌, Buffer, load8, load16, store16}

abbrev pub size : ℕ
size = 8

abbrev pub icmp_type : Buffer → ℕ → ℕ
icmp_type p o = load8 p o

abbrev pub icmp_code : Buffer → ℕ → ℕ
icmp_code p o = load8 p (o + 1)

abbrev pub sum : Buffer → ℕ → ℕ
sum p o = load16 p (o + 2)

abbrev pub set_sum : Buffer → ℕ → ℕ → Buffer
set_sum p o v = store16 p (o + 2) v

abbrev pub identifier : Buffer → ℕ → ℕ
identifier p o = load16 p (o + 4)

abbrev pub set_identifier : Buffer → ℕ → ℕ → Buffer
set_identifier p o v = store16 p (o + 4) v

-- ICMP_DATA_SIZE
abbrev pub data_size : ℕ
data_size = 28

abbrev pub echoreply : ℕ
echoreply = 0x00

abbrev pub dstunreachable : ℕ
dstunreachable = 0x03

abbrev pub timeexceeded : ℕ
timeexceeded = 0x0B
