-- ===== src/Proto/Ip.antt =====
-- struct sr_ip_hdr of router/sr_protocol.h, at the start of the buffer. On the little-endian host
-- the bit field `ip_hl` is the low half of the first byte.
use cscd58_nat.Base.{ℕ, ◌*◌, ◌%◌, Buffer, load8, store8, load16, store16, load32, store32}

abbrev pub size : ℕ
size = 20

abbrev pub hl : Buffer → ℕ
hl p = load8 p 0 % 16

-- (ip_header->ip_hl) * 4
abbrev pub header_len : Buffer → ℕ
header_len p = hl p * 4

abbrev pub len : Buffer → ℕ
len p = load16 p 2

abbrev pub ttl : Buffer → ℕ
ttl p = load8 p 8

abbrev pub set_ttl : Buffer → ℕ → Buffer
set_ttl p v = store8 p 8 v

abbrev pub proto : Buffer → ℕ
proto p = load8 p 9

abbrev pub sum : Buffer → ℕ
sum p = load16 p 10

abbrev pub set_sum : Buffer → ℕ → Buffer
set_sum p v = store16 p 10 v

abbrev pub src : Buffer → ℕ
src p = load32 p 12

abbrev pub set_src : Buffer → ℕ → Buffer
set_src p v = store32 p 12 v

abbrev pub dst : Buffer → ℕ
dst p = load32 p 16

abbrev pub set_dst : Buffer → ℕ → Buffer
set_dst p v = store32 p 16 v

abbrev pub maxpacket : ℕ
maxpacket = 65535

abbrev pub protocol_icmp : ℕ
protocol_icmp = 0x01

abbrev pub protocol_tcp : ℕ
protocol_tcp = 0x06

abbrev pub protocol_udp : ℕ
protocol_udp = 0x11

-- DEFAULT_HDRLEN, IPV4_VERSION and DEFAULT_TTL
abbrev pub default_hdrlen : ℕ
default_hdrlen = 5

abbrev pub ipv4_version : ℕ
ipv4_version = 4

abbrev pub default_ttl : ℕ
default_ttl = 64
