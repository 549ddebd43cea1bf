-- ===== src/Proto.antt =====
-- router/sr_protocol.h: the constants, and (in the children) the fields of the packed headers as
-- loads and stores at their offsets. `p` is the buffer that the header's pointer points into and
-- `o` the header's offset in it. A field of several bytes is read as the little-endian host reads
-- it, so it stands in network byte order until `ntohs` or `ntohl`.
pub mod Ether
pub mod Arp
pub mod Ip
pub mod Tcp
pub mod Icmp
use cscd58_nat.Base.{ℕ}

-- ETHER_ADDR_LEN
abbrev pub ether_addr_len : ℕ
ether_addr_len = 6

-- sr_IFACE_NAMELEN
abbrev pub iface_namelen : ℕ
iface_namelen = 32
