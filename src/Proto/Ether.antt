-- ===== src/Proto/Ether.antt =====
-- struct sr_ethernet_hdr of router/sr_protocol.h.
use cscd58_nat.Base.{ℕ, Buffer, load16, take, drop}

abbrev pub size : ℕ
size = 14

abbrev pub dhost : Buffer → Buffer
dhost p = take 6 p

abbrev pub shost : Buffer → Buffer
shost p = take 6 (drop 6 p)

abbrev pub ether_type : Buffer → ℕ
ether_type p = load16 p 12

abbrev pub ethertype_arp : ℕ
ethertype_arp = 0x0806

abbrev pub ethertype_ip : ℕ
ethertype_ip = 0x0800
