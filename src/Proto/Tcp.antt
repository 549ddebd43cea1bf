-- ===== src/Proto/Tcp.antt =====
-- struct sr_tcp_hdr and struct sr_tcp_pseudo_hdr of router/sr_protocol.h. The flags are the
-- little-endian host's bit fields of the byte at 13.
use cscd58_nat.Base.{ℕ, ◌+◌, Buffer, load8, load16, store16, load32, test_bit}

abbrev pub size : ℕ
size = 20

abbrev pub src_port : Buffer → ℕ → ℕ
src_port p o = load16 p o

abbrev pub set_src_port : Buffer → ℕ → ℕ → Buffer
set_src_port p o v = store16 p o v

abbrev pub dst_port : Buffer → ℕ → ℕ
dst_port p o = load16 p (o + 2)

abbrev pub set_dst_port : Buffer → ℕ → ℕ → Buffer
set_dst_port p o v = store16 p (o + 2) v

abbrev pub seq_num : Buffer → ℕ → ℕ
seq_num p o = load32 p (o + 4)

abbrev pub fin : Buffer → ℕ → ℕ
fin p o = test_bit (load8 p (o + 13)) 0

abbrev pub syn : Buffer → ℕ → ℕ
syn p o = test_bit (load8 p (o + 13)) 1

abbrev pub ack : Buffer → ℕ → ℕ
ack p o = test_bit (load8 p (o + 13)) 4

abbrev pub set_checksum : Buffer → ℕ → ℕ → Buffer
set_checksum p o v = store16 p (o + 16) v

abbrev pub pseudo_size : ℕ
pseudo_size = 12
