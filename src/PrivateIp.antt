-- ===== src/PrivateIp.antt =====
-- `is_private_ip` of router/sr_utils.c, on an address in host byte order.
use cscd58_nat.Base.{
  ℕ, ◌+◌, ◌*◌, ◌/◌, ◌^◌, ◌<◌, ◌≡◌, ◌↔◌, ◌⊎◌, bit_and, Bool, true, false, arith, ◌==◌, if◌then◌else◌,
  bit_and-field,
}

unfoldable pub is_private_ip : ℕ → Bool
is_private_ip ip =
    if bit_and ip 0xff000000 == 0x0a000000
    then true
    else if bit_and ip 0xffff0000 == 0xac100000
    then true
    else if bit_and ip 0xffff0000 == 0xc0a80000
    then true
    else false

-- For a 32-bit address the test holds exactly on 10.0.0.0 to 10.255.255.255, 172.16.0.0 to
-- 172.16.255.255 and 192.168.0.0 to 192.168.255.255.
pub is_private_ip_iff :
    (ip : ℕ)
    → ip < 2 ^ 32
    → (is_private_ip ip ≡ true)
      ↔ ((ip / 2 ^ 24 ≡ 10) ⊎ (ip / 2 ^ 16 ≡ 172 * 256 + 16) ⊎ (ip / 2 ^ 16 ≡ 192 * 256 + 168))
unfolding is_private_ip
is_private_ip_iff ip h = ground (arith, bit_and-field 8 24 ip, bit_and-field 16 16 ip)
