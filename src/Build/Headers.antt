-- ===== src/Build/Headers.antt =====
-- What a receiver reads in the IP and ICMP headers that router/sr_router.c builds.
use cscd58_nat.Base.{
  ℕ, ◌+◌, ◌^◌, ◌<◌, ◌≡◌, refl, ◌∷◌, some, arith, Buffer, length, drop, load8, store8, load16,
  store16, load32, store32, ntohs,
}
use cscd58_nat.Proto.Ip
use cscd58_nat.Proto.Icmp
use cscd58_nat.Cksum.{cksum}
use cscd58_nat.Cksum.Sum.{cksum-lt}
use cscd58_nat.Build.{sr_create_ippacket, sr_create_icmppacket, icmp_body}

-- An IP packet of the router: 20 bytes of header and the payload.
pub record IsDatagram (protocol source dest : ℕ) (load packet : Buffer) : Type 0 where
  pub header_len : Ip.header_len packet ≡ Ip.size
  pub len : ntohs (Ip.len packet) ≡ Ip.size + length load
  pub ttl : Ip.ttl packet ≡ Ip.default_ttl
  pub proto : Ip.proto packet ≡ protocol
  pub src : Ip.src packet ≡ source
  pub dst : Ip.dst packet ≡ dest
  pub payload : drop Ip.size packet ≡ load

pub sr_create_ippacket-IsDatagram :
    (load : Buffer) (protocol source dest : ℕ)
    → Ip.size + length load < 2 ^ 16
    → protocol < 256
    → source < 2 ^ 32
    → dest < 2 ^ 32
    → IsDatagram protocol source dest load (sr_create_ippacket load protocol source dest)
unfolding sr_create_ippacket load16 load8 load32 store32 store16 store8 ntohs
sr_create_ippacket-IsDatagram load protocol source dest short p s d = record {
  header_len = refl;
  len = omega arith;
  ttl = refl;
  proto = omega arith;
  src = omega arith;
  dst = omega arith;
  payload = refl;
}

-- An ICMP message at the start of a buffer: what follows the checksum, and the receiver's test.
pub record IsMessage (type code : ℕ) (rest packet : Buffer) : Type 0 where
  pub icmp_type : Icmp.icmp_type packet 0 ≡ type
  pub icmp_code : Icmp.icmp_code packet 0 ≡ code
  pub sum : cksum (Icmp.set_sum packet 0 0) ≡ Icmp.sum packet 0
  pub body : drop 4 packet ≡ rest
  pub size : length packet ≡ 4 + length rest

pub sr_create_icmppacket-IsMessage :
    (packet body : Buffer) (type code : ℕ)
    → icmp_body packet type ≡ some body
    → (q : Buffer) × (sr_create_icmppacket packet type code ≡ some q) × IsMessage type code body q
unfolding sr_create_icmppacket store16 load16 load8
sr_create_icmppacket-IsMessage packet body type code e =
    let m : Buffer = type ∷ code ∷ 0 ∷ 0 ∷ body in
    (
      Icmp.set_sum m 0 (cksum m),
      rw (e, sr_create_icmppacket) refl,
      record {
        icmp_type = refl;
        icmp_code = refl;
        sum = omega (arith, cksum-lt m);
        body = refl;
        size = omega arith;
      },
    )
