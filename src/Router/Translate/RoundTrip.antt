-- ===== src/Router/Translate/RoundTrip.antt =====
-- An outbound ICMP packet and the answer to it.
use cscd58_nat.Base.{
  ℕ, ◌+◌, ◌*◌, ◌%◌, ◌^◌, ◌<◌, ◌≡◌, ◌⊎◌, inl, inr, refl, sym, ap, ◌∙◌, some, true, false, Buffer,
  length, arith, ntohs, ntohl, Option-cases, load8, store32, load16-store16, load8-store16_ne,
  load8-store32_ne, load32-store16_ne, load16-store16_ne, load16-store32_ne, length-store16,
  length-store32, load32-store32_ne, load32-store32, ntohs-lt, ntohs-ntohs, ntohl-lt, ntohl-ntohl,
}
use mathlib.Core.Path.{subst}
use cscd58_nat.Proto.Ip
use cscd58_nat.Proto.Icmp
use cscd58_nat.PrivateIp.{is_private_ip}
use cscd58_nat.Cksum.Sum.{AllBytes, load16-AllBytes, load32-AllBytes}
use cscd58_nat.Rt.{RtEntry, sr_rt_lookup}
use cscd58_nat.Nat.Types.{icmp, Mapping, SrNat}
use cscd58_nat.Nat.Table.{sr_nat_lookup_external, sr_nat_lookup_internal}
use cscd58_nat.Nat.Table.Invariant.{IsValid, HasRoom, sr_nat_insert_mapping-IsValid}
use cscd58_nat.Nat.Table.Lookup.{
  lookup_internal-lookup_external, insert-lookup, insert_fields, found_id-lt,
}
use cscd58_nat.Instance.{Sr}
use cscd58_nat.Router.Translate.{
  route_ip, icmp_mapping, icmp_outbound, icmp_inbound, nat_handle_icmp,
}
use cscd58_nat.Router.Translate.Refresh.{IcmpFits, header_len-SameRoute, refresh_icmp-SameRoute}

-- The mapping that an outbound packet uses is the one of its sender, and its external id finds it.
pub icmp_mapping_lem :
    (nat : SrNat) (ip aux now : ℕ)
    → IsValid nat
    → HasRoom nat
    → let (m, nat') = icmp_mapping nat ip aux now in
      IsValid nat'
      × (sr_nat_lookup_external nat' m.aux_ext icmp ≡ some m)
      × (m.ip_int ≡ ip)
      × (m.aux_int ≡ aux)
unfolding icmp_mapping
icmp_mapping_lem nat ip aux now v room =
    elim (Option-cases (sr_nat_lookup_internal nat ip aux icmp)) [
      | inl e ↦
          let new = insert-lookup nat ip aux icmp now v room in
          let fields = insert_fields nat ip aux icmp now in
          rw (e, icmp_mapping)
            (
              (sr_nat_insert_mapping-IsValid nat ip aux icmp now v room).0,
              new.1,
              fields.0,
              fields.1,
            )
      | inr (m, e) ↦
          let old = lookup_internal-lookup_external nat ip aux icmp icmp m v e in
          rw (e, icmp_mapping) (v, old.0, old.1, old.2)
    ]

-- The packet before the checksums are written: one address and the identifier are new.
IcmpFits-store :
    (p : Buffer) (a v w : ℕ)
    → IcmpFits p
    → (a ≡ 12) ⊎ (a ≡ 16)
    → let q = store32 (Icmp.set_identifier p (Ip.header_len p) v) a w in
      IcmpFits q × (Ip.header_len q ≡ Ip.header_len p)
IcmpFits-store p a v w fits place =
    let o = Ip.header_len p in
    let p₁ = Icmp.set_identifier p o v in
    let q = store32 p₁ a w in
    let first : load8 q 0 ≡ load8 p 0 =
      load8-store32_ne p₁ a w 0 (omega arith)
      ∙ load8-store16_ne p (o + 4) v 0 (omega (arith, fits.apart)) in
    let hl : Ip.header_len q ≡ o = ap (λ (b : ℕ). b % 16 * 4) first in
    let ip_len : Ip.len q ≡ Ip.len p =
      load16-store32_ne p₁ a w 2 (omega arith)
      ∙ load16-store16_ne p (o + 4) v 2 (omega (arith, fits.apart)) in
    let long : length q ≡ length p = length-store32 p₁ a w ∙ length-store16 p (o + 4) v in
    (
      record {
        apart = rw hl fits.apart;
        header = rw (hl, long) fits.header;
        message = rw (hl, long, ip_len) fits.message;
      },
      hl,
    )

-- With a route and its interface at hand an outbound packet is translated: it leaves with the
-- interface's address and the mapping's external id, to where it was going, with the same length.
pub icmp_outbound_lem :
    (sr : Sr) (p : Buffer) (now : ℕ) (lpm : RtEntry) (ip : ℕ)
    → IcmpFits p
    → sr_rt_lookup sr.routing_table (Ip.dst p) ≡ some (some lpm)
    → route_ip sr lpm ≡ some ip
    → ip < 2 ^ 32
    → let o = Ip.header_len p in
      let (m, nat') = icmp_mapping sr.nat (ntohl (Ip.src p)) (ntohs (Icmp.identifier p o)) now in
      (q : Buffer) × (icmp_outbound sr p now ≡ some (true, q, record sr { nat = nat' }))
      × (Ip.src q ≡ ip)
      × (Ip.dst q ≡ Ip.dst p)
      × (Ip.header_len q ≡ o)
      × (Icmp.identifier q o ≡ ntohs m.aux_ext)
      × (length q ≡ length p)
unfolding icmp_outbound
icmp_outbound_lem sr p now lpm ip fits route iface small =
    let o = Ip.header_len p in
    let m = (icmp_mapping sr.nat (ntohl (Ip.src p)) (ntohs (Icmp.identifier p o)) now).0 in
    let p₁ = Icmp.set_identifier p o (ntohs m.aux_ext) in
    let p₂ = Ip.set_src p₁ ip in
    let ready = IcmpFits-store p 12 (ntohs m.aux_ext) ip fits (inl refl) in
    let long : length p₁ ≡ length p = length-store16 p (o + 4) (ntohs m.aux_ext) in
    let (q, done, same) = refresh_icmp-SameRoute p₂ ready.0 in
    (
      q,
      rw (route, iface, done, icmp_outbound),
      same.src ∙ load32-store32 p₁ 12 ip (omega (arith, long, fits.apart, fits.header)) small,
      same.dst
          ∙ load32-store32_ne p₁ 12 ip 16 (inr (omega arith))
          ∙ load32-store16_ne p (o + 4) (ntohs m.aux_ext) 16 (omega (arith, fits.apart)),
      header_len-SameRoute same ∙ ready.1,
      subst (λ k. Icmp.identifier q k ≡ Icmp.identifier p₂ k) ready.1 same.identifier
          ∙ load16-store32_ne p₁ 12 ip (o + 4) (omega (arith, fits.apart))
          ∙ load16-store16 p (o + 4) (ntohs m.aux_ext) (omega (arith, fits.header))
              (ntohs-lt m.aux_ext),
      same.size ∙ length-store32 p₁ 12 ip ∙ long,
    )

-- A packet from outside whose id finds a mapping is translated to the mapping's host and id.
pub icmp_inbound_lem :
    (sr : Sr) (p : Buffer) (m : Mapping)
    → IcmpFits p
    → sr_nat_lookup_external sr.nat (ntohs (Icmp.identifier p (Ip.header_len p))) icmp ≡ some m
    → let o = Ip.header_len p in
      (q : Buffer) × (icmp_inbound sr p ≡ some (true, q, sr))
      × (Ip.dst q ≡ ntohl m.ip_int)
      × (Ip.src q ≡ Ip.src p)
      × (Ip.header_len q ≡ o)
      × (Icmp.identifier q o ≡ ntohs m.aux_int)
      × (length q ≡ length p)
unfolding icmp_inbound
icmp_inbound_lem sr p m fits found =
    let o = Ip.header_len p in
    let p₁ = Icmp.set_identifier p o (ntohs m.aux_int) in
    let p₂ = Ip.set_dst p₁ (ntohl m.ip_int) in
    let ready = IcmpFits-store p 16 (ntohs m.aux_int) (ntohl m.ip_int) fits (inr refl) in
    let long : length p₁ ≡ length p = length-store16 p (o + 4) (ntohs m.aux_int) in
    let (q, done, same) = refresh_icmp-SameRoute p₂ ready.0 in
    (
      q,
      rw (found, done, icmp_inbound),
      same.dst
          ∙ load32-store32 p₁ 16 (ntohl m.ip_int) (omega (arith, long, fits.apart, fits.header))
              (ntohl-lt m.ip_int),
      same.src
          ∙ load32-store32_ne p₁ 16 (ntohl m.ip_int) 12 (inl (omega arith))
          ∙ load32-store16_ne p (o + 4) (ntohs m.aux_int) 12 (omega (arith, fits.apart)),
      header_len-SameRoute same ∙ ready.1,
      subst (λ k. Icmp.identifier q k ≡ Icmp.identifier p₂ k) ready.1 same.identifier
          ∙ load16-store32_ne p₁ 16 (ntohl m.ip_int) (o + 4) (omega (arith, fits.apart))
          ∙ load16-store16 p (o + 4) (ntohs m.aux_int) (omega (arith, fits.header))
              (ntohs-lt m.aux_int),
      same.size ∙ length-store32 p₁ 16 (ntohl m.ip_int) ∙ long,
    )

-- The branches of `nat_handle_icmp` for a packet that is long enough for its headers.
pub nat_handle_icmp_outward :
    (sr : Sr) (p : Buffer) (now : ℕ)
    → IcmpFits p
    → is_private_ip (ntohl (Ip.src p)) ≡ true
    → is_private_ip (ntohl (Ip.dst p)) ≡ false
    → nat_handle_icmp sr p now ≡ icmp_outbound sr p now
unfolding nat_handle_icmp
nat_handle_icmp_outward sr p now fits s d = ground (arith, fits.header)

pub nat_handle_icmp_inward :
    (sr : Sr) (p : Buffer) (now : ℕ)
    → IcmpFits p
    → is_private_ip (ntohl (Ip.src p)) ≡ false
    → nat_handle_icmp sr p now ≡ icmp_inbound sr p
unfolding nat_handle_icmp
nat_handle_icmp_inward sr p now fits s = ground (arith, fits.header)

-- A valid table with room, an ICMP packet `p` of bytes from a private address to one that is not,
-- whose route and interface exist, the interface's address having 32 bits, and an answer `r` from an
-- address that is not private, with the identifier that the translated packet has, both long enough
-- for their headers and total length: `p` leaves with the interface's address to where it was going,
-- the table stays valid, and in the state after that, at any time, the answer is translated: it is
-- addressed to the host that `p` came from, with the identifier that `p` had and its own source
-- address, and the state does not change.
pub nat_icmp_round_trip :
    (sr : Sr) (p r : Buffer) (now later : ℕ) (lpm : RtEntry) (ip : ℕ)
    → IsValid sr.nat
    → HasRoom sr.nat
    → AllBytes p
    → IcmpFits p
    → IcmpFits r
    → is_private_ip (ntohl (Ip.src p)) ≡ true
    → is_private_ip (ntohl (Ip.dst p)) ≡ false
    → is_private_ip (ntohl (Ip.src r)) ≡ false
    → sr_rt_lookup sr.routing_table (Ip.dst p) ≡ some (some lpm)
    → route_ip sr lpm ≡ some ip
    → ip < 2 ^ 32
    → let o = Ip.header_len p in
      let (m, nat') = icmp_mapping sr.nat (ntohl (Ip.src p)) (ntohs (Icmp.identifier p o)) now in
      Icmp.identifier r (Ip.header_len r) ≡ ntohs m.aux_ext
      → (q : Buffer) × (r' : Buffer) × (sr' : Sr) × (nat_handle_icmp sr p now ≡ some (true, q, sr'))
        × (Ip.src q ≡ ip)
        × (Ip.dst q ≡ Ip.dst p)
        × (Icmp.identifier q (Ip.header_len q) ≡ Icmp.identifier r (Ip.header_len r))
        × IsValid sr'.nat
        × (nat_handle_icmp sr' r later ≡ some (true, r', sr'))
        × (Ip.src r' ≡ Ip.src r)
        × (Ip.dst r' ≡ Ip.src p)
        × (Icmp.identifier r' (Ip.header_len r') ≡ Icmp.identifier p (Ip.header_len p))
nat_icmp_round_trip sr p r now later lpm ip v room bytes fits fits' ps pd rs route iface small
      same =
    let o = Ip.header_len p in
    let aux = ntohs (Icmp.identifier p o) in
    let (m, nat') = icmp_mapping sr.nat (ntohl (Ip.src p)) aux now in
    let (v', found, host, port) = icmp_mapping_lem sr.nat (ntohl (Ip.src p)) aux now v room in
    let sr' : Sr = record sr { nat = nat' } in
    let id : ntohs (Icmp.identifier r (Ip.header_len r)) ≡ m.aux_ext =
      ap ntohs same ∙ ntohs-ntohs m.aux_ext (found_id-lt nat' m.aux_ext icmp m v' found) in
    let (q, out, src, dst, hl, ident, _) =
      icmp_outbound_lem sr p now lpm ip fits route iface small in
    let (r', back, dst', src', hl', ident', _) =
      icmp_inbound_lem sr' r m fits' (ap (λ k. sr_nat_lookup_external nat' k icmp) id ∙ found) in
    (
      q,
      r',
      sr',
      nat_handle_icmp_outward sr p now fits ps pd ∙ out,
      src,
      dst,
      subst (λ k. Icmp.identifier q k ≡ Icmp.identifier r (Ip.header_len r)) (sym hl)
          (ident ∙ sym same),
      v',
      nat_handle_icmp_inward sr' r later fits' rs ∙ back,
      src',
      dst' ∙ ap ntohl host ∙ ntohl-ntohl (Ip.src p) (load32-AllBytes p 12 bytes),
      subst (λ k. Icmp.identifier r' k ≡ Icmp.identifier p o) (sym hl')
          (ident'
            ∙ ap ntohs port
            ∙ ntohs-ntohs (Icmp.identifier p o) (load16-AllBytes p (o + 4) bytes)),
    )
