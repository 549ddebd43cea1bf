-- ===== src/Router/Ping.antt =====
-- A ping through the network address translation, frame by frame: `sr_handlepacket` of
-- router/sr_router.c on a packet from inside and on the answer to it.
use cscd58_nat.Base.{
  ℕ, ◌+◌, ◌<◌, ◌^◌, ◌≡◌, refl, sym, ap, ◌∙◌, List, ◌∷◌, some, true, Buffer, drop, take, ntohs,
  ntohl, ntohs-ntohs, ntohl-ntohl,
}
use mathlib.Core.Path.{subst}
use cscd58_nat.Proto.Ether
use cscd58_nat.Proto.Ip
use cscd58_nat.Proto.Icmp
use cscd58_nat.Cksum.Sum.{load16-AllBytes, load32-AllBytes}
use cscd58_nat.If.{SrIf}
use cscd58_nat.Rt.{RtEntry, sr_rt_lookup}
use cscd58_nat.Arp.{ArpEntry}
use cscd58_nat.Nat.Types.{icmp}
use cscd58_nat.Nat.Table.{sr_nat_lookup_external}
use cscd58_nat.Nat.Table.Invariant.{IsValid, HasRoom}
use cscd58_nat.Nat.Table.Lookup.{found_id-lt}
use cscd58_nat.Instance.{Sr}
use cscd58_nat.Router.Translate.{icmp_mapping}
use cscd58_nat.Router.Translate.RoundTrip.{icmp_mapping_lem}
use cscd58_nat.Router.Handle.{sr_handlepacket}
use cscd58_nat.Router.Handle.Arrival.{Arrives, sent_on}
use cscd58_nat.Router.Handle.Passed.{IsWay, IsPassed}
use cscd58_nat.Router.Through.{IsInner, IsAnswer, inner_out, answer_in}

-- With the translation switched on and a valid table with room: a frame for the router with an
-- intact ICMP packet `p` from a private address to one that is not, which is not for the router and
-- whose TTL is not 1; and, in the state after it, a frame for the router on the interface by which `p`
-- left, with an intact echo reply `r` from an address that is not private to an address of the router,
-- with the identifier that `p` left with. There are routes for both ways, the ARP cache knows their
-- next hops, and the outer interface's address has 32 bits. Then `p` leaves in one frame to the next
-- hop outside, from the outer interface's IP address to where it was going; `r` leaves in one frame to
-- the next hop inside, from its own source to the address that `p` came from, with the identifier of
-- `p`; both with checksums that the next router accepts. The table stays valid.
pub ping_through_nat :
    (sr : Sr) (f g : Buffer) (inside : List ℕ) (now later : ℕ) (i out back : SrIf)
    (lpm home : RtEntry) (hop host : ArpEntry)
    → sr.nat_enabled ≡ true
    → IsValid sr.nat
    → HasRoom sr.nat
    → Arrives sr.if_list f inside i Ether.ethertype_ip
    → Arrives sr.if_list g lpm.interface out Ether.ethertype_ip
    → let p = drop Ether.size f in
      let r = drop Ether.size g in
      let o = Ip.header_len p in
      let (m, nat') = icmp_mapping sr.nat (ntohl (Ip.src p)) (ntohs (Icmp.identifier p o)) now in
      IsInner sr p
      → IsAnswer sr r
      → IsWay sr (Ip.dst p) lpm out hop
      → out.ip < 2 ^ 32
      → IsWay sr (Ip.src p) home back host
      → Icmp.identifier r (Ip.header_len r) ≡ ntohs m.aux_ext
      → (frame₁ : Buffer) × (frame₂ : Buffer) × (sr₁ : Sr) × (sr₂ : Sr) × (sr_handlepacket sr f
            inside now
          ≡ some sr₁)
        × (sr₁.sent ≡ record { iface = take 16 lpm.interface; frame = frame₁ } ∷ sr.sent)
        × IsPassed hop.mac out.addr out.ip (Ip.dst p) (Icmp.identifier r (Ip.header_len r)) frame₁
        × (sr_handlepacket sr₁ g lpm.interface later ≡ some sr₂)
        × (sr₂.sent ≡ record { iface = take 16 home.interface; frame = frame₂ } ∷ sr₁.sent)
        × IsPassed host.mac back.addr (Ip.src r) (Ip.src p) (Icmp.identifier p o) frame₂
        × IsValid sr₂.nat
ping_through_nat sr f g inside now later i out back lpm home hop host on v room arrives arrives' is
      answer way small way' same =
    let p = drop Ether.size f in
    let r = drop Ether.size g in
    let o = Ip.header_len p in
    let aux = ntohs (Icmp.identifier p o) in
    let (m, nat') = icmp_mapping sr.nat (ntohl (Ip.src p)) aux now in
    let (v', found, at, port) = icmp_mapping_lem sr.nat (ntohl (Ip.src p)) aux now v room in
    let (frame₁, sent₁, passed₁) =
      inner_out sr f inside now i out lpm hop on arrives is way small in
    let sr₁ = sent_on (record sr { nat = nat' }) lpm.interface frame₁ in
    let id : ntohs (Icmp.identifier r (Ip.header_len r)) ≡ m.aux_ext =
      ap ntohs same ∙ ntohs-ntohs m.aux_ext (found_id-lt nat' m.aux_ext icmp m v' found) in
    let source : ntohl m.ip_int ≡ Ip.src p =
      ap ntohl at ∙ ntohl-ntohl (Ip.src p) (load32-AllBytes p 12 is.ip.bytes) in
    let number : ntohs m.aux_int ≡ Icmp.identifier p o =
      ap ntohs port ∙ ntohs-ntohs (Icmp.identifier p o) (load16-AllBytes p (o + 4) is.ip.bytes) in
    let answer₁ : IsAnswer sr₁ r = record {
      ip = answer.ip;
      fits = answer.fits;
      proto = answer.proto;
      public_src = answer.public_src;
      ours = answer.ours;
      icmp_type = answer.icmp_type;
      sum = answer.sum;
    } in
    let home₁ : IsWay sr₁ (ntohl m.ip_int) home back host = record {
      route = ap (sr_rt_lookup sr.routing_table) source ∙ way'.route;
      iface = way'.iface;
      address = way'.address;
      next = record { cached = way'.next.cached; mac = way'.next.mac };
    } in
    let (frame₂, sent₂, passed₂) =
      answer_in sr₁ g lpm.interface later out back home host m on arrives' answer₁
        (ap (λ k. sr_nat_lookup_external nat' k icmp) id ∙ found) home₁ in
    (
      frame₁,
      frame₂,
      sr₁,
      sent_on sr₁ home.interface frame₂,
      sent₁,
      refl,
      subst (λ k. IsPassed hop.mac out.addr out.ip (Ip.dst p) k frame₁) (sym same) passed₁,
      sent₂,
      refl,
      subst (λ k. IsPassed host.mac back.addr (Ip.src r) (Ip.src p) k frame₂) number
          (subst (λ a. IsPassed host.mac back.addr (Ip.src r) a (ntohs m.aux_int) frame₂) source
            passed₂),
      v',
    )
