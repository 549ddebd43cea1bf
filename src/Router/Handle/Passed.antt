-- ===== src/Router/Handle/Passed.antt =====
-- A translated packet on its way out: `sr_forward_ippacket` of router/sr_router.c.
use cscd58_nat.Base.{
  ℕ, ◌+◌, ◌*◌, ◌%◌, ◌≤◌, ◌≡◌, ap, ◌∙◌, List, some, arith, Buffer, length, load8, load16-congr,
}
use cscd58_nat.Proto.Ether
use cscd58_nat.Proto.Ip
use cscd58_nat.Proto.Icmp
use cscd58_nat.If.{SrIf, sr_get_interface}
use cscd58_nat.Rt.{RtEntry, sr_rt_lookup}
use cscd58_nat.Arp.{ArpEntry}
use cscd58_nat.Instance.{Sr}
use cscd58_nat.Build.{sr_create_etherframe}
use cscd58_nat.Build.ReadBack.{IsFrame}
use cscd58_nat.Router.Output.{send_or_queue, sr_forward_ippacket}
use cscd58_nat.Router.Output.Accepted.{SumAccepted, decrement_ttl-SumAccepted}
use cscd58_nat.Router.Output.Hop.{decrement_ttl_rest}
use cscd58_nat.Router.Handle.Arrival.{sent_on, send_built_frame}
use cscd58_nat.Router.Handle.Message.{IsKnown}

-- The way to an address: the route, its interface, and the hardware address of the next hop, each
-- with six bytes of address.
pub record IsWay (sr : Sr) (dst : ℕ) (lpm : RtEntry) (out : SrIf) (hop : ArpEntry) : Type 0 where
  pub route : sr_rt_lookup sr.routing_table dst ≡ some (some lpm)
  pub iface : sr_get_interface sr.if_list lpm.interface ≡ some out
  pub address : length out.addr ≡ 6
  pub next : IsKnown sr lpm.gw hop

-- A frame with an IP packet whose checksum the next router accepts, and what the packet says: the
-- addresses, and the identifier of its ICMP message.
pub record IsPassed (dest_mac source_mac : Buffer) (source dest id : ℕ) (frame : Buffer)
    : Type 0 where
  pub datagram : Buffer
  pub outer : IsFrame dest_mac source_mac Ether.ethertype_ip datagram frame
  pub sum : SumAccepted datagram
  pub src : Ip.src datagram ≡ source
  pub dst : Ip.dst datagram ≡ dest
  pub identifier : Icmp.identifier datagram (Ip.header_len datagram) ≡ id

pub sr_forward_ippacket-IsPassed :
    (sr : Sr) (q : Buffer) (sender : List ℕ) (lpm : RtEntry) (out : SrIf) (hop : ArpEntry)
    → Ip.size ≤ Ip.header_len q
    → Ip.header_len q ≤ length q
    → IsWay sr (Ip.dst q) lpm out hop
    → (frame : Buffer) × (sr_forward_ippacket sr q sender ≡ some (sent_on sr lpm.interface frame))
      × IsPassed hop.mac out.addr (Ip.src q) (Ip.dst q) (Icmp.identifier q (Ip.header_len q)) frame
unfolding sr_forward_ippacket send_or_queue load8
sr_forward_ippacket-IsPassed sr q sender lpm out hop apart fits way =
    let o = Ip.header_len q in
    let (h, e, ok, ttl, src, dst, proto, size) = decrement_ttl-SumAccepted q (omega arith) fits in
    let (front, rest, each) = decrement_ttl_rest q h e in
    let hl : Ip.header_len h ≡ o =
      ap (λ (b : ℕ). b % 16 * 4) (each 0 (omega arith) (omega arith)) in
    let (sent, outer) =
      send_built_frame sr h hop.mac Ether.ethertype_ip lpm.interface out way.iface way.address
        way.next.mac (omega arith) in
    (
      sr_create_etherframe h hop.mac out.addr Ether.ethertype_ip,
      rw (way.route, e, way.next.cached, way.iface, sent, sr_forward_ippacket, send_or_queue)
          (ground arith),
      record {
        datagram = h;
        outer = outer;
        sum = ok;
        src = src;
        dst = dst;
        identifier =
            ap (Icmp.identifier h) hl
            ∙ load16-congr h q (o + 4) (each (o + 4) (omega arith) (omega arith))
                (each (o + 4 + 1) (omega arith) (omega arith));
      },
    )
