-- ===== src/Router/Handle/Message.antt =====
-- ICMP messages that the router sends: `sr_send_icmp` of router/sr_router.c.
use cscd58_nat.Base.{ℕ, ◌+◌, ◌≤◌, ◌<◌, ◌^◌, ◌≡◌, List, some, arith, Buffer, length}
use cscd58_nat.Proto.Ether
use cscd58_nat.Proto.Ip
use cscd58_nat.Cksum.Sum.{AllBytes, load32-AllBytes}
use cscd58_nat.If.{SrIf, sr_get_interface}
use cscd58_nat.Arp.{ArpEntry, sr_arpcache_lookup}
use cscd58_nat.Instance.{Sr}
use cscd58_nat.Build.{icmp_body, sr_create_etherframe, sr_create_ippacket}
use cscd58_nat.Build.ReadBack.{IsFrame}
use cscd58_nat.Build.Headers.{
  IsDatagram, sr_create_ippacket-IsDatagram, IsMessage, sr_create_icmppacket-IsMessage,
}
use cscd58_nat.Router.Output.{icmp_source, send_or_queue, sr_send_icmp}
use cscd58_nat.Router.Output.Accepted.{SumAccepted, sr_create_ippacket-SumAccepted}
use cscd58_nat.Router.Handle.Arrival.{sent_on, send_built_frame}

-- A frame with an IP packet with an ICMP message: the hardware addresses, the IP addresses, and what
-- the message says. The receiver's tests of both checksums succeed.
pub record IsIcmpFrame (dest_mac source_mac : Buffer) (source dest type code : ℕ)
    (rest frame : Buffer) : Type 0 where
  pub datagram : Buffer
  pub message : Buffer
  pub outer : IsFrame dest_mac source_mac Ether.ethertype_ip datagram frame
  pub header : IsDatagram Ip.protocol_icmp source dest message datagram
  pub sum : SumAccepted datagram
  pub inner : IsMessage type code rest message

-- The way back to the sender of a packet: the ARP cache has an entry with six bytes of address.
pub record IsKnown (sr : Sr) (ip : ℕ) (entry : ArpEntry) : Type 0 where
  pub cached : sr_arpcache_lookup sr.cache ip ≡ some entry
  pub mac : length entry.mac ≡ 6

pub sr_send_icmp-IsIcmpFrame :
    (sr : Sr) (p : Buffer) (interface : List ℕ) (type code : ℕ) (i : SrIf) (entry : ArpEntry)
    (body : Buffer) (source : ℕ)
    → AllBytes p
    → Ip.size ≤ length p
    → sr_get_interface sr.if_list interface ≡ some i
    → length i.addr ≡ 6
    → IsKnown sr (Ip.src p) entry
    → icmp_body p type ≡ some body
    → 24 + length body < 2 ^ 16
    → icmp_source sr p interface type ≡ some source
    → source < 2 ^ 32
    → (frame : Buffer) × (sr_send_icmp sr p interface type code ≡ some (sent_on sr interface frame))
      × IsIcmpFrame entry.mac i.addr source (Ip.src p) type code body frame
unfolding sr_send_icmp send_or_queue
sr_send_icmp-IsIcmpFrame sr p interface type code i entry body source bytes long known address way b
      short s small =
    let (m, made, inner) = sr_create_icmppacket-IsMessage p body type code b in
    let datagram = sr_create_ippacket m Ip.protocol_icmp source (Ip.src p) in
    let (sent, outer) =
      send_built_frame sr datagram entry.mac Ether.ethertype_ip interface i known address way.mac
        (omega arith) in
    (
      sr_create_etherframe datagram entry.mac i.addr Ether.ethertype_ip,
      rw (made, s, way.cached, known, sent, sr_send_icmp, send_or_queue) (ground (arith, long)),
      record {
        datagram = datagram;
        message = m;
        outer = outer;
        header =
            sr_create_ippacket-IsDatagram m Ip.protocol_icmp source (Ip.src p)
              (omega (arith, inner.size)) (omega arith) small (load32-AllBytes p 12 bytes);
        sum = sr_create_ippacket-SumAccepted m Ip.protocol_icmp source (Ip.src p);
        inner = inner;
      },
    )
