-- ===== src/Router/Done.antt =====
-- `sr_send_icmp` and `sr_forward_ippacket` of router/sr_router.c where they do not fault.
use cscd58_nat.Base.{
  ℕ, ◌+◌, ◌-◌, ◌≤◌, ◌≡◌, refl, List, ◌∷◌, Option, some, none, Bool, true, false, arith, Buffer,
  length, drop, take, ntohs, ◌==◌, ◌&&◌, if◌then◌else◌, Bool-cases, ◌>>=◌, inl, inr,
}
use cscd58_nat.Proto.Ether
use cscd58_nat.Proto.Ip
use cscd58_nat.Proto.Icmp
use cscd58_nat.If.{SrIf, sr_get_interface}
use cscd58_nat.Rt.{RtEntry}
use cscd58_nat.Arp.{ArpEntry, sr_arpcache_lookup}
use cscd58_nat.Instance.{Sr}
use cscd58_nat.Send.{sr_send_packet}
use cscd58_nat.Build.{icmp_body, sr_create_etherframe, sr_create_ippacket}
use cscd58_nat.Build.Headers.{sr_create_icmppacket-IsMessage}
use cscd58_nat.Main.Verify.{sr_verify_routing_table, sr_verify_routing_table-lookup}
use cscd58_nat.Router.Output.{
  decrement_ttl, icmp_source, send_or_queue, sr_send_icmp, sr_forward_ippacket,
}
use cscd58_nat.Router.Output.Accepted.{decrement_ttl-SumAccepted}

-- The chain did not fault.
abbrev pub IsDone : Option Sr → Type 0
IsDone o = (sr : Sr) × (o ≡ some sr)

pub if_IsDone : (b : Bool) (x y : Option Sr) → IsDone x → IsDone y → IsDone (if b then x else y)
if_IsDone true x y dx dy = dx
if_IsDone false x y dx dy = dy

pub bind_IsDone :
    {A : Type 0} (m : Option A) (f : A → Option Sr) (a : A)
    → m ≡ some a
    → IsDone (f a)
    → IsDone (m >>= f)
bind_IsDone none f a e d = absurd (cc e)
bind_IsDone (some b) f a e (sr, d) = (sr, ground (arith, d))

-- A branch that is for the translation only.
pub off_IsDone :
    (on b : Bool) (x y : Option Sr) → on ≡ false → IsDone y → IsDone (if on && b then x else y)
off_IsDone true b x y off dy = absurd (cc off)
off_IsDone false b x y off dy = dy

-- A packet with room for what the router reads of it: a quoted packet's 28 bytes, the header that it
-- states with an ICMP header behind it, and the total length that it states.
pub record IsWhole (p : Buffer) : Type 0 where
  pub quoted : Icmp.data_size ≤ length p
  pub header : Ip.header_len p + Icmp.size ≤ length p
  pub least : Ip.size + Icmp.size ≤ ntohs (Ip.len p)
  pub total : ntohs (Ip.len p) ≤ length p

send_or_queue-IsDone :
    (sr : Sr) (e : Option ArpEntry) (ip : ℕ) (p : Buffer) (interface sender : List ℕ) (i : SrIf)
    → sr_get_interface sr.if_list interface ≡ some i
    → IsDone (send_or_queue sr e ip p interface sender)
unfolding send_or_queue
send_or_queue-IsDone sr none ip p interface sender i known = (_, refl)
send_or_queue-IsDone sr (some e) ip p interface sender i known = (
  sr_send_packet sr (sr_create_etherframe p e.mac i.addr Ether.ethertype_ip) interface,
  rw (known, send_or_queue) refl,
)

icmp_body_total :
    (p : Buffer) (type : ℕ) → IsWhole p → (body : Buffer) × (icmp_body p type ≡ some body)
unfolding icmp_body
icmp_body_total p type w = elim (Bool-cases (type == Icmp.echoreply)) [
  | inl t ↦ (
    take (ntohs (Ip.len p) - Ip.size - 4) (drop (Ip.size + 4) p),
    ground (arith, w.least, w.total),
  )
  | inr f ↦ (0 ∷ 0 ∷ 0 ∷ 0 ∷ take Icmp.data_size p, ground (arith, w.quoted))
]

icmp_source_total :
    (sr : Sr) (p : Buffer) (interface : List ℕ) (type : ℕ) (i : SrIf)
    → sr_get_interface sr.if_list interface ≡ some i
    → (source : ℕ) × (icmp_source sr p interface type ≡ some source)
unfolding icmp_source
icmp_source_total sr p interface type i known = elim (Bool-cases (type == Icmp.echoreply)) [
  | inl t ↦ (Ip.dst p, rw (t, icmp_source) refl)
  | inr f ↦ (i.ip, rw (f, known, icmp_source) refl)
]

pub sr_send_icmp-IsDone :
    (sr : Sr) (p : Buffer) (interface : List ℕ) (type code : ℕ) (i : SrIf)
    → sr_get_interface sr.if_list interface ≡ some i
    → IsWhole p
    → IsDone (sr_send_icmp sr p interface type code)
unfolding sr_send_icmp
sr_send_icmp-IsDone sr p interface type code i known w =
    let (body, b) = icmp_body_total p type w in
    let (m, made, _) = sr_create_icmppacket-IsMessage p body type code b in
    let (source, s) = icmp_source_total sr p interface type i known in
    let datagram = sr_create_ippacket m Ip.protocol_icmp source (Ip.src p) in
    let (sr', e) =
      send_or_queue-IsDone sr (sr_arpcache_lookup sr.cache (Ip.src p)) (Ip.src p) datagram interface
        interface i known in
    (sr', rw (made, s, e, sr_send_icmp) (ground (arith, w.quoted)))

pub sr_forward_ippacket-IsDone :
    (sr : Sr) (p : Buffer) (interface : List ℕ) (i : SrIf)
    → sr_get_interface sr.if_list interface ≡ some i
    → sr_verify_routing_table sr ≡ 0
    → IsWhole p
    → IsDone (sr_forward_ippacket sr p interface)
unfolding sr_forward_ippacket
sr_forward_ippacket-IsDone sr p interface i known ok w =
    let (route, found, leads) = sr_verify_routing_table-lookup sr (Ip.dst p) ok in
    let on = by_route route leads in
    (on.0, rw (found, sr_forward_ippacket) (ground (arith, w.quoted, on.1)))
  where
    by_route :
        (route : Option RtEntry)
        → ((e : RtEntry)
            → route ≡ some e
            → (j : SrIf) × (sr_get_interface sr.if_list e.interface ≡ some j))
        → IsDone (elim route [
          | none ↦ sr_send_icmp sr p interface Icmp.dstunreachable 0
          | some lpm ↦ do
            packet' ← decrement_ttl p
            send_or_queue sr
                (sr_arpcache_lookup sr.cache lpm.gw)
                lpm.gw
                packet'
                lpm.interface
                interface
        ])
    by_route none leads = sr_send_icmp-IsDone sr p interface Icmp.dstunreachable 0 i known w
    by_route (some lpm) leads =
        let (j, there) = leads lpm refl in
        let (q, e, _, _, _, _, _, _) =
          decrement_ttl-SumAccepted p (omega (arith, w.quoted)) (omega (arith, w.header)) in
        let (sr', sent) =
          send_or_queue-IsDone sr (sr_arpcache_lookup sr.cache lpm.gw) lpm.gw q lpm.interface
            interface j there in
        (sr', rw e sent)
