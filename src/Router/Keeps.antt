-- ===== src/Router/Keeps.antt =====
-- The translations of packets against the configuration and the mapping table.
use cscd58_nat.Base.{
  ℕ, ◌≡◌, refl, inl, inr, Option, some, Bool, Buffer, arith, Option-cases, ntohl, ntohs,
}
use cscd58_nat.Proto.Ip
use cscd58_nat.Proto.Tcp
use cscd58_nat.Proto.Icmp
use cscd58_nat.Nat.Types.{SrNat, tcp, syn_sent, Mapping, Connection}
use cscd58_nat.Nat.Table.{sr_nat_lookup_external, sr_nat_lookup_internal, sr_nat_insert_mapping}
use cscd58_nat.Nat.Table.Invariant.{IsValid, HasRoom, sr_nat_insert_mapping-IsValid}
use cscd58_nat.Nat.Conn.{
  Direction, inbound, outbound, sr_nat_insert_connection, sr_nat_update_connection,
}
use cscd58_nat.Nat.Unsol.{sr_nat_insert_unsolicited_packet}
use cscd58_nat.Nat.Conn.Laws.{
  SameIds-IsValid, sr_nat_insert_connection-SameIds, sr_nat_update_connection-SameIds,
}
use cscd58_nat.Instance.{Sr}
use cscd58_nat.Router.Quiet.{SameConfig}
use cscd58_nat.Router.Translate.{
  Result, icmp_outbound, icmp_inbound, nat_handle_icmp, translate_source, tcp_outbound,
  tcp_inbound_syn, tcp_inbound_other, tcp_inbound, nat_handle_tcp,
}
use cscd58_nat.Router.Translate.RoundTrip.{icmp_mapping_lem}

-- The configuration is the same, and the mapping table is valid.
abbrev pub Keeps : Sr → Sr → Type 0
Keeps sr sr' = SameConfig sr sr' × IsValid sr'.nat

pub nat_handle_icmp-Keeps :
    (sr sr' : Sr) (p q : Buffer) (now : ℕ) (b : Bool)
    → IsValid sr.nat
    → HasRoom sr.nat
    → nat_handle_icmp sr p now ≡ some (b, q, sr')
    → Keeps sr sr'
unfolding nat_handle_icmp icmp_outbound icmp_inbound
nat_handle_icmp-Keeps sr sr' p q now b v room e =
    let m =
      icmp_mapping_lem sr.nat (ntohl (Ip.src p)) (ntohs (Icmp.identifier p (Ip.header_len p))) now v
        room in
    ground (arith, m.0)

translate_source-sr :
    (sr : Sr) (p : Buffer) (m : Mapping) (r : Result) → translate_source sr p m ≡ some r → r.sr ≡ sr
unfolding translate_source
translate_source-sr sr p m r e = ground arith

insert_connection-IsValid :
    (nat nat' : SrNat) (port now : ℕ) (p : Buffer) (c : Option Connection)
    → IsValid nat
    → sr_nat_insert_connection nat port p syn_sent now ≡ some (c, nat')
    → IsValid nat'
insert_connection-IsValid nat nat' port now p c v e =
    SameIds-IsValid nat nat' (sr_nat_insert_connection-SameIds nat port p syn_sent now c nat' e) v

update_connection-IsValid :
    (nat nat' : SrNat) (m : Mapping) (p : Buffer) (d : Direction) (now : ℕ) (c : Option Connection)
    → IsValid nat
    → sr_nat_update_connection nat m p d now ≡ some (c, nat')
    → IsValid nat'
update_connection-IsValid nat nat' m p d now c v e =
    SameIds-IsValid nat nat' (sr_nat_update_connection-SameIds nat m p d now c nat' e) v

tcp_outbound-Keeps :
    (sr : Sr) (p : Buffer) (now : ℕ) (r : Result)
    → IsValid sr.nat
    → HasRoom sr.nat
    → tcp_outbound sr p now ≡ some r
    → Keeps sr r.sr
unfolding tcp_outbound
tcp_outbound-Keeps sr p now r v room e =
    elim (Option-cases (
      sr_nat_lookup_internal sr.nat (ntohl (Ip.src p)) (ntohs (Tcp.src_port p (Ip.header_len p)))
        tcp)) [
          | inl n ↦
              let (m, nat) =
                sr_nat_insert_mapping sr.nat (ntohl (Ip.src p))
                  (ntohs (Tcp.src_port p (Ip.header_len p))) tcp now in
              let fresh =
                sr_nat_insert_mapping-IsValid sr.nat (ntohl (Ip.src p))
                  (ntohs (Tcp.src_port p (Ip.header_len p))) tcp now v room in
              elim (Option-cases (sr_nat_insert_connection nat m.aux_ext p syn_sent now)) [
                | inl f ↦ ground arith
                | inr ((c, nat'), f) ↦
                    let ok = insert_connection-IsValid nat nat' m.aux_ext now p c fresh.0 f in
                    ground (arith, translate_source-sr (record sr { nat = nat' }) p m r)
              ]
          | inr (m, n) ↦ elim (Option-cases (sr_nat_update_connection sr.nat m p outbound now)) [
            | inl f ↦ ground arith
            | inr ((c, nat'), f) ↦
                let ok = update_connection-IsValid sr.nat nat' m p outbound now c v f in
                ground (arith, translate_source-sr (record sr { nat = nat' }) p m r)
          ]
        ]

tcp_inbound_syn-Keeps :
    (sr : Sr) (p : Buffer) (now : ℕ) (r : Result)
    → IsValid sr.nat
    → tcp_inbound_syn sr p now ≡ some r
    → Keeps sr r.sr
unfolding tcp_inbound_syn
tcp_inbound_syn-Keeps sr p now r v e =
    elim (Option-cases
      (sr_nat_lookup_external sr.nat (ntohs (Tcp.dst_port p (Ip.header_len p))) tcp)) [
        | inl n ↦ elim (Option-cases (sr_nat_insert_unsolicited_packet sr.nat.unsol_pkt p now)) [
          | inl f ↦ ground arith
          | inr (unsol, f) ↦
              let nat' : SrNat = record (sr.nat) { unsol_pkt = unsol } in
              let ok = SameIds-IsValid sr.nat nat' (refl, λ k. refl) v in ground arith
        ]
        | inr (m, n) ↦ elim (Option-cases (sr_nat_update_connection sr.nat m p inbound now)) [
          | inl f ↦ ground arith
          | inr ((c, nat'), f) ↦
              let ok = update_connection-IsValid sr.nat nat' m p inbound now c v f in ground arith
        ]
      ]

tcp_inbound_other-Keeps :
    (sr : Sr) (p : Buffer) (now : ℕ) (r : Result)
    → IsValid sr.nat
    → tcp_inbound_other sr p now ≡ some r
    → Keeps sr r.sr
unfolding tcp_inbound_other
tcp_inbound_other-Keeps sr p now r v e =
    elim (Option-cases
      (sr_nat_lookup_external sr.nat (ntohs (Tcp.dst_port p (Ip.header_len p))) tcp)) [
        | inl n ↦ ground arith
        | inr (m, n) ↦ elim (Option-cases (sr_nat_update_connection sr.nat m p inbound now)) [
          | inl f ↦ ground arith
          | inr ((c, nat'), f) ↦
              let ok = update_connection-IsValid sr.nat nat' m p inbound now c v f in ground arith
        ]
      ]

pub nat_handle_tcp-Keeps :
    (sr : Sr) (p : Buffer) (to_nat : Bool) (now : ℕ) (r : Result)
    → IsValid sr.nat
    → HasRoom sr.nat
    → nat_handle_tcp sr p to_nat now ≡ some r
    → Keeps sr r.sr
unfolding nat_handle_tcp tcp_inbound
nat_handle_tcp-Keeps sr p to_nat now r v room e = ground (
  arith,
  tcp_outbound-Keeps sr p now r v room,
  tcp_inbound_syn-Keeps sr p now r v,
  tcp_inbound_other-Keeps sr p now r v,
)
