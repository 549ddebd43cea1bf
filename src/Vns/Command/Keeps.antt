-- ===== src/Vns/Command/Keeps.antt =====
-- What the messages of the server leave as it is.
use cscd58_nat.Base.{
  ℕ, ◌≡◌, refl, sym, ap, inl, inr, ◌⊎◌, List, Option, some, Bool, true, false, ◌==◌, if◌then◌else◌,
  Buffer, ◌-◌, ◌/◌, ntohl, drop, ==_iff, Bool-cases, Option-cases, ◌>>=◌, bind_parts, require_parts,
  leb, length,
}
use mathlib.Core.Path.{subst}
use cscd58_nat.Proto.{iface_namelen}
use cscd58_nat.If.{SrIf}
use cscd58_nat.Instance.{Sr}
use cscd58_nat.Nat.Table.Invariant.{IsValid, HasRoom}
use cscd58_nat.Main.Verify.{sr_verify_routing_table}
use cscd58_nat.Send.{sr_arp_req_not_for_us}
use cscd58_nat.Router.Handle.{sr_handlepacket}
use cscd58_nat.Router.HandleKeeps.{sr_handlepacket-Keeps}
use cscd58_nat.Vns.Message.{
  m_type, m_len, hw_entry_size, base_size, packet_header_size, vnsclose, vnspacket, vnsbanner,
  vnshwinfo, vns_rtable, vns_auth_request, vns_auth_status, c_string,
}
use cscd58_nat.Vns.HwInfo.{handle_entries, sr_handle_hwinfo}
use cscd58_nat.Vns.Client.{Client, Os}
use cscd58_nat.Vns.Socket.{Event}
use cscd58_nat.Vns.Connect.Order.{returned-message, on_command-auth_request, on_command-auth_status}
use cscd58_nat.Vns.Connect.Opening.{on_command-rtable}
use cscd58_nat.Vns.Command.{
  returned, sr_read_from_server, Status, goes_on, on_packet, on_hwinfo, on_command, handle_command,
}

-- The routes and the NAT switch stay, the mapping table is valid, and the interfaces stay or all
-- the routes have been verified against them.
abbrev pub Serves : Sr → Sr → Type 0
Serves before after =
    (after.routing_table ≡ before.routing_table)
    × (after.nat_enabled ≡ before.nat_enabled)
    × IsValid after.nat
    × ((after.if_list ≡ before.if_list) ⊎ (sr_verify_routing_table after ≡ 0))

-- Only the interfaces change.
hwinfo_rest :
    (memory : List SrIf → SrIf) (sr after : Sr) (buf : Buffer)
    → sr_handle_hwinfo memory sr buf ≡ some after
    → (after.routing_table ≡ sr.routing_table)
      × (after.nat_enabled ≡ sr.nat_enabled)
      × (after.nat ≡ sr.nat)
unfolding sr_handle_hwinfo
hwinfo_rest memory sr after buf e =
    let (is, _, f) =
      bind_parts
        (handle_entries memory ((ntohl (m_len buf) - base_size) / hw_entry_size)
          (drop base_size buf) sr.if_list)
        (λ is. some (record sr { if_list = is })) after e in
    let same : record sr { if_list = is } ≡ after = cc f in
    subst
      (λ s.
        (s.routing_table ≡ sr.routing_table) × (s.nat_enabled ≡ sr.nat_enabled) × (s.nat ≡ sr.nat))
      same (refl, refl, refl)

on_hwinfo-Serves :
    (os : Os) (client after : Client) (buf : Buffer)
    → IsValid client.sr.nat
    → on_hwinfo os client buf ≡ some (goes_on, after)
    → Serves client.sr after.sr
unfolding on_hwinfo
on_hwinfo-Serves os client after buf v e =
    elim (Option-cases (sr_handle_hwinfo os.memory client.sr buf)) [
      | inl n ↦ absurd (cc (rw (n, on_hwinfo) at e))
      | inr (mid, n) ↦ elim (Bool-cases (sr_verify_routing_table mid == 0)) [
        | inr wrong ↦ absurd (cc (rw (n, wrong, on_hwinfo) at e))
        | inl ok ↦
            let f = rw (n, ok, on_hwinfo) at e in
            let same : record client { sr = mid } ≡ after = cc f in
            let (rt, nat, table) = hwinfo_rest os.memory client.sr mid buf n in
            subst (λ (c : Client). Serves client.sr c.sr) same
              (rt, nat, rw table v, inr ((==_iff (sr_verify_routing_table mid) 0).0 ok))
      ]
    ]

on_packet-Serves :
    (client after : Client) (buf : Buffer) (now : ℕ) (status : Status)
    → IsValid client.sr.nat
    → HasRoom client.sr.nat
    → on_packet client buf now ≡ some (status, after)
    → Serves client.sr after.sr
unfolding on_packet
on_packet-Serves client after buf now status v room e =
    let (_, f) = require_parts (leb packet_header_size (length buf)) _ _ e in
    let (name, _, g) = bind_parts (c_string iface_namelen (drop base_size buf)) _ _ f in
    let (not_for_us, _, h) =
      bind_parts (sr_arp_req_not_for_us client.sr.if_list (drop packet_header_size buf) name) _ _
        g in
    by_filter name not_for_us h
  where
    frame : Buffer
    frame = drop packet_header_size buf

    by_filter :
        (name : List ℕ) (b : Bool)
        → if◌then◌else◌ {A = Option (Status × Client)} b (some (goes_on, client)) (
            sr_handlepacket client.sr frame name now >>= λ sr.
            some (goes_on, record client { sr = sr }))
          ≡ some (status, after)
        → Serves client.sr after.sr
    by_filter name true h =
        let same : client ≡ after = cc h in
        subst (λ (c : Client). Serves client.sr c.sr) same (refl, refl, v, inl refl)
    by_filter name false h = elim (Option-cases (sr_handlepacket client.sr frame name now)) [
      | inl n ↦ absurd (cc (rw n at h))
      | inr (sr, n) ↦
          let same : record client { sr = sr } ≡ after = cc (rw n at h) in
          let k = sr_handlepacket-Keeps client.sr sr frame name now v room n in
          subst (λ (c : Client). Serves client.sr c.sr) same (k.0.1, k.0.2, k.1, inl k.0.0)
    ]

unchanged :
    (client after : Client)
    → IsValid client.sr.nat
    → after.sr ≡ client.sr
    → Serves client.sr after.sr
unchanged client after v same = subst (λ s. Serves client.sr s) (sym same) (refl, refl, v, inl refl)

still : (client after : Client) → IsValid client.sr.nat → after ≡ client → Serves client.sr after.sr
still client after v same = unchanged client after v (ap (λ (c : Client). c.sr) same)

-- The commands by their numbers; for any other the state stays.
on_command-Serves :
    (os : Os) (client after : Client) (buf : Buffer) (now : ℕ)
    → IsValid client.sr.nat
    → HasRoom client.sr.nat
    → on_command os client buf now ≡ some (goes_on, after)
    → Serves client.sr after.sr
unfolding on_command
on_command-Serves os client after buf now v room e =
    let command = m_type buf in
    elim (Bool-cases (command == vnspacket)) [
      | inl t ↦ on_packet-Serves client after buf now goes_on v room (rw (t, on_command) at e)
      | inr n₁ ↦ elim (Bool-cases (command == vnsclose)) [
        | inl t ↦ absurd (cc (rw (n₁, t, on_command) at e))
        | inr n₂ ↦ elim (Bool-cases (command == vnsbanner)) [
          | inl t ↦ let f = rw (n₁, n₂, t, on_command) at e in still client after v (cc f)
          | inr n₃ ↦ elim (Bool-cases (command == vnshwinfo)) [
            | inl t ↦ on_hwinfo-Serves os client after buf v (rw (n₁, n₂, n₃, t, on_command) at e)
            | inr n₄ ↦ elim (Bool-cases (command == vns_rtable)) [
              | inl t ↦
                  unchanged client after v
                    (on_command-rtable os now client after buf ((==_iff command vns_rtable).0 t)
                      e).0
              | inr n₅ ↦ elim (Bool-cases (command == vns_auth_request)) [
                | inl t ↦
                    let (_, _, sent) =
                      on_command-auth_request os now client after buf
                        ((==_iff command vns_auth_request).0 t) e in
                    unchanged client after v (ap (λ (c : Client). c.sr) sent)
                | inr n₆ ↦ elim (Bool-cases (command == vns_auth_status)) [
                  | inl t ↦
                      still client after v
                        (on_command-auth_status os now client after buf
                          ((==_iff command vns_auth_status).0 t) e).1
                  | inr n₇ ↦
                      let f = rw (n₁, n₂, n₃, n₄, n₅, n₆, n₇, on_command) at e in
                      still client after v (cc f)
                ]
              ]
            ]
          ]
        ]
      ]
    ]

-- From a state with a valid mapping table that has an id free, a message that the router goes on from
-- leaves the routes and the NAT switch as they are and the table valid, whatever the kind of the
-- message, and it leaves the interfaces as they are or the verification of the routes against them
-- returns 0.
pub sr_read_from_server-Serves :
    (os : Os) (client after : Client) (es rest : List Event)
    → IsValid client.sr.nat
    → HasRoom client.sr.nat
    → sr_read_from_server os client es ≡ returned goes_on after rest
    → Serves client.sr after.sr
unfolding handle_command
sr_read_from_server-Serves os client after es rest v room e =
    let (buf, _, handled) = returned-message os 0 client after es rest e in
    on_command-Serves os client after buf (os.time rest) v room handled
