-- ===== src/Vns/HwInfo/Server.antt =====
-- What the router makes of the hardware information that the server packs.
use cscd58_nat.Base.{
  ℕ, suc, ◌+◌, ◌-◌, ◌*◌, ◌/◌, ◌^◌, ◌<◌, ◌≡◌, refl, ap, ◌∙◌, List, [], ◌∷◌, ◌++◌, some, load32,
  length, ntohl, ntohl-lt, ntohl-ntohl, arith, length-append,
}
use mathlib.Core.List.{append_assoc, append-nil}
use cscd58_nat.Build.{bytes32}
use cscd58_nat.If.{SrIf}
use cscd58_nat.Instance.{Sr}
use cscd58_nat.Vns.Message.{hwinterface, hwspeed, hwsubnet, hwether, hwethip, hwmask, vnshwinfo}
use cscd58_nat.Vns.HwInfo.{handle_entries, sr_handle_hwinfo}
use cscd58_nat.Vns.HwInfo.Entries.{
  pack_interface, pack_interfaces, pack_entry, pad, hwinfo_message, interfaces, Packable,
  load32-bytes32, handle_entries-interface, length-pad, append_six,
}

handle_entries-interfaces :
    (memory : List SrIf → SrIf) (is : List (SrIf × ℕ)) (before : List SrIf)
    → Packable is
    → handle_entries memory (6 * length is) (pack_interfaces is) before
      ≡ some (before ++ interfaces is)
unfolding handle_entries
handle_entries-interfaces memory [] before ok = rw (append-nil before) refl
handle_entries-interfaces memory ((i, mask) ∷ is) before ((z, name, addr, ip), ok) =
    let n = 6 * length is in
    let six : 6 * suc (length is) ≡ suc (suc (suc (suc (suc (suc n))))) = omega arith in
    ap (λ k. handle_entries memory k (pack_interface (i, mask) ++ pack_interfaces is) before) six
    ∙ (handle_entries-interface memory n mask i (pack_interfaces is) before z name addr ip
        ∙ (handle_entries-interfaces memory is (before ++ i ∷ []) ok
            ∙ ap some (append_assoc before (i ∷ []) (interfaces is))))

length-after_entry :
    (key : ℕ) (value rest : List ℕ) → length (pack_entry key value ++ rest) ≡ 36 + length rest
length-after_entry key value rest =
    omega (arith, length-append (pad 32 value) rest, length-pad 32 value)

length-pack_interface :
    (i : SrIf) (mask : ℕ) (rest : List ℕ)
    → length (pack_interface (i, mask) ++ rest) ≡ 216 + length rest
length-pack_interface i mask rest =
    let r₅ = pack_entry hwmask (bytes32 mask) ++ rest in
    let r₄ = pack_entry hwsubnet [] ++ r₅ in
    let r₃ = pack_entry hwethip (bytes32 i.ip) ++ r₄ in
    let r₂ = pack_entry hwether i.addr ++ r₃ in
    let r₁ = pack_entry hwspeed [] ++ r₂ in
    omega (
      arith,
      ap length (
          append_six (pack_entry hwinterface i.name) (pack_entry hwspeed [])
            (pack_entry hwether i.addr) (pack_entry hwethip (bytes32 i.ip)) (pack_entry hwsubnet [])
            (pack_entry hwmask (bytes32 mask)) rest),
      length-after_entry hwinterface i.name r₁,
      length-after_entry hwether i.addr r₃,
    )

length-pack_interfaces : (is : List (SrIf × ℕ)) → length (pack_interfaces is) ≡ 36 * (6 * length is)
length-pack_interfaces [] = omega arith
length-pack_interfaces ((i, mask) ∷ is) =
    omega (arith, length-pack_interface i mask (pack_interfaces is), length-pack_interfaces is)

-- The hardware information that the server packs for interfaces with names of at most 32 characters
-- adds exactly those interfaces, with their addresses and in their order, at the end of the list.
pub sr_handle_hwinfo-pack :
    (memory : List SrIf → SrIf) (sr : Sr) (is : List (SrIf × ℕ))
    → Packable is
    → length (pack_interfaces is) < 2 ^ 31
    → sr_handle_hwinfo memory sr (hwinfo_message is)
      ≡ some (record sr { if_list = sr.if_list ++ interfaces is })
unfolding sr_handle_hwinfo
sr_handle_hwinfo-pack memory sr is ok small =
    let body = bytes32 vnshwinfo ++ pack_interfaces is in
    let total = 8 + length (pack_interfaces is) in
    let l : load32 (hwinfo_message is) 0 ≡ ntohl total =
      load32-bytes32 (ntohl total) body (ntohl-lt total) in
    let c : (total - 8) / 36 ≡ 6 * length is = omega (arith, length-pack_interfaces is) in
    rw (l, ntohl-ntohl total (omega arith), c, handle_entries-interfaces memory is sr.if_list ok)
      refl
