-- ===== src/Vns/HwInfo.antt =====
-- `sr_handle_hwinfo` of router/sr_vns_comm.c: the interfaces of the router, as the server names
-- them.
pub mod Entries
pub mod Server
use cscd58_nat.Base.{
  ℕ, zero, suc, ◌-◌, ◌/◌, List, [], ◌∷◌, Option, none, some, ◌==◌, if◌then◌else◌, Buffer, load32,
  take, drop, ntohl, ◌>>=◌,
}
use cscd58_nat.If.{SrIf, sr_add_interface, sr_set_ether_addr, sr_set_ether_ip}
use cscd58_nat.Instance.{Sr}
use cscd58_nat.Vns.Message.{
  m_len, base_size, hwinterface, hwether, hwethip, hw_entry_size, hw_value_size, c_string,
}

-- The switch on the key of one entry. The keys HWFIXEDIP, HWSPEED, HWSUBNET and HWMASK do nothing,
-- and so does an unknown one. `memory` is what `malloc` returns for a new interface.
unfoldable pub handle_entry : SrIf → Buffer → List SrIf → Option (List SrIf)
unfolding c_string sr_add_interface sr_set_ether_addr sr_set_ether_ip
handle_entry memory entry if_list =
    let key = ntohl (load32 entry 0) in
    let value = drop 4 entry in
    if key == hwinterface
    then (c_string hw_value_size value >>= λ name. some (sr_add_interface if_list memory name))
    else if key == hwethip
    then sr_set_ether_ip if_list (load32 value 0)
    else if key == hwether
    then sr_set_ether_addr if_list value
    else some if_list

-- The `for` loop over the entries that are left.
unfoldable pub handle_entries : (List SrIf → SrIf) → ℕ → Buffer → List SrIf → Option (List SrIf)
unfolding handle_entry
handle_entries memory zero entries if_list = some if_list
handle_entries memory (suc n) entries if_list =
    handle_entry (memory if_list) (take hw_entry_size entries) if_list >>= λ changed.
    handle_entries memory n (drop hw_entry_size entries) changed

unfoldable pub sr_handle_hwinfo : (List SrIf → SrIf) → Sr → Buffer → Option Sr
unfolding handle_entries
sr_handle_hwinfo memory sr hwinfo =
    let num_entries = (ntohl (m_len hwinfo) - base_size) / hw_entry_size in
    handle_entries memory num_entries (drop base_size hwinfo) sr.if_list >>= λ if_list.
    some (record sr { if_list = if_list })
