-- ===== src/Vns/Command.antt =====
-- `sr_read_from_server_expect` and `sr_read_from_server` of router/sr_vns_comm.c, after a message
-- has been read. Printing and the log of packets are left out.
pub mod Keeps
use cscd58_nat.Base.{
  ℕ, List, Option, none, some, Bool, true, false, not, ◌==◌, ◌&&◌, if◌then◌else◌, Buffer, view,
  drop, ◌>>=◌, ◌>>◌,
}
use cscd58_nat.Proto.{iface_namelen}
use cscd58_nat.Send.{sr_arp_req_not_for_us}
use cscd58_nat.Router.Handle.{sr_handlepacket}
use cscd58_nat.Main.Verify.{sr_verify_routing_table}
use cscd58_nat.Vns.Message.{
  m_type, base_size, packet_header_size, vnsclose, vnspacket, vnsbanner, vnshwinfo, vns_rtable,
  vns_auth_request, vns_auth_status, c_string,
}
use cscd58_nat.Vns.HwInfo.{sr_handle_hwinfo}
use cscd58_nat.Vns.Client.{Client, Os}
use cscd58_nat.Vns.Session.{sr_handle_rtable, sr_handle_auth_request, sr_handle_auth_status}
use cscd58_nat.Vns.Socket.{Event, message, broken, fault, spinning, waiting, read_message}

-- The result: 1, 0 (the server has closed the session) or -1.
pub data Status : Type 0 where
  goes_on closed aborted : Status

abbrev pub status_of : Bool → Status
status_of true = goes_on
status_of false = aborted

-- VNSPACKET. A message shorter than c_packet_header makes the length of the frame wrap around. An
-- interface's name that nothing ends within the message counts as a fault.
unfoldable pub on_packet : Client → Buffer → ℕ → Option (Status × Client)
unfolding c_string sr_arp_req_not_for_us
on_packet client buf now = do
  view buf 0 packet_header_size
  let frame = drop packet_header_size buf
  interface ← c_string iface_namelen (drop base_size buf)
  not_for_us ← sr_arp_req_not_for_us client.sr.if_list frame interface
  (if not_for_us then some (goes_on, client) else (do
    sr ← sr_handlepacket client.sr frame interface now
    some (goes_on, record client { sr = sr })))

-- VNSHWINFO
unfoldable pub on_hwinfo : Os → Client → Buffer → Option (Status × Client)
unfolding sr_handle_hwinfo
on_hwinfo os client buf = do
  sr ← sr_handle_hwinfo os.memory client.sr buf
  some (status_of (sr_verify_routing_table sr == 0), record client { sr = sr })

abbrev pub with_status : Bool × Client → Option (Status × Client)
with_status (ok, client) = some (status_of ok, client)

-- `switch (command)`
unfoldable pub on_command : Os → Client → Buffer → ℕ → Option (Status × Client)
unfolding on_packet on_hwinfo
on_command os client buf now =
    let command = m_type buf in
    if command == vnspacket
    then on_packet client buf now
    else if command == vnsclose
    then some (closed, client)
    else if command == vnsbanner
    then some (goes_on, client)
    else if command == vnshwinfo
    then on_hwinfo os client buf
    else if command == vns_rtable
    then (sr_handle_rtable os client buf >>= with_status)
    else if command == vns_auth_request
    then (sr_handle_auth_request os client buf >>= with_status)
    else if command == vns_auth_status
    then (sr_handle_auth_status buf >>= λ ok. some (status_of ok, client))
    else some (goes_on, client)

-- `expected_cmd && command != expected_cmd`, unless the command is VNSCLOSE.
abbrev pub unexpected : ℕ → ℕ → Bool
unexpected expected_cmd command =
    not (expected_cmd == 0) && not (command == expected_cmd) && not (command == vnsclose)

unfoldable pub handle_command : Os → ℕ → Client → Buffer → ℕ → Option (Status × Client)
unfolding on_command
handle_command os expected_cmd client buf now =
    if unexpected expected_cmd (m_type buf)
    then some (aborted, client)
    else on_command os client buf now

-- How one call ends: with a status and what is left on the socket, with a fault, or not at all.
pub data Served : Type 0 where
  returned : Status → Client → List Event → Served
  faulted spun stalled : Served

abbrev pub served : Option (Status × Client) → List Event → Served
served none rest = faulted
served (some (status, client)) rest = returned status client rest

unfoldable pub sr_read_from_server_expect : Os → ℕ → Client → List Event → Served
unfolding read_message handle_command
sr_read_from_server_expect os expected_cmd client es = elim (read_message es) [
  | message buf rest ↦ served (handle_command os expected_cmd client buf (os.time rest)) rest
  | broken rest ↦ returned aborted client rest
  | fault ↦ faulted
  | spinning ↦ spun
  | waiting ↦ stalled
]

abbrev pub sr_read_from_server : Os → Client → List Event → Served
sr_read_from_server os client es = sr_read_from_server_expect os 0 client es
