-- ===== src/Vns/Connect.antt =====
-- `sr_connect_to_server` of router/sr_vns_comm.c: the connection to the server and what is said on
-- it before the main loop.
pub mod Order
pub mod Opening
pub mod Handshake
use cscd58_nat.Base.{
  ℕ, List, [], ◌∷◌, ◌++◌, Option, none, some, Bool, true, false, ltb, length, not, if◌then◌else◌,
  Buffer, replicate, ntohl, ntohs, ◌>>=◌,
}
use cscd58_nat.Build.{bytes16, bytes32}
use cscd58_nat.Vns.Message.{
  idsize, vnsopen, vns_rtable, vns_open_template, vns_auth_request, vns_auth_status, c_string,
  strncpy, string_in,
}
use cscd58_nat.Vns.Client.{Client, Os}
use cscd58_nat.Vns.Socket.{Event}
use cscd58_nat.Vns.Command.{
  Status, goes_on, closed, aborted, Served, returned, faulted, spun, stalled,
  sr_read_from_server_expect,
}

-- `strncpy` from an array.
abbrev pub copied : ℕ → Buffer → Option Buffer
copied n array = c_string n array >>= λ s. some (strncpy n s)

-- c_open: the topology, the host and the user; the password stays 0.
unfoldable pub open_message : Client → Option Buffer
unfolding c_string
open_message client = do
  host ← copied idsize client.host
  user ← copied idsize client.user
  some (
      bytes32 (ntohl 108)
      ++ (bytes32 (ntohl vnsopen)
          ++ (bytes16 (ntohs client.topo_id)
              ++ (0 ∷ 0 ∷ [] ++ (host ++ (user ++ replicate 32 0))))))

-- c_open_template without source filters.
unfoldable pub open_template_message : Client → Option Buffer
unfolding c_string
open_template_message client = do
  name ← copied 30 client.vm_template
  host ← copied idsize client.host
  some (bytes32 (ntohl 70) ++ (bytes32 (ntohl vns_open_template) ++ (name ++ host)))

-- The result: 0 or -1; or the function does not return.
pub data Connected : Type 0 where
  connected : Client → List Event → Connected
  not_connected : Client → Connected
  crashed hung blocked : Connected

-- `sr_read_from_server_expect(...) != 1` is a failure.
abbrev pub need : Served → (Client → List Event → Connected) → Connected
need (returned goes_on after rest) next = next after rest
need (returned closed after rest) next = not_connected after
need (returned aborted after rest) next = not_connected after
need faulted next = crashed
need spun next = hung
need stalled next = blocked

-- The message of the kind that the template's name asks for.
unfoldable pub opening_message : Client → Bool → Option Buffer
unfolding open_message open_template_message
opening_message client from_template =
    if from_template then open_template_message client else open_message client

-- It is sent; where there is a template, the server then sends the routing table.
unfoldable pub after_opening : Os → Client → List Event → Bool → Buffer → Connected
unfolding sr_read_from_server_expect
after_opening os client es from_template buf =
    let opened : Client = record client { messages = buf ∷ client.messages } in
    if not (os.sends buf)
    then not_connected client
    else if from_template
    then need (sr_read_from_server_expect os vns_rtable opened es) connected
    else connected opened es

unfoldable pub send_open : Os → Client → List Event → Connected
unfolding c_string opening_message after_opening
send_open os client es = elim (string_in client.vm_template) [
  | none ↦ crashed
  | some name ↦ elim (opening_message client (ltb 0 (length name))) [
    | none ↦ crashed
    | some buf ↦ after_opening os client es (ltb 0 (length name)) buf
  ]
]

-- The server speaks first: it asks for the key and says whether it takes it.
unfoldable pub negotiate : Os → Client → List Event → Connected
unfolding send_open sr_read_from_server_expect
negotiate os client es =
    need (sr_read_from_server_expect os vns_auth_request client es) (λ asked left.
      need (sr_read_from_server_expect os vns_auth_status asked left)
        (λ told rest. send_open os told rest))

unfoldable pub sr_connect_to_server : Os → Client → List Event → Connected
unfolding negotiate
sr_connect_to_server os client es =
    if os.reaches then negotiate os client es else not_connected client
