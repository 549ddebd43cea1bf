-- ===== src/Tests/Session.antt =====
-- A session with the server.
use cscd58_nat.Base.{
  ◌≡◌, ◌≢◌, inr, refl, List, [], ◌∷◌, ◌++◌, some, true, Buffer, replicate, arith, load8, load16,
  load32, store16, store32, ntohl, ntohs, length, take, drop,
}
use cscd58_nat.Cksum.Sum.{AllBytes}
use cscd58_nat.Vns.Message.{c_string, base_size, vns_auth_reply}
use cscd58_nat.Vns.Client.{Client, Os}
use cscd58_nat.Vns.Socket.{
  Event, bytes, interrupted, shut, message, fault, spinning, read_bytes, read_message, host_type,
}
use cscd58_nat.Vns.Socket.Stream.{Flowing, stream, announced, read_message-stream}
use cscd58_nat.Vns.Socket.Ends.{read_message_shut, read_message_short}
use cscd58_nat.Vns.Socket.Extent.{Sized, read_message-Sized}
use cscd58_nat.Vns.HwInfo.{sr_handle_hwinfo}
use cscd58_nat.Vns.HwInfo.Entries.{hwinfo_message, interfaces}
use cscd58_nat.Vns.HwInfo.Server.{sr_handle_hwinfo-pack}
use cscd58_nat.Vns.Session.{
  sr_handle_auth_request, send_reply, sr_handle_auth_status, auth_reply, digest_bytes,
}
use cscd58_nat.Vns.Session.Reply.{unpack_name, unpack_digest, auth_reply-unpack}
use cscd58_nat.Vns.Command.{on_command, handle_command, sr_read_from_server_expect}
use cscd58_nat.Vns.Connect.{
  connected, open_message, open_template_message, opening_message, after_opening, send_open,
  negotiate, sr_connect_to_server,
}
use cscd58_nat.Vns.Connect.Handshake.{Greeted, sr_connect_to_server-Greeted}
use cscd58_nat.Main.Loop.{main_loop, main_loop-ends, out_of_fuel}
use cscd58_nat.Tests.Data.{empty_nat, router, eth_if}

-- A banner of 12 bytes in three pieces, and the first byte of what comes after it.
abbrev pieces : List Event
pieces =
    bytes (0 ∷ 0 ∷ 0 ∷ [])
    ∷ interrupted
    ∷ bytes (12 ∷ 0 ∷ 0 ∷ [])
    ∷ bytes (0 ∷ 8 ∷ 104 ∷ 105 ∷ 33 ∷ 0 ∷ 7 ∷ [])
    ∷ []

pieces-AllBytes : AllBytes (stream pieces)
pieces-AllBytes = ground arith

read_message-stream_example :
    (rest : List Event) × (read_message pieces
      ≡ message (host_type (take (announced (stream pieces)) (stream pieces))) rest)
    × Flowing rest
    × (stream rest ≡ drop (announced (stream pieces)) (stream pieces))
unfolding load32 load16 ntohl ntohs
read_message-stream_example =
    read_message-stream pieces tt pieces-AllBytes (omega arith) (omega arith) (omega arith)

banner : (buf : Buffer) × (rest : List Event) × (read_message pieces ≡ message buf rest)
unfolding read_message read_bytes store32 store16 load32 load16 ntohl ntohs
banner = (_, _, refl)

read_message-Sized_example : Sized banner.0
read_message-Sized_example = read_message-Sized pieces banner.1 banner.0 banner.2

-- The connection is closed after five of twelve bytes.
abbrev cut : List Event
cut = bytes (0 ∷ 0 ∷ 0 ∷ 12 ∷ 0 ∷ []) ∷ []

read_message_shut_example : read_message (cut ++ shut ∷ []) ≡ spinning
unfolding load32 load16 ntohl ntohs
read_message_shut_example =
    read_message_shut cut [] tt (inr (omega arith, omega arith, omega arith))

-- A message of four bytes.
abbrev tiny : List Event
tiny = bytes (0 ∷ 0 ∷ 0 ∷ 4 ∷ []) ∷ []

read_message_short_example : read_message tiny ≡ fault
unfolding load32 load16 ntohl ntohs
read_message_short_example = read_message_short tiny tt (omega arith) (omega arith) (omega arith)

-- A system where all goes well.
abbrev pub fine : Os
fine = record {
  memory = λ _. eth_if;
  time = λ _. 0;
  writable = λ _. true;
  auth_key = some (some (replicate 64 65));
  sha1 = λ _. some (1 ∷ 2 ∷ 3 ∷ 4 ∷ 5 ∷ []);
  sends = λ _. true;
  reaches = true;
}

abbrev pub client : Client
client = record {
  sr = record (router empty_nat) { if_list = [] };
  user = 97 ∷ replicate 31 0;
  host = 98 ∷ replicate 31 0;
  vm_template = replicate 30 0;
  topo_id = 3;
  messages = [];
  files = [];
}

sr_handle_hwinfo-pack_example :
    sr_handle_hwinfo (λ _. eth_if) client.sr (hwinfo_message ((eth_if, 0xFFFFFF) ∷ []))
    ≡ some
        (record (client.sr) { if_list = client.sr.if_list ++ interfaces ((eth_if, 0xFFFFFF) ∷ []) })
sr_handle_hwinfo-pack_example =
    sr_handle_hwinfo-pack (λ _. eth_if) client.sr ((eth_if, 0xFFFFFF) ∷ [])
      (((omega arith, (omega arith, (omega arith, tt))), omega arith, refl, omega arith), tt)
      (omega arith)

auth_reply-unpack_example :
    let reply = auth_reply (97 ∷ []) (digest_bytes (1 ∷ 2 ∷ 3 ∷ 4 ∷ 5 ∷ [])) in
    let body = drop base_size reply in
    (length reply ≡ announced reply)
    × (load32 reply 4 ≡ ntohl vns_auth_reply)
    × (unpack_name body ≡ 97 ∷ [])
    × (unpack_digest body ≡ digest_bytes (1 ∷ 2 ∷ 3 ∷ 4 ∷ 5 ∷ []))
auth_reply-unpack_example = auth_reply-unpack (97 ∷ []) (1 ∷ 2 ∷ 3 ∷ 4 ∷ 5 ∷ []) (omega arith) refl

-- The challenge with a salt of four bytes, and the status 1.
abbrev pub greeting : List Event
greeting =
    bytes (0 ∷ 0 ∷ 0 ∷ 12 ∷ 0 ∷ 0 ∷ 0 ∷ 128 ∷ 1 ∷ 2 ∷ 3 ∷ 4 ∷ [])
    ∷ bytes (0 ∷ 0 ∷ 0 ∷ 9 ∷ 0 ∷ 0 ∷ 2 ∷ 0 ∷ 1 ∷ [])
    ∷ []

greeted :
    (after : Client) × (rest : List Event) × (sr_connect_to_server fine client greeting
      ≡ connected after rest)
unfolding sr_connect_to_server negotiate send_open after_opening opening_message open_message
    open_template_message sr_read_from_server_expect read_message read_bytes handle_command
    on_command sr_handle_auth_request send_reply sr_handle_auth_status c_string store32 store16
    load8 load32 load16 ntohl ntohs
greeted = (_, _, refl)

sr_connect_to_server-Greeted_example : Greeted fine greeting client greeted.0
sr_connect_to_server-Greeted_example =
    sr_connect_to_server-Greeted fine client greeted.0 greeting greeted.1 greeted.2

main_loop-ends_example : main_loop 100 fine client pieces ≢ out_of_fuel
main_loop-ends_example = main_loop-ends 100 fine client pieces (omega arith)
