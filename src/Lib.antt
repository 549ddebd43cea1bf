-- ===== src/Lib.antt =====
-- A simple router with network address translation (README.md): it receives Ethernet frames from a
-- server, answers ARP and ICMP, forwards IP packets by longest prefix, and, with the NAT switched on,
-- translates ICMP and TCP between private and public addresses.
--
-- The parts of the program, and the files here that model them:
--   * router/sr_protocol.h: Proto and the files below it, the header fields as loads and stores in a
--     packet, which is a list of bytes (Base/Words). The machine is little-endian.
--   * router/sr_utils.c: Cksum (`cksum`), PrivateIp (`is_private_ip`).
--   * router/sr_nat.h and router/sr_nat.c: Nat/Types (the structs), Nat/Bitmap (`find_next_id`,
--     ClearBit), Nat/Table (`sr_nat_init`, the lookups, `sr_nat_insert_mapping`), Nat/Conn
--     (`sr_nat_insert_connection`, `sr_nat_update_connection`), Nat/State (`_determine_state`),
--     Nat/Unsol (the unsolicited packets), Nat/Timeout (the mappings in `sr_nat_timeout`).
--     Nat/View and Nat/Refine have the specification of the mapping table.
--   * router/sr_if.c, router/sr_rt.c, router/sr_arpcache.c: If, Rt (with Rt/Load for `sr_load_rt`), Arp.
--   * router/sr_router.h: Instance, the state `Sr` of the router.
--   * router/vnscommand.h and router/sr_vns_comm.c: Send (`sr_send_packet` and its checks), Vns/Message
--     (the messages), Vns/Socket (reading one message), Vns/HwInfo (`sr_handle_hwinfo`), Vns/Client (the
--     state of the client and what it asks of the system), Vns/Session (the other handlers),
--     Vns/Command (`sr_read_from_server_expect`), Vns/Connect (`sr_connect_to_server`).
--   * router/sr_main.c: Main/Options, Main/Start (`main`, and `sr_init` of router/sr_router.c),
--     Main/Loop (the main loop), Main/Verify (`sr_verify_routing_table`).
--   * router/sr_router.c: Build (the packet builders), Router/Output (`sr_send_arp`, `sr_send_icmp`,
--     `sr_forward_ippacket`), Router/Translate (`nat_handle_icmp`, `nat_handle_tcp`), Router/Handle
--     (`sr_handlepacket`, `sr_handle_arp`, `sr_handle_ippacket`). Build/ReadBack and Build/Headers read
--     what is built as a receiver does; the children of Router/Handle, Router/Through and Router/Ping
--     are about whole frames, from what arrives to what is sent, Router/Done and Router/Total about
--     faults, Router/Translate/RoundTrip and Router/Translate/TcpTrip about packets that are
--     translated there and back, Router/Translate/NoRoute and Router/Translate/Retransmit about two
--     faults on outbound segments.
--   * the rounds of the threads `sr_arpcache_timeout` and `sr_nat_timeout`: Router/Periodic.
--     Router/Requests is about the queue of ARP requests across a round.
-- Base has the shared helpers. Tests has runs at concrete inputs.
--
-- Conventions. A handler is a function from the state to `Option` of the next one: `none` is a fault,
-- which is undefined behaviour (a read past the packet or of freed memory, a NULL pointer) or a
-- failed assertion of the C code. `malloc` never fails. `time(NULL)` is an argument, in whole seconds;
-- `difftime(now, then) > limit` is `then + limit < now`. Linked lists are lists in the order of the
-- links. A `uint16_t` or `uint32_t` is a number with its wrap-around written out; addresses and ports
-- are in the byte order of the C variable. Each function is one step, as the locks make it; `Step` in
-- Router/Step puts frames and timeout rounds in any order, and `Tick` in Main/System messages of the
-- server and timeout rounds; both take a frame or a message only while some external id is free.
--
-- Bounds and fuel. The folding loop of `cksum` has fuel 3, and two rounds bring any 32-bit sum to 16
-- bits. The loops of `find_next_id` run their 2016 and 32 rounds. Every other loop is recursion on a
-- list, on a count of entries or, for a read from the socket, on its events. The main loop has fuel;
-- more than the bytes and events on the socket is enough.
--
-- The socket is the list of what it does: bytes that arrive, a signal, an error, the end. A loop that
-- would read on for ever is a result of its own, and so is a read that waits for more. The system's
-- functions (files, `send`, the making of the connection, `sscanf`, `inet_aton`, `atoi`, `getopt`) and
-- SHA-1 (router/sha1.c, which is another project's library) are parameters, the records `Os`, `Reader`
-- and `Disk`.
--
-- Not modelled: the log of packets (router/sr_dumper.c), printing, the start of the threads, and the
-- Python scripts.
pub mod Base
pub mod Proto
pub mod Cksum
pub mod PrivateIp
pub mod Nat
pub mod If
pub mod Rt
pub mod Arp
pub mod Instance
pub mod Send
pub mod Build
pub mod Router
pub mod Vns
pub mod Main
pub mod Tests
