-- ===== src/Vns.antt =====
-- router/sr_vns_comm.c and router/vnscommand.h: the messages of the server that the router is
-- attached to.
pub mod Message
pub mod HwInfo
pub mod Socket
pub mod Client
pub mod Session
pub mod Command
pub mod Connect
