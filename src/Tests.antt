-- ===== src/Tests.antt =====
-- Runs of the development's theorems at concrete inputs.
mod Data
mod Table
mod Packets
mod Runs
mod Tcp
mod Session
mod Live
mod Refine
mod Start
mod FrameData
mod Frames
mod Ping
mod Answers
mod Total
mod Handshake
