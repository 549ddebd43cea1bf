-- ===== src/Main.antt =====
-- router/sr_main.c: start-up, the main loop, and the router as it runs.
pub mod Verify
pub mod Loop
pub mod Options
pub mod Start
pub mod Started
pub mod System
