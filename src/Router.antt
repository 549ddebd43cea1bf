-- ===== src/Router.antt =====
-- router/sr_router.c and the periodic tasks of router/sr_arpcache.c and router/sr_nat.c: handlers
-- from the router's state to the next one, where `none` is a fault (undefined behaviour or a failed
-- assertion). `now` is `time(NULL)`.
pub mod Output
pub mod Quiet
pub mod Keeps
pub mod Translate
pub mod Handle
pub mod Periodic
pub mod HandleKeeps
pub mod Step
pub mod Requests
pub mod Through
pub mod Ping
pub mod Done
pub mod Total
