-- ===== src/Nat.antt =====
-- router/sr_nat.c and sr_nat.h: the translation table, one child for each group of functions.
pub mod Types
pub mod Bitmap
pub mod State
pub mod Table
pub mod Unsol
pub mod Conn
pub mod Timeout
pub mod View
pub mod Refine
