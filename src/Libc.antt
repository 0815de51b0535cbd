-- ===== src/Libc.antt =====
-- The parts of the C library that the modelled sources call.
pub mod Ctype
pub mod Format
pub mod Offsets
pub mod Scanf
