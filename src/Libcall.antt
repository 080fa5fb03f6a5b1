-- ===== src/Libcall.antt =====
-- src/libcall.c: the library calls, and the table that names them.
pub mod Strings
pub mod Sys
pub mod Tasks
pub mod Net
pub mod Table
