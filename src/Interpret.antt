-- ===== src/Interpret.antt =====
-- src/interpret.c: the bytecode interpreter.
pub mod Code
pub mod Binary
pub mod Arith
pub mod Compare
pub mod Logic
pub mod Control
pub mod Locals
pub mod Host
pub mod Machine
pub mod Loop
