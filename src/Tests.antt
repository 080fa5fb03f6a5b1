-- ===== src/Tests.antt =====
-- Runs of the model at concrete inputs.
pub mod Stacks
mod StackRuns
mod OpRuns
mod TableRuns
mod TaskRuns
pub mod ItemRuns
pub mod MachineRuns
mod LineRuns
mod FileRuns
mod DeleteRuns
mod KeptRuns
mod LibcallRuns
mod InputRuns
mod SdissRuns
use sin.Hash.{murmur3_32, hash_key}
use sin.Prelude.{◌≡◌, refl, codes}

murmur3_32-hello : murmur3_32 (codes "hello") 0 ≡ 0x248bfa47
unfolding murmur3_32
murmur3_32-hello = refl

murmur3_32-tail : murmur3_32 (codes "hello, world") 0 ≡ 0x149bbb7f
unfolding murmur3_32
murmur3_32-tail = refl

murmur3_32-fox : murmur3_32 (codes "The quick brown fox jumps over the lazy dog") 0 ≡ 0x2e4ff723
unfolding murmur3_32
murmur3_32-fox = refl
