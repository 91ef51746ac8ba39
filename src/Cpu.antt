-- ===== src/Cpu.antt =====
-- cpu/: address translation and the two levels of caches of a CPU.
pub mod Address
pub mod Tlb
pub mod Cache
pub mod Clock
pub mod Machine
pub mod Slices
pub mod Reads
pub mod Writes
pub mod Cycle
pub mod Contract
pub mod Direct
mod Tests
