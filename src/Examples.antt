-- ===== src/Examples.antt =====
-- The theorems at concrete inputs, and runs of the definitions.
pub mod Wire
pub mod Tlb
pub mod Cpu
pub mod Burst
pub mod Kernel
pub mod Threads
pub mod Util
pub mod Memory
pub mod Server
pub mod Isolation
pub mod Console
