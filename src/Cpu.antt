-- ===== src/Cpu.antt =====
-- cpu/: the TLB, the MMU and the instruction cycle.
pub mod Tlb
pub mod Mmu
pub mod Client
pub mod Server
pub mod Cycle
