-- ===== src/Memory.antt =====
-- memory/src/module/: frames, page tables, the main memory's bytes and the victim's choice.
pub mod Table
pub mod Frames
pub mod Store
pub mod Process
pub mod Clock
pub mod Lookup
pub mod Server
pub mod Swap
pub mod CpuController
pub mod KernelController
pub mod Routine
pub mod Link
pub mod Isolation
