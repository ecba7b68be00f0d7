-- ===== src/Kernel.antt =====
-- kernel/: process identifiers, the scheduler's queues and semaphores, and its threads.
pub mod Pids
pub mod Queue
pub mod Scheduler
pub mod Threads
pub mod Routine
pub mod Client
pub mod CpuController
