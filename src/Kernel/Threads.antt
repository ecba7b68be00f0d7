-- ===== src/Kernel/Threads.antt =====
-- kernel/src/scheduling/: the three schedulers, the I/O unit and the suspension trackers, with
-- kernel/src/server/dispatcher.c, as steps on the kernel's state. A step runs from one semaphore to
-- the next; what the other modules answer is an argument of the step.
pub mod Dispatcher
pub mod Mts
pub mod Sts
pub mod Lts
pub mod Io
pub mod Steps
pub mod Admission
pub mod Execute
use os_sski.Common.{ℕ, Bool, Option, List, [], ◌∷◌, ◌++◌, if◌then◌else◌}
use os_sski.Wire.Pcb.{Pcb}
use os_sski.Kernel.Scheduler.{Scheduler, check_interruption}

-- What the kernel sends to the memory module and to the CPU.
pub data Message : Type 0 where
  memory_init : (id size : ℕ) → Message
  swap_pcb : Pcb → Message
  process_terminated : (id page_table : ℕ) → Message
  send_pcb : Pcb → Message
  send_interrupt : Message

-- A suspension tracker: the identifier it was started for, and which of the process's blocks in
-- memory its pointer is (each return from the CPU allocates a new one).
pub record Tracker : Type 0 where
  pub pid : ℕ
  pub block : ℕ

-- `held` is whether the long-term scheduler has taken a request and waits for a slot, `running`
-- the process sent to the CPU, `io` the one in its I/O burst, `blocks` the latest block of each
-- process, `sent` the messages, latest first.
pub record KernelState : Type 0 where
  pub scheduler : Scheduler
  pub pcbs : List Pcb
  pub pids : List Bool
  pub held : Bool
  pub running : Option Pcb
  pub io : Option Pcb
  pub trackers : List Tracker
  pub blocks : ℕ → ℕ
  pub sent : List Message

-- What a step comes to; `waits` is a semaphore at zero, `crashes` a null or dangling pointer.
pub data Outcome : Type 0 where
  done : KernelState → Outcome
  waits crashes : Outcome

unfoldable pub send : KernelState → Message → KernelState
send k m = record k { sent = m ∷ k.sent }

-- cpu_controller_send_interrupt, where check_interruption calls it
unfoldable pub notify_cpu : KernelState → Pcb → KernelState
unfolding send
notify_cpu k pcb = if check_interruption k.scheduler pcb then send k Message.send_interrupt else k
