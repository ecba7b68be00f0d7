-- ===== src/Kernel/Threads/Execute.antt =====
-- The semaphore of the short-term scheduler against the ready queue.
use Prim.Native.String.{String}
use os_sski.Common.{◌+◌, ◌≤◌, ◌≡◌, ◌⊎◌, Option, none, some, List, [], length}
use os_sski.Wire.Instruction.{Instruction}
use os_sski.Wire.Pcb.{Pcb}
use os_sski.Kernel.Scheduler.{Scheduler}
use os_sski.Kernel.Scheduler.Order.{Sorts}
use os_sski.Kernel.Threads.{KernelState}
use os_sski.Kernel.Threads.Sts.{execute}

-- No ready process is without its signal.
abbrev pub IsSignalled : KernelState → Type 0
IsSignalled k = length k.scheduler.ready ≤ k.scheduler.execute

module _ (sort : List Pcb → List Pcb) (law : Sorts sort) where
  abbrev Takes : List Pcb → Option Pcb × List Pcb → Type 0
  Takes ready r =
      ((ready ≡ []) × (r ≡ (none, [])))
      ⊎ ((p : Pcb) × (rest : List Pcb) × (r ≡ (some p, rest)) × (length ready ≡ length rest + 1))
