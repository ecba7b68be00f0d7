-- ===== src/Kernel/Threads/Steps.antt =====
-- The interleavings of the kernel's threads: any enabled step may be next. There is one thread of
-- each scheduler, so the short-term one takes no process while one runs, and the I/O unit none
-- during a burst; a tracker fires once.
use Prim.Native.String.{String}
use os_sski.Common.{ℕ, ◌≡◌, Bool, true, false, Option, none, some, List, [], ◌∷◌, ◌++◌}
use os_sski.Wire.Operands.{Accion}
use os_sski.Wire.Instruction.{Instruction}
use os_sski.Wire.Pcb.{Pcb}
use os_sski.Kernel.Pids.{new_pids}
use os_sski.Kernel.Scheduler.{new_scheduler}
use os_sski.Kernel.Threads.{KernelState, Outcome, Tracker}
use os_sski.Kernel.Threads.Dispatcher.{dispatch_handle_syscall, dispatch_handle_instruction}
use os_sski.Kernel.Threads.Mts.{track_time}
use os_sski.Kernel.Threads.Sts.{short_term_schedule, execute_return}
use os_sski.Kernel.Threads.Lts.{lts_request, admit, MemoryLink}
use os_sski.Kernel.Threads.Io.{io_start, io_finish}

-- The state that the threads start in.
unfoldable pub on_start : ℕ → String → ℕ → KernelState
on_start dom algorithm max_blocked_time = record {
  scheduler = new_scheduler dom algorithm max_blocked_time;
  pcbs = [];
  pids = new_pids;
  held = false;
  running = none;
  io = none;
  trackers = [];
  blocks = λ _. 0;
  sent = [];
}

-- The parameters of the steps: the sort of the library, the two products and the initial estimation.
pub record Config : Type 0 where
  pub sort : List Pcb → List Pcb
  pub by_alfa : ℕ → ℕ
  pub by_rest : ℕ → ℕ
  pub estimacion_inicial : ℕ

pub data Step (c : Config) : KernelState → KernelState → Type 0 where
  syscall :
      (k : KernelState) (accion : Accion) (pid : ℕ)
      → Step c k (dispatch_handle_syscall c.estimacion_inicial k accion pid).1
  program :
      (k : KernelState) (instructions : List Instruction) (pid : ℕ)
      → Step c k (dispatch_handle_instruction k instructions pid)
  request : (k k' : KernelState) → k.held ≡ false → lts_request k ≡ Outcome.done k' → Step c k k'
  admitted :
      (k k' : KernelState) (link : MemoryLink)
      → k.held ≡ true
      → admit k link ≡ Outcome.done k'
      → Step c k k'
  dispatched :
      (k k' : KernelState) (sent_well : Bool)
      → k.running ≡ none
      → short_term_schedule c.sort k sent_well ≡ Outcome.done k'
      → Step c k k'
  returned :
      (k k' : KernelState) (p : Pcb) (reply : Option (Pcb × ℕ)) (real : ℕ)
      → k.running ≡ some p
      → execute_return c.by_alfa c.by_rest k reply real ≡ Outcome.done k'
      → Step c k k'
  io_started : (k k' : KernelState) → k.io ≡ none → io_start k ≡ Outcome.done k' → Step c k k'
  io_finished : (k k' : KernelState) → io_finish k ≡ Outcome.done k' → Step c k k'
  tracked :
      (k k' : KernelState) (before after : List Tracker) (t : Tracker)
      → k.trackers ≡ before ++ t ∷ after
      → track_time (record k { trackers = before ++ after }) t ≡ Outcome.done k'
      → Step c k k'

pub data Reach (c : Config) (start : KernelState) : KernelState → Type 0 where
  here : Reach c start start
  after : {k k' : KernelState} → Reach c start k → Step c k k' → Reach c start k'
