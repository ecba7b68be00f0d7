-- ===== src/Kernel/Scheduler.antt =====
-- kernel/src/scheduling/scheduler.c and scheduler_algorithms.c, with the state that the kernel's
-- threads share. A semaphore is its count.
pub mod Order
use Prim.Native.String.{String}
use text.Mathlib.Text.{◌==◌ as str_eq}
use os_sski.Common.{
  ℕ, Bool, true, false, not, Option, none, some, List, [], ◌∷◌, ◌&&◌, uint32_max, ltb,
  if◌then◌else◌,
}
use os_sski.Wire.Pcb.{Pcb}
use os_sski.Kernel.Queue.{safe_queue_pop}

pub data Algorithm : Type 0 where
  get_next_fifo get_next_srt : Algorithm

pub record Scheduler : Type 0 where
  pub dom : ℕ
  pub req_admit : ℕ
  pub io_request : ℕ
  pub execute : ℕ
  pub interrupt : Bool
  pub new : List Pcb
  pub ready : List Pcb
  pub ready_sus : List Pcb
  pub blocked : List Pcb
  pub blocked_sus : List Pcb
  pub current_estimation : ℕ
  pub max_blocked_time : ℕ
  pub current_io : ℕ
  pub get_next : Algorithm

-- `interrupt` is `!strcmp(algorithm, "FIFO") == 0`, that is `strcmp(algorithm, "FIFO") != 0`.
unfoldable pub new_scheduler : ℕ → String → ℕ → Scheduler
new_scheduler dom algorithm max_blocked_time =
    let interrupt = not (str_eq algorithm "FIFO") in
    record {
      dom = dom;
      req_admit = 0;
      io_request = 0;
      execute = 0;
      interrupt = interrupt;
      new = [];
      ready = [];
      ready_sus = [];
      blocked = [];
      blocked_sus = [];
      current_estimation = 0;
      max_blocked_time = max_blocked_time;
      current_io = uint32_max;
      get_next = if interrupt then Algorithm.get_next_fifo else Algorithm.get_next_srt;
    }

unfoldable pub should_interrupt : Scheduler → Pcb → Bool
should_interrupt s pcb = ltb pcb.estimation s.current_estimation

-- Whether an interrupt is sent to the CPU.
unfoldable pub check_interruption : Scheduler → Pcb → Bool
unfolding should_interrupt
check_interruption s pcb = s.interrupt && should_interrupt s pcb

unfoldable pub fifo : List Pcb → Option Pcb × List Pcb
fifo ready = safe_queue_pop ready

-- `sort` is the library's `list_sort` with the comparator `pcb_sort_by_estimation`.
module _ (sort : List Pcb → List Pcb) where
  unfoldable pub srt : List Pcb → Option Pcb × List Pcb
  unfolding fifo
  srt ready = fifo (sort ready)

  -- sched.get_next(&sched): the process, and the ready queue that is left.
  unfoldable pub next_ready : Scheduler → Option Pcb × List Pcb
  unfolding srt
  next_ready s = elim s.get_next [ get_next_fifo ↦ fifo s.ready | get_next_srt ↦ srt s.ready ]
