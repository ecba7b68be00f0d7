-- ===== src/Examples/Threads.antt =====
-- One process on its way from the console to the CPU.
use os_sski.Common.{suc, ◌/◌, ◌≡◌, refl, true, false, List, [], ◌∷◌, ◌++◌, arith}
use os_sski.Wire.Instruction.{Instruction, c_request_exit}
use os_sski.Wire.Pcb.{Pcb, PcbStatus, new_pcb}
use os_sski.Kernel.Pids.{get_pid_libre, take_free, new_pids}
use os_sski.Kernel.Queue.{safe_queue_find_by}
use os_sski.Kernel.Scheduler.{new_scheduler}
use os_sski.Kernel.Threads.{KernelState, Outcome}
use os_sski.Kernel.Threads.Dispatcher.{
  new_process, dispatch_handle_syscall, dispatch_handle_instruction,
}
use os_sski.Kernel.Threads.Lts.{lts_request, admit, MemoryLink}
use os_sski.Kernel.Threads.Steps.{on_start, Config, Step, Reach}
use os_sski.Kernel.Threads.Admission.{IsBalanced, Reach-IsBalanced, admit_ready}
use os_sski.Examples.Kernel.{sort}

abbrev config : Config
config = record {
  sort = sort;
  by_alfa = λ real. real / 2;
  by_rest = λ estimation. estimation / 2;
  estimacion_inicial = 1000;
}

abbrev program : List Instruction
program = record { icode = c_request_exit; param0 = 0; param1 = 0 } ∷ []

abbrev started : KernelState
started = on_start 2 "FIFO" 5

abbrev asked : KernelState
asked = (dispatch_handle_syscall 1000 started (record { actioncode = new_process; param = 64 }) 0).1

abbrev queued : KernelState
queued = dispatch_handle_instruction asked program 0

abbrev held : KernelState
held = record queued { scheduler = record queued.scheduler { req_admit = 0 }; held = true }

queued-request : (queued.scheduler.req_admit ≡ 1) × (queued.held ≡ false)
unfolding dispatch_handle_instruction dispatch_handle_syscall on_start new_scheduler get_pid_libre
    take_free new_pids safe_queue_find_by new_pcb
queued-request = (refl, refl)

lts_request-queued : lts_request queued ≡ Outcome.done held
unfolding lts_request
lts_request-queued = ground (arith, queued-request)

held-Reach : Reach config started held
held-Reach =
    Reach.after
      (Reach.after
        (Reach.after Reach.here
          (Step.syscall started (record { actioncode = new_process; param = 64 }) 0))
        (Step.program asked program 0))
      (Step.request queued held queued-request.1 lts_request-queued)

held-dom : held.scheduler.dom ≡ suc 1
unfolding dispatch_handle_instruction dispatch_handle_syscall on_start new_scheduler get_pid_libre
    take_free new_pids safe_queue_find_by new_pcb
held-dom = refl

Reach-IsBalanced_example : IsBalanced held
Reach-IsBalanced_example = Reach-IsBalanced config 2 "FIFO" 5 held held-Reach

admit_ready_example :
    (k' : KernelState) × (p : Pcb) × (admit held (MemoryLink.page_table 4) ≡ Outcome.done k')
    × (k'.scheduler.ready ≡ held.scheduler.ready ++ record p { status = PcbStatus.pcb_ready } ∷ [])
    × (k'.scheduler.dom ≡ 1)
admit_ready_example =
    admit_ready config 2 "FIFO" 5 held 1 (MemoryLink.page_table 4) held-Reach refl held-dom
