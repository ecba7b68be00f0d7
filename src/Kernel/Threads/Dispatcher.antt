-- ===== src/Kernel/Threads/Dispatcher.antt =====
-- kernel/src/server/dispatcher.c: what a console's messages do.
use os_sski.Common.{ℕ, ◌+◌, none, some, List, [], ◌∷◌, ◌++◌, ◌==◌, if◌then◌else◌}
use os_sski.Wire.Operands.{Accion}
use os_sski.Wire.Instruction.{Instruction}
use os_sski.Wire.Pcb.{new_pcb}
use os_sski.Kernel.Pids.{get_pid_libre, undefined}
use os_sski.Kernel.Queue.{safe_queue_push, get_pcb_by_pid}
use os_sski.Kernel.Threads.{KernelState}

-- The action code of a request for a new process.
abbrev pub new_process : ℕ
new_process = 0

-- The client's identifier and the state afterwards; `estimacion_inicial` is configured.
unfoldable pub dispatch_handle_syscall : ℕ → KernelState → Accion → ℕ → ℕ × KernelState
dispatch_handle_syscall estimacion_inicial k accion pid =
    if accion.actioncode == new_process
    then (let (free, pool) = get_pid_libre k.pids in
        if free == undefined then (free, record k { pids = pool }) else (
          free,
          record k {
            pids = pool;
            pcbs = k.pcbs ++ new_pcb free accion.param estimacion_inicial ∷ [];
          },
        ))
    else (pid, k)

-- The process leaves the list of processes that have no program yet.
unfoldable pub dispatch_handle_instruction : KernelState → List Instruction → ℕ → KernelState
unfolding get_pcb_by_pid
dispatch_handle_instruction k instructions pid =
    let (found, pcbs) = get_pcb_by_pid k.pcbs pid in
    elim found [
      | none ↦ k
      | some pcb ↦
          let s = k.scheduler in
          record k {
            pcbs = pcbs;
            scheduler = record s {
              new = safe_queue_push s.new (some (record pcb { instructions = instructions }));
              req_admit = s.req_admit + 1;
            };
          }
    ]
