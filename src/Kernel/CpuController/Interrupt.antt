-- ===== src/Kernel/CpuController/Interrupt.antt =====
-- An interruption: the kernel asks, the CPU gives its process back, and the next one is taken.
use os_sski.Common.{
  ℕ, suc, ◌+◌, ◌<◌, ◌≡◌, ◌≢◌, refl, ◌∙◌, true, false, none, some, ◌∷◌, ◌++◌, arith, u32_mod,
}
use os_sski.Wire.Word.{Bytes}
use os_sski.Wire.Opcode.{op_pcb}
use os_sski.Wire.Pcb.{Pcb, PcbStatus, IsPcb, Heap, status_code, status_of_code, pcb_bytes_size}
use os_sski.Wire.Pcb.Stream.{recovered}
use os_sski.Cpu.Mmu.{MemoryModule}
use os_sski.Cpu.Cycle.{Cpu, run}
use os_sski.Cpu.Cycle.Hand.{IsExclusive, cycle_interrupted, cycle-IsExclusive}
use os_sski.Cpu.Cycle.Program.{run_step, run_done}
use os_sski.Cpu.Server.{Handled, request_handler, return_message}
use os_sski.Kernel.CpuController.{
  cpu_controller_send_pcb, cpu_controller_send_interrupt, cpu_controller_receive_pcb,
}
use os_sski.Kernel.CpuController.Trip.{holding, request_handler-send}
use os_sski.Kernel.CpuController.Burst.{receive_pcb-return_message}

abbrev pub ready : Pcb → Pcb
ready p = record p { status = PcbStatus.pcb_ready }

ready-IsPcb : (p : Pcb) → IsPcb p → IsPcb (ready p)
unfolding status_code status_of_code
ready-IsPcb p w = record {
  id_small = w.id_small;
  status_fits = (omega arith, refl);
  size_small = w.size_small;
  estimation_small = w.estimation_small;
  pc_small = w.pc_small;
  page_table_small = w.page_table_small;
  count_small = w.count_small;
  instructions_fit = w.instructions_fit;
}

-- A pre-emption over the connections: a CPU that is connected to the kernel, holds a process and
-- nothing else is signalled free, is sent the kernel's interruption. In the loop that follows, of at
-- least one cycle, it holds no process any more, has forgotten the interruption, has not asked the
-- memory module for anything, and has returned one process, from whose message the kernel
-- recovers the process that was held, ready, with its program counter and its program as they were and
-- no I/O time. The next process that the kernel sends is then taken at once. The processes'
-- fields are words and their streams fit; the fields that no stream has are the reader's block's.
pub receive_pcb-run_interrupted :
    {S : Type 0} (memory : MemoryModule S) (theirs ours : Heap) (fuel : ℕ) (cpu : Cpu) (p q : Pcb)
    (s : S) (rest more after : Bytes)
    → IsExclusive cpu
    → cpu.pcb ≡ some p
    → cpu.client ≡ true
    → IsPcb p
    → pcb_bytes_size p + 4 < u32_mod
    → IsPcb q
    → pcb_bytes_size q < u32_mod
    → (asked done : Cpu) × (request_handler theirs cpu (cpu_controller_send_interrupt ++ rest)
        ≡ Handled.served asked rest)
      × (run memory (suc fuel) asked s ≡ some (done, s))
      × (done.pcb ≡ none)
      × (done.has_interruption ≡ false)
      × (done.returned ≡ (ready p, 0) ∷ cpu.returned)
      × (cpu_controller_receive_pcb ours (return_message (ready p) 0 ++ more)
          ≡ some ((recovered ours (ready p), 0), more))
      × (request_handler theirs done (cpu_controller_send_pcb op_pcb q ++ after)
          ≡ Handled.served (holding done (recovered theirs q)) after)
unfolding pcb_bytes_size
receive_pcb-run_interrupted memory theirs ours fuel cpu p q s rest more after ex here client w fits
      v fit =
    let held : cpu.pcb ≢ none = λ e. absurd (ground (arith, here, e)) in
    let asked : Cpu = record cpu { has_interruption = true } in
    let sent = ((request_handler-send theirs cpu p rest w (omega arith) ex).1 held).1 in
    let (done, cycled, gone, calm, back, _, _) =
      cycle_interrupted memory asked p s here refl client in
    let ran =
      run_step memory fuel asked done p s s here cycled ∙ run_done memory fuel done s gone in
    let free = cycle-IsExclusive memory asked done s s ex cycled in
    (
      asked,
      done,
      sent,
      ran,
      gone,
      calm,
      back,
      receive_pcb-return_message ours (ready p) 0 more (ready-IsPcb p w) (omega arith) fits,
      (request_handler-send theirs done q after v fit free).0 gone,
    )
