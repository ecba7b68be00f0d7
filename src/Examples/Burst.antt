-- ===== src/Examples/Burst.antt =====
-- A burst of two instructions, from the kernel to the CPU and back.
use os_sski.Common.{◌+◌, ◌≡◌, refl, suc, true, false, none, some, [], ◌∷◌, ◌++◌, inl, arith, ◌≢◌}
use os_sski.Wire.Opcode.{op_pcb}
use os_sski.Wire.Instruction.{c_request_exit, c_request_no_op}
use os_sski.Wire.Pcb.{Pcb, IsPcb, Heap, status_code, status_of_code, pcb_bytes_size}
use os_sski.Wire.Pcb.Stream.{recovered}
use os_sski.Cpu.Cycle.{Cpu, run}
use os_sski.Cpu.Server.{Handled, request_handler, return_message}
use os_sski.Kernel.CpuController.{
  cpu_controller_send_pcb, cpu_controller_send_interrupt, cpu_controller_receive_pcb,
}
use os_sski.Kernel.CpuController.Trip.{holding, request_handler-send}
use os_sski.Kernel.CpuController.Burst.{ended, receive_pcb-run_exit}
use os_sski.Kernel.CpuController.Interrupt.{ready, receive_pcb-run_interrupted}
use os_sski.Examples.Cpu.{memory, store, program, pcb_of, cpu_with}

abbrev idle : Cpu
idle = cpu_with none false

abbrev process : Pcb
process = pcb_of program 0

abbrev theirs : Heap
theirs = record { size_high = 5; io = 77; real = 88 }

abbrev ours : Heap
ours = record { size_high = 0; io = 1; real = 2 }

process-IsPcb : IsPcb process
unfolding status_code status_of_code
process-IsPcb = record {
  id_small = omega arith;
  status_fits = (omega arith, refl);
  size_small = omega arith;
  estimation_small = omega arith;
  pc_small = omega arith;
  page_table_small = omega arith;
  count_small = omega arith;
  instructions_fit = (
    record { icode_small = omega arith; param0_small = omega arith; param1_small = omega arith },
    (
      record { icode_small = omega arith; param0_small = omega arith; param1_small = omega arith },
      tt,
    ),
  );
}

process-size : pcb_bytes_size process ≡ 52
unfolding pcb_bytes_size
process-size = refl

request_handler-send_example :
    ((idle.pcb ≡ none)
      → request_handler theirs idle (cpu_controller_send_pcb op_pcb process ++ 9 ∷ [])
        ≡ Handled.served (holding idle (recovered theirs process)) (9 ∷ []))
    × ((idle.pcb ≢ none)
        → (request_handler theirs idle (cpu_controller_send_pcb op_pcb process ++ 9 ∷ [])
            ≡ Handled.waits)
          × (request_handler theirs idle (cpu_controller_send_interrupt ++ 9 ∷ [])
              ≡ Handled.served (record idle { has_interruption = true }) (9 ∷ [])))
    × ((idle.pcb ≡ none)
        → request_handler theirs idle (cpu_controller_send_interrupt ++ 9 ∷ [])
          ≡ Handled.served idle (9 ∷ []))
request_handler-send_example =
    request_handler-send theirs idle process (9 ∷ []) process-IsPcb (omega (arith, process-size))
      refl

receive_pcb-run_exit_example :
    (taken done : Cpu) × (returned : Pcb) × (request_handler theirs idle
        (cpu_controller_send_pcb op_pcb process ++ 9 ∷ [])
      ≡ Handled.served taken (9 ∷ []))
    × (run memory 5 taken store ≡ some (done, store))
    × (done.pcb ≡ none)
    × (done.returned ≡ (returned, 0) ∷ [])
    × (cpu_controller_receive_pcb ours (return_message returned 0 ++ 7 ∷ [])
        ≡ some ((recovered ours (ended process (0 + 1 + 1)), 0), 7 ∷ []))
receive_pcb-run_exit_example =
    receive_pcb-run_exit memory theirs ours 1 5 idle process
      (record { icode = c_request_exit; param0 = 0; param1 = 0 }) store (9 ∷ []) (7 ∷ [])
      (omega arith) refl refl refl refl process-IsPcb (omega (arith, process-size))
      ((record { icode = c_request_no_op; param0 = 0; param1 = 0 }, refl, inl refl), tt) refl refl
      (omega arith)

abbrev held : Pcb
held = pcb_of program 1

held-IsPcb : IsPcb held
held-IsPcb = record {
  id_small = process-IsPcb.id_small;
  status_fits = process-IsPcb.status_fits;
  size_small = process-IsPcb.size_small;
  estimation_small = process-IsPcb.estimation_small;
  pc_small = omega arith;
  page_table_small = process-IsPcb.page_table_small;
  count_small = process-IsPcb.count_small;
  instructions_fit = process-IsPcb.instructions_fit;
}

held-size : pcb_bytes_size held ≡ 52
unfolding pcb_bytes_size
held-size = refl

receive_pcb-run_interrupted_example :
    (asked done : Cpu) × (request_handler theirs
        (cpu_with (some held) false)
        (cpu_controller_send_interrupt ++ 9 ∷ [])
      ≡ Handled.served asked (9 ∷ []))
    × (run memory (suc 4) asked store ≡ some (done, store))
    × (done.pcb ≡ none)
    × (done.has_interruption ≡ false)
    × (done.returned ≡ (ready held, 0) ∷ [])
    × (cpu_controller_receive_pcb ours (return_message (ready held) 0 ++ 7 ∷ [])
        ≡ some ((recovered ours (ready held), 0), 7 ∷ []))
    × (request_handler theirs done (cpu_controller_send_pcb op_pcb process ++ 5 ∷ [])
        ≡ Handled.served (holding done (recovered theirs process)) (5 ∷ []))
receive_pcb-run_interrupted_example =
    receive_pcb-run_interrupted memory theirs ours 4 (cpu_with (some held) false) held process store
      (9 ∷ []) (7 ∷ []) (5 ∷ []) refl refl refl held-IsPcb (omega (arith, held-size)) process-IsPcb
      (omega (arith, process-size))
