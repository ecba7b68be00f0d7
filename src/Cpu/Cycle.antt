-- ===== src/Cpu/Cycle.antt =====
-- The instruction cycle of cpu/src/module/cpu.c with the hand-over of a process by
-- cpu/src/server/pcb_controller.c and the interrupt of request_handler.c. One cycle is one step.
pub mod Hand
pub mod Program
pub mod Copy
use Prim.Native.String.{String}
use os_sski.Common.{
  ℕ, zero, suc, ◌+◌, ◌%◌, Bool, true, false, Option, none, some, List, [], ◌∷◌, ◌++◌, u32_mod,
  ◌>>=◌, get_elem?, set, ◌==◌, if◌then◌else◌,
}
use os_sski.Wire.Instruction.{
  Instruction, c_request_exit, c_request_read, c_request_write, c_request_no_op, c_request_io,
  c_request_copy,
}
use os_sski.Wire.Pcb.{Pcb, PcbStatus}
use os_sski.Cpu.Tlb.{Tlb, tlb_reset}
use os_sski.Cpu.Mmu.{MemoryModule, Geometry, req_physical_address}

-- `client` is whether the dispatch client has a descriptor, `returned` the processes sent back to
-- the kernel with their I/O times, latest first.
pub record Cpu : Type 0 where
  pub pcb : Option Pcb
  pub has_interruption : Bool
  pub tlb : Tlb
  pub geometry : Geometry
  pub entradas_tlb : ℕ
  pub reemplazo_tlb : String
  pub client : Bool
  pub cpu_in_use : ℕ
  pub pcb_received : ℕ
  pub returned : List (Pcb × ℕ)

unfoldable pub reset : Cpu → Cpu
reset cpu = record cpu { tlb = tlb_reset cpu.tlb cpu.entradas_tlb cpu.reemplazo_tlb }

-- `none`: the handler waits, since the CPU is in use.
unfoldable pub receive_pcb : Cpu → Pcb → Option Cpu
receive_pcb cpu pcb = elim cpu.cpu_in_use [
  | zero ↦ none
  | suc n ↦
      some (record cpu { cpu_in_use = n; pcb = some pcb; pcb_received = cpu.pcb_received + 1 })
]

-- Without a descriptor nothing is returned, and the process stays.
unfoldable pub return_pcb : Cpu → Pcb → ℕ → Cpu
unfolding reset
return_pcb cpu pcb time =
    if cpu.client
    then record (reset cpu) {
      pcb = none;
      cpu_in_use = cpu.cpu_in_use + 1;
      returned = (pcb, time) ∷ cpu.returned;
    }
    else record cpu { pcb = some pcb }

unfoldable pub request_handler_int : Cpu → Cpu
request_handler_int cpu = elim cpu.pcb [
  | none ↦ cpu
  | some pcb ↦ record cpu { has_interruption = true }
]

abbrev pub advanced : Pcb → Pcb
advanced pcb = record pcb { pc = (pcb.pc + 1) % u32_mod }

-- The instruction at the program counter, if the list reaches that far; the counter moves on.
unfoldable pub instruction_fetch : Pcb → Option Instruction × Pcb
instruction_fetch pcb = (get_elem? pcb.instructions pcb.pc, advanced pcb)

unfoldable pub decode : Instruction → Bool
decode instruction = instruction.icode == c_request_copy

unfoldable pub execute_io : Instruction → Cpu → Pcb → Cpu
unfolding return_pcb
execute_io instruction cpu pcb =
    return_pcb cpu (record pcb { status = PcbStatus.pcb_blocked }) instruction.param0

unfoldable pub execute_exit : Instruction → Cpu → Pcb → Cpu
unfolding return_pcb reset
execute_exit instruction cpu pcb =
    return_pcb (reset cpu) (record pcb { status = PcbStatus.pcb_terminated }) instruction.param0

-- The interrupted process goes back as it is, ready.
unfoldable pub interrupted : Cpu → Pcb → Cpu
unfolding return_pcb reset
interrupted cpu pcb =
    record (return_pcb (reset cpu) (record pcb { status = PcbStatus.pcb_ready }) 0) {
      has_interruption = false;
    }

module _ {S : Type 0} (memory : MemoryModule S) where
  unfoldable pub execute_read : Cpu → Pcb → ℕ → S → Option (ℕ × Tlb × S)
  execute_read cpu pcb logical_address s = do
    (address, tlb, s) ← req_physical_address memory cpu.geometry pcb logical_address cpu.tlb s
    let (value, s) = memory.read s pcb.id address
    some (value, tlb, s)

  unfoldable pub execute_write : Cpu → Pcb → ℕ → ℕ → S → Option (Tlb × S)
  execute_write cpu pcb logical_address value s = do
    (address, tlb, s) ← req_physical_address memory cpu.geometry pcb logical_address cpu.tlb s
    some (tlb, memory.write s pcb.id address value)

  unfoldable pub instruction_execute : Instruction → Cpu → Pcb → S → Option (Cpu × S)
  unfolding execute_read execute_write execute_io execute_exit
  instruction_execute instruction cpu pcb s =
      if instruction.icode == c_request_no_op
      then some (record cpu { pcb = some pcb }, s)
      else if instruction.icode == c_request_io
      then some (execute_io instruction cpu pcb, s)
      else if instruction.icode == c_request_exit
      then some (execute_exit instruction cpu pcb, s)
      else if instruction.icode == c_request_read
      then (do
        (_, tlb, s) ← execute_read cpu pcb instruction.param0 s
        some (record cpu { pcb = some pcb; tlb = tlb }, s))
      else if instruction.icode == c_request_write
      then (do
        (tlb, s) ← execute_write cpu pcb instruction.param0 instruction.param1 s
        some (record cpu { pcb = some pcb; tlb = tlb }, s))
      else if instruction.icode == c_request_copy
      then (do
        (tlb, s) ← execute_write cpu pcb instruction.param0 instruction.param1 s
        some (record cpu { pcb = some pcb; tlb = tlb }, s))
      else some (record cpu { pcb = some pcb }, s)

  -- A copy has its operands put into the instruction itself, which the process's list holds;
  -- `param0` gets the first member of `operandos`, that is 0.
  unfoldable pub fetch_operands_of :
      ℕ → Instruction → Cpu → Pcb → S → Option (Instruction × Cpu × Pcb × S)
  unfolding execute_read
  fetch_operands_of at instruction cpu pcb s = do
    (value, tlb, s) ← execute_read cpu pcb instruction.param1 s
    let fetched : Instruction = record instruction { param0 = 0; param1 = value }
    some (
      fetched,
      record cpu { tlb = tlb },
      record pcb { instructions = set pcb.instructions at fetched },
      s,
    )

  -- Decode and execute; `next` has the program counter moved on, `at` is where it stood.
  unfoldable pub execute_fetched : ℕ → Instruction → Cpu → Pcb → S → Option (Cpu × S)
  unfolding decode fetch_operands_of instruction_execute
  execute_fetched at instruction cpu next s =
      if decode instruction
      then (do
        (instruction, cpu, next, s) ← fetch_operands_of at instruction cpu next s
        instruction_execute instruction cpu next s)
      else instruction_execute instruction cpu next s

  -- Without an interruption: fetch, decode, execute.
  unfoldable pub fetch_and_execute : Cpu → Pcb → S → Option (Cpu × S)
  unfolding instruction_fetch execute_fetched
  fetch_and_execute cpu pcb s =
      let (fetched, next) = instruction_fetch pcb in
      elim fetched [
        | none ↦ some (record cpu { pcb = some next }, s)
        | some instruction ↦ execute_fetched pcb.pc instruction cpu next s
      ]

  -- `none`: no process is there, or the TLB's replacement goes wrong.
  unfoldable pub cycle : Cpu → S → Option (Cpu × S)
  unfolding interrupted fetch_and_execute
  cycle cpu s = elim cpu.pcb [
    | none ↦ none
    | some pcb ↦
        if cpu.has_interruption then some (interrupted cpu pcb, s) else fetch_and_execute cpu pcb s
  ]

  -- while (cpu->pcb != NULL) cycle(cpu), for at most `fuel` rounds.
  unfoldable pub run : ℕ → Cpu → S → Option (Cpu × S)
  run zero cpu s = some (cpu, s)
  run (suc fuel) cpu s = elim cpu.pcb [
    | none ↦ some (cpu, s)
    | some pcb ↦ elim (cycle cpu s) [ none ↦ none | some (cpu, s) ↦ run fuel cpu s ]
  ]
