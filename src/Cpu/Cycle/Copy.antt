-- ===== src/Cpu/Cycle/Copy.antt =====
-- What COPY does with its destination.
use os_sski.Common.{
  ℕ, ◌≡◌, ◌∙◌, ◌<◌, refl, sym, false, Option, some, ◌>>=◌, >>=_assoc, length, get_elem?,
  get_elem?_lt, get_elem?-set_self, set-set, set,
}
use os_sski.Wire.Instruction.{Instruction, c_request_copy}
use os_sski.Wire.Pcb.{Pcb}
use os_sski.Cpu.Mmu.{MemoryModule, walk, req_physical_address}
use os_sski.Cpu.Cycle.Hand.{cycle_fetched}
use os_sski.Cpu.Cycle.{
  Cpu, advanced, cycle, execute_read, execute_write, decode, fetch_operands_of, instruction_execute,
  execute_fetched,
}

-- The instruction at the program counter, with another destination.
abbrev pub redirected : Pcb → Instruction → ℕ → Pcb
redirected pcb i destination = record pcb {
  instructions = set pcb.instructions pcb.pc (record i { param0 = destination });
}

module _ {S : Type 0} (memory : MemoryModule S) where
  -- Read the source, put 0 and the value into the list, write the value at logical address 0.
  abbrev copied : ℕ → Instruction → Cpu → Pcb → S → Option (Cpu × S)
  copied at i cpu next s = do
    (value, tlb, s) ← execute_read memory cpu next i.param1 s
    let fetched : Instruction = record i { param0 = 0; param1 = value }
    let held = record next { instructions = set next.instructions at fetched }
    (tlb, s) ← execute_write memory (record cpu { tlb = tlb }) held 0 value s
    some (record cpu { pcb = some held; tlb = tlb }, s)

  copy_fetched :
      (at : ℕ) (i : Instruction) (cpu : Cpu) (next : Pcb) (s : S)
      → i.icode ≡ c_request_copy
      → execute_fetched memory at i cpu next s ≡ copied at i cpu next s
  unfolding decode fetch_operands_of instruction_execute execute_fetched
  copy_fetched at i cpu next s copies =
      rw (copies, execute_fetched) (>>=_assoc (execute_read memory cpu next i.param1 s) _ _)

  cycle_copies_to_zero :
      (cpu : Cpu) (pcb : Pcb) (i : Instruction) (s : S)
      → cpu.pcb ≡ some pcb
      → cpu.has_interruption ≡ false
      → get_elem? pcb.instructions pcb.pc ≡ some i
      → i.icode ≡ c_request_copy
      → cycle memory cpu s ≡ copied pcb.pc i cpu (advanced pcb) s
  cycle_copies_to_zero cpu pcb i s here calm there copies =
      cycle_fetched memory cpu pcb i s here calm there
      ∙ copy_fetched pcb.pc i cpu (advanced pcb) s copies

  redirected-same :
      (cpu : Cpu) (pcb : Pcb) (i : Instruction) (destination : ℕ) (s : S)
      → copied pcb.pc
          (record i { param0 = destination })
          (record cpu { pcb = some (redirected pcb i destination) })
          (advanced (redirected pcb i destination))
          s
        ≡ copied pcb.pc i cpu (advanced pcb) s
  unfolding execute_read execute_write req_physical_address walk
  redirected-same cpu pcb i destination s = simp set-set refl

  -- The destination of a COPY has no effect at all: without an interruption, a cycle at a COPY comes to
  -- the same CPU and the same memory module, or fails the same way, as a cycle at a COPY of the same
  -- source to any other destination.
  pub cycle-redirected :
      (cpu : Cpu) (pcb : Pcb) (i : Instruction) (destination : ℕ) (s : S)
      → cpu.pcb ≡ some pcb
      → cpu.has_interruption ≡ false
      → get_elem? pcb.instructions pcb.pc ≡ some i
      → i.icode ≡ c_request_copy
      → cycle memory (record cpu { pcb = some (redirected pcb i destination) }) s
        ≡ cycle memory cpu s
  cycle-redirected cpu pcb i destination s here calm there copies =
      let p = redirected pcb i destination in
      let j : Instruction = record i { param0 = destination } in
      let inside : pcb.pc < length pcb.instructions =
        get_elem?_lt pcb.instructions pcb.pc i there in
      let there' : get_elem? p.instructions pcb.pc ≡ some j =
        get_elem?-set_self pcb.instructions pcb.pc j inside in
      cycle_copies_to_zero (record cpu { pcb = some p }) p j s refl calm there' copies
      ∙ redirected-same cpu pcb i destination s
      ∙ sym (cycle_copies_to_zero cpu pcb i s here calm there copies)
