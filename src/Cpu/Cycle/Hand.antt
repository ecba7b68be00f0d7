-- ===== src/Cpu/Cycle/Hand.antt =====
-- Which process the CPU holds: the fetch, the interruption and the ends of a burst.
use os_sski.Common.{
  ℕ, ◌+◌, ◌≡◌, ◌≢◌, refl, sym, ◌∙◌, inl, inr, Bool, true, false, Option, none, some, ◌∷◌, arith,
  >>=-eq-some, Bool-cases, Option-cases, get_elem?,
}
use os_sski.Wire.Instruction.{Instruction}
use os_sski.Wire.Pcb.{Pcb, PcbStatus}
use os_sski.Cpu.Tlb.{tlb_reset, tlb_init}
use os_sski.Cpu.Mmu.{MemoryModule}
use os_sski.Cpu.Cycle.{
  Cpu, advanced, receive_pcb, return_pcb, cycle, interrupted, instruction_fetch, execute_fetched,
  fetch_and_execute, instruction_execute, decode, fetch_operands_of,
}

module _ {S : Type 0} (memory : MemoryModule S) where
  fetch_some :
      (cpu : Cpu) (pcb : Pcb) (i : Instruction) (s : S)
      → get_elem? pcb.instructions pcb.pc ≡ some i
      → fetch_and_execute memory cpu pcb s ≡ execute_fetched memory pcb.pc i cpu (advanced pcb) s
  unfolding instruction_fetch fetch_and_execute
  fetch_some cpu pcb i s there = rw (there, fetch_and_execute)

  fetch_none :
      (cpu : Cpu) (pcb : Pcb) (s : S)
      → get_elem? pcb.instructions pcb.pc ≡ none
      → fetch_and_execute memory cpu pcb s ≡ some (record cpu { pcb = some (advanced pcb) }, s)
  unfolding instruction_fetch fetch_and_execute
  fetch_none cpu pcb s gone = rw (gone, fetch_and_execute)

  cycle_calm :
      (cpu : Cpu) (pcb : Pcb) (s : S)
      → cpu.pcb ≡ some pcb
      → cpu.has_interruption ≡ false
      → cycle memory cpu s ≡ fetch_and_execute memory cpu pcb s
  unfolding cycle
  cycle_calm cpu pcb s here calm = simp (here, calm, cycle)

  pub cycle_fetched :
      (cpu : Cpu) (pcb : Pcb) (i : Instruction) (s : S)
      → cpu.pcb ≡ some pcb
      → cpu.has_interruption ≡ false
      → get_elem? pcb.instructions pcb.pc ≡ some i
      → cycle memory cpu s ≡ execute_fetched memory pcb.pc i cpu (advanced pcb) s
  cycle_fetched cpu pcb i s here calm there = cycle_calm cpu pcb s here calm ∙ fetched
    where
      fetched :
          fetch_and_execute memory cpu pcb s ≡ execute_fetched memory pcb.pc i cpu (advanced pcb) s
      fetched = fetch_some cpu pcb i s there

  -- Past the end of the program the cycle only moves the program counter.
  pub cycle_past_end :
      (cpu : Cpu) (pcb : Pcb) (s : S)
      → cpu.pcb ≡ some pcb
      → cpu.has_interruption ≡ false
      → get_elem? pcb.instructions pcb.pc ≡ none
      → cycle memory cpu s ≡ some (record cpu { pcb = some (advanced pcb) }, s)
  cycle_past_end cpu pcb s here calm gone =
      cycle_calm cpu pcb s here calm ∙ fetch_none cpu pcb s gone

  -- With a connected client, an interruption is served before the next instruction: the process goes
  -- back to the kernel ready and otherwise as it was, with no I/O time; the flag is cleared, the TLB
  -- made anew, the CPU signalled free, and the memory module is not asked for anything.
  pub cycle_interrupted :
      (cpu : Cpu) (pcb : Pcb) (s : S)
      → cpu.pcb ≡ some pcb
      → cpu.has_interruption ≡ true
      → cpu.client ≡ true
      → (cpu' : Cpu) × (cycle memory cpu s ≡ some (cpu', s))
        × (cpu'.pcb ≡ none)
        × (cpu'.has_interruption ≡ false)
        × (cpu'.returned ≡ (record pcb { status = PcbStatus.pcb_ready }, 0) ∷ cpu.returned)
        × (cpu'.tlb ≡ tlb_init cpu.entradas_tlb cpu.reemplazo_tlb cpu.tlb.next)
        × (cpu'.cpu_in_use ≡ cpu.cpu_in_use + 1)
  unfolding cycle tlb_reset tlb_init
  cycle_interrupted cpu pcb s here int client =
      (interrupted cpu pcb, rw (here, int, cycle), rw client, refl, rw client, rw client, rw client)

abbrev pub occupied : Option Pcb → ℕ
occupied none = 0
occupied (some pcb) = 1

-- The semaphore `cpu_in_use` is up exactly when no process is held.
abbrev pub IsExclusive : Cpu → Type 0
IsExclusive cpu = cpu.cpu_in_use + occupied cpu.pcb ≡ 1

-- Where the CPU's semaphore is up exactly when no process is held, a process is taken exactly when
-- none is held, and it is so afterwards.
receive_pcb-IsExclusive :
    (cpu : Cpu) (pcb : Pcb)
    → IsExclusive cpu
    → ((cpu.pcb ≢ none) → receive_pcb cpu pcb ≡ none)
      × ((cpu.pcb ≡ none)
          → (cpu' : Cpu) × (receive_pcb cpu pcb ≡ some cpu')
            × (cpu'.pcb ≡ some pcb)
            × IsExclusive cpu')
unfolding receive_pcb
receive_pcb-IsExclusive cpu pcb ex = (
  λ held. ground arith,
  λ empty. (
    record cpu { cpu_in_use = 0; pcb = some pcb; pcb_received = cpu.pcb_received + 1 },
    ground arith,
    refl,
    ground arith,
  ),
)

return_pcb-IsExclusive :
    (cpu : Cpu) (pcb : Pcb) (time : ℕ) → cpu.cpu_in_use ≡ 0 → IsExclusive (return_pcb cpu pcb time)
unfolding return_pcb
return_pcb-IsExclusive cpu pcb time e = ground arith

interrupted-IsExclusive :
    (cpu : Cpu) (pcb : Pcb) → cpu.cpu_in_use ≡ 0 → IsExclusive (interrupted cpu pcb)
unfolding interrupted
interrupted-IsExclusive cpu pcb e = ground arith

module _ {S : Type 0} (memory : MemoryModule S) where
  execute-IsExclusive :
      (i : Instruction) (cpu : Cpu) (pcb : Pcb) (s : S) (r : Cpu × S)
      → cpu.cpu_in_use ≡ 0
      → instruction_execute memory i cpu pcb s ≡ some r
      → IsExclusive r.0
  unfolding instruction_execute
  execute-IsExclusive i cpu pcb s r e h = ground arith

  fetch_operands-in_use :
      (at : ℕ) (i : Instruction) (cpu : Cpu) (pcb : Pcb) (s : S) (r : Instruction × Cpu × Pcb × S)
      → fetch_operands_of memory at i cpu pcb s ≡ some r
      → r.1.cpu_in_use ≡ cpu.cpu_in_use
  unfolding fetch_operands_of
  fetch_operands-in_use at i cpu pcb s r h = ground arith

  execute_plain :
      (at : ℕ) (i : Instruction) (cpu : Cpu) (pcb : Pcb) (s : S)
      → decode i ≡ false
      → execute_fetched memory at i cpu pcb s ≡ instruction_execute memory i cpu pcb s
  unfolding execute_fetched
  execute_plain at i cpu pcb s plain = ground arith

  execute_fetched-IsExclusive :
      (at : ℕ) (i : Instruction) (cpu : Cpu) (pcb : Pcb) (s : S) (r : Cpu × S)
      → cpu.cpu_in_use ≡ 0
      → execute_fetched memory at i cpu pcb s ≡ some r
      → IsExclusive r.0
  unfolding execute_fetched
  execute_fetched-IsExclusive at i cpu pcb s r e h = elim (Bool-cases (decode i)) [
    | inl copies ↦
        let (f, fetched, done) =
          >>=-eq-some (fetch_operands_of memory at i cpu pcb s) _
            (rw (copies, execute_fetched) at h) in
        execute-IsExclusive f.0 f.1 f.2 f.3 r (fetch_operands-in_use at i cpu pcb s f fetched ∙ e)
          done
    | inr plain ↦ execute-IsExclusive i cpu pcb s r e (sym (execute_plain at i cpu pcb s plain) ∙ h)
  ]

  calm-IsExclusive :
      (cpu : Cpu) (pcb : Pcb) (s : S) (r : Cpu × S)
      → cpu.cpu_in_use ≡ 0
      → fetch_and_execute memory cpu pcb s ≡ some r
      → IsExclusive r.0
  unfolding fetch_and_execute
  calm-IsExclusive cpu pcb s r e h = elim (Option-cases (get_elem? pcb.instructions pcb.pc)) [
    | inl gone ↦
        let same : record cpu { pcb = some (advanced pcb) } ≡ r.0 =
          ground (arith, fetch_none memory cpu pcb s gone) in
        ground arith
    | inr (i, there) ↦
        execute_fetched-IsExclusive pcb.pc i cpu (advanced pcb) s r e
          (sym (fetch_some memory cpu pcb i s there) ∙ h)
  ]

  cycle-split :
      (cpu : Cpu) (s : S) (r : Cpu × S)
      → IsExclusive cpu
      → cycle memory cpu s ≡ some r
      → (held : Option Pcb) → cpu.pcb ≡ held
      → (int : Bool) → cpu.has_interruption ≡ int
      → IsExclusive r.0
  unfolding cycle
  cycle-split cpu s r ex h none here int e = absurd (ground arith)
  cycle-split cpu s r ex h (some pcb) here true e =
      let free : cpu.cpu_in_use ≡ 0 = ground arith in
      let same : interrupted cpu pcb ≡ r.0 = ground arith in
      rw (← same) (interrupted-IsExclusive cpu pcb free)
  cycle-split cpu s r ex h (some pcb) here false e =
      let free : cpu.cpu_in_use ≡ 0 = ground arith in
      calm-IsExclusive cpu pcb s r free (sym (cycle_calm memory cpu pcb s here e) ∙ h)

  -- If the CPU's semaphore is up exactly when no process is held, it is so after a cycle.
  pub cycle-IsExclusive :
      (cpu cpu' : Cpu) (s s' : S)
      → IsExclusive cpu
      → cycle memory cpu s ≡ some (cpu', s')
      → IsExclusive cpu'
  cycle-IsExclusive cpu cpu' s s' ex h =
      cycle-split cpu s (cpu', s') ex h cpu.pcb refl cpu.has_interruption refl
