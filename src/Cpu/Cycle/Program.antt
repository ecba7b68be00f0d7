-- ===== src/Cpu/Cycle/Program.antt =====
-- Whole bursts: a program that computes and exits, and one that has no end.
use os_sski.Common.{
  ℕ, zero, suc, ◌+◌, ◌<◌, ◌≤◌, ◌≡◌, refl, ap, ◌∙◌, ◌⊎◌, true, false, Option, none, some, List, [],
  ◌∷◌, arith, u32_mod, length, get_elem?,
}
use os_sski.Wire.Instruction.{Instruction, c_request_exit, c_request_no_op}
use os_sski.Wire.Pcb.{Pcb, PcbStatus}
use os_sski.Cpu.Mmu.{MemoryModule}
use os_sski.Cpu.Cycle.{Cpu, advanced, cycle, run, execute_fetched, execute_exit}
use os_sski.Cpu.Cycle.Hand.{cycle_fetched, cycle_past_end}

-- NO_OP, and the codes that the interpreter does not know.
abbrev pub IsLocal : Instruction → Type 0
IsLocal i = (i.icode ≡ c_request_no_op) ⊎ (5 < i.icode)

-- From `pc` on stand `n` local instructions.
abbrev pub LocalFrom : List Instruction → ℕ → ℕ → Type 0
LocalFrom is pc zero = Unit
LocalFrom is pc (suc n) =
    ((i : Instruction) × (get_elem? is pc ≡ some i) × IsLocal i) × LocalFrom is (pc + 1) n

abbrev pub at_pc : Pcb → ℕ → Pcb
at_pc pcb pc = record pcb { pc = pc }

get_elem?_past {ℓ} : {A : Type ℓ} (xs : List A) (i : ℕ) → length xs ≤ i → get_elem? xs i ≡ none
get_elem?_past [] i h = refl
get_elem?_past (x ∷ xs) zero h = absurd (omega arith)
get_elem?_past (x ∷ xs) (suc i) h = get_elem?_past xs i (omega arith)

module _ {S : Type 0} (memory : MemoryModule S) where
  pub run_step :
      (fuel : ℕ) (cpu cpu' : Cpu) (pcb : Pcb) (s s' : S)
      → cpu.pcb ≡ some pcb
      → cycle memory cpu s ≡ some (cpu', s')
      → run memory (suc fuel) cpu s ≡ run memory fuel cpu' s'
  unfolding run
  run_step fuel cpu cpu' pcb s s' here step = simp (here, step, run)

  pub run_done :
      (fuel : ℕ) (cpu : Cpu) (s : S) → cpu.pcb ≡ none → run memory fuel cpu s ≡ some (cpu, s)
  unfolding run
  run_done zero cpu s gone = refl
  run_done (suc fuel) cpu s gone = simp (gone, run)

  run-zero :
      (cpu : Cpu) (pcb : Pcb) (s : S)
      → cpu.pcb ≡ some pcb
      → run memory zero cpu s ≡ some (record cpu { pcb = some (at_pc pcb (pcb.pc + 0)) }, s)
  unfolding run
  run-zero cpu pcb s here =
      ap (λ (o : Option Pcb). some (record cpu { pcb = o }, s))
        (here ∙ ap (λ (pc : ℕ). some (at_pc pcb pc)) (omega arith))

  local_step :
      (at : ℕ) (i : Instruction) (cpu : Cpu) (pcb : Pcb) (s : S)
      → IsLocal i
      → execute_fetched memory at i cpu pcb s ≡ some (record cpu { pcb = some pcb }, s)
  unfolding execute_fetched
  local_step at i cpu pcb s l = ground arith

  exit_step :
      (at : ℕ) (i : Instruction) (cpu : Cpu) (pcb : Pcb) (s : S)
      → i.icode ≡ c_request_exit
      → execute_fetched memory at i cpu pcb s ≡ some (execute_exit i cpu pcb, s)
  unfolding execute_fetched
  exit_step at i cpu pcb s e = ground arith

  advanced_at : (pcb : Pcb) → pcb.pc + 1 < u32_mod → advanced pcb ≡ at_pc pcb (pcb.pc + 1)
  advanced_at pcb small = ap (at_pc pcb) (omega arith)

  exit_gone :
      (cpu : Cpu) (pcb : Pcb) (e : Instruction)
      → cpu.client ≡ true
      → ((execute_exit e cpu pcb).pcb ≡ none)
        × ((execute_exit e cpu pcb).returned
            ≡ (record pcb { status = PcbStatus.pcb_terminated }, e.param0) ∷ cpu.returned)
  unfolding execute_exit
  exit_gone cpu pcb e client = (rw client, rw client)

  exit_cycle :
      (cpu : Cpu) (pcb : Pcb) (e : Instruction) (s : S)
      → cpu.pcb ≡ some pcb
      → cpu.has_interruption ≡ false
      → get_elem? pcb.instructions pcb.pc ≡ some e
      → e.icode ≡ c_request_exit
      → pcb.pc + 1 < u32_mod
      → cycle memory cpu s ≡ some (execute_exit e cpu (at_pc pcb (pcb.pc + 1)), s)
  exit_cycle cpu pcb e s here calm there ends small =
      cycle_fetched memory cpu pcb e s here calm there
      ∙ exit_step pcb.pc e cpu (advanced pcb) s ends
      ∙ ap (λ (p : Pcb). some (execute_exit e cpu p, s)) (advanced_at pcb small)

  local_cycle :
      (cpu : Cpu) (pcb : Pcb) (i : Instruction) (s : S)
      → cpu.pcb ≡ some pcb
      → cpu.has_interruption ≡ false
      → get_elem? pcb.instructions pcb.pc ≡ some i
      → IsLocal i
      → pcb.pc + 1 < u32_mod
      → cycle memory cpu s ≡ some (record cpu { pcb = some (at_pc pcb (pcb.pc + 1)) }, s)
  local_cycle cpu pcb i s here calm there l small =
      cycle_fetched memory cpu pcb i s here calm there
      ∙ local_step pcb.pc i cpu (advanced pcb) s l
      ∙ ap (λ (p : Pcb). some (record cpu { pcb = some p }, s)) (advanced_at pcb small)

  -- With a connected client, a process that is not interrupted and whose program is `n` local
  -- instructions and an EXIT is given back within any number of cycles above `n`, terminated, its
  -- program counter behind the EXIT (which does not wrap), with the EXIT's first operand as the
  -- time; the memory module is not used.
  pub run-exit :
      (n fuel : ℕ) (cpu : Cpu) (pcb : Pcb) (e : Instruction) (s : S)
      → n < fuel
      → cpu.pcb ≡ some pcb
      → cpu.has_interruption ≡ false
      → cpu.client ≡ true
      → LocalFrom pcb.instructions pcb.pc n
      → get_elem? pcb.instructions (pcb.pc + n) ≡ some e
      → e.icode ≡ c_request_exit
      → pcb.pc + n + 1 < u32_mod
      → (cpu' : Cpu) × (run memory fuel cpu s ≡ some (cpu', s))
        × (cpu'.pcb ≡ none)
        × (cpu'.returned
            ≡ (record pcb { status = PcbStatus.pcb_terminated; pc = pcb.pc + n + 1 }, e.param0)
              ∷ cpu.returned)
  run-exit n zero cpu pcb e s enough here calm client locals there ends small = absurd (omega arith)
  run-exit zero (suc fuel) cpu pcb e s enough here calm client locals there ends small =
      let last = at_pc pcb (pcb.pc + 1) in
      let there' : get_elem? pcb.instructions pcb.pc ≡ some e =
        ap (get_elem? pcb.instructions) (omega arith) ∙ there in
      let step = exit_cycle cpu pcb e s here calm there' ends (omega arith) in
      let (gone, back) = exit_gone cpu last e client in
      (
        execute_exit e cpu last,
        run_step fuel cpu _ pcb s s here step ∙ run_done fuel _ s gone,
        gone,
        back
            ∙ ap
                (λ (pc : ℕ).
                  (record pcb { status = PcbStatus.pcb_terminated; pc = pc }, e.param0)
                  ∷ cpu.returned)
                (omega arith),
      )
  run-exit (suc n) (suc fuel) cpu pcb e s enough here calm client locals there ends small =
      let (i, first, l) = locals.0 in
      let step = local_cycle cpu pcb i s here calm first l (omega arith) in
      let next = at_pc pcb (pcb.pc + 1) in
      let there' : get_elem? pcb.instructions (pcb.pc + 1 + n) ≡ some e =
        ap (get_elem? pcb.instructions) (omega arith) ∙ there in
      let (cpu', done, gone, back) =
        run-exit n fuel (record cpu { pcb = some next }) next e s (omega arith) refl calm client
          locals.1 there' ends (omega arith) in
      (
        cpu',
        run_step fuel cpu _ pcb s s here step ∙ done,
        gone,
        back
            ∙ ap
                (λ (pc : ℕ).
                  (record pcb { status = PcbStatus.pcb_terminated; pc = pc }, e.param0)
                  ∷ cpu.returned)
                (omega arith),
      )

  -- A process whose program counter has passed the end of its program is not given back: without an
  -- interruption, and as long as the counter does not wrap, any number of cycles only counts on.
  pub run_past_end :
      (fuel : ℕ) (cpu : Cpu) (pcb : Pcb) (s : S)
      → cpu.pcb ≡ some pcb
      → cpu.has_interruption ≡ false
      → length pcb.instructions ≤ pcb.pc
      → pcb.pc + fuel < u32_mod
      → run memory fuel cpu s ≡ some (record cpu { pcb = some (at_pc pcb (pcb.pc + fuel)) }, s)
  run_past_end zero cpu pcb s here calm past small = run-zero cpu pcb s here
  run_past_end (suc fuel) cpu pcb s here calm past small =
      let next = at_pc pcb (pcb.pc + 1) in
      let gone = get_elem?_past pcb.instructions pcb.pc past in
      let step =
        cycle_past_end memory cpu pcb s here calm gone
        ∙ ap (λ (p : Pcb). some (record cpu { pcb = some p }, s)) (advanced_at pcb (omega arith)) in
      run_step fuel cpu _ pcb s s here step
      ∙ run_past_end fuel (record cpu { pcb = some next }) next s refl calm (omega arith)
          (omega arith)
      ∙ ap (λ (pc : ℕ). some (record cpu { pcb = some (at_pc pcb pc) }, s)) (omega arith)
