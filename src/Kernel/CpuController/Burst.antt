-- ===== src/Kernel/CpuController/Burst.antt =====
-- A whole burst: the kernel sends a process, the CPU runs it to its EXIT, and the kernel gets it back.
use os_sski.Common.{
  ℕ, zero, suc, ◌+◌, ◌*◌, ◌<◌, ◌≡◌, refl, sym, ◌∙◌, ap, true, false, none, some, List, [], ◌∷◌,
  ◌++◌, arith, u32_mod, append-nil, length, length-append, get_elem?, ◌==◌,
}
use os_sski.Wire.Word.{Bytes, put_u32, length-put_u32}
use os_sski.Wire.Opcode.{op_pcb, op_inout}
use os_sski.Wire.Instruction.{Instruction, IsInstruction, AllInstructions, c_request_exit}
use os_sski.Wire.Package.{
  Package, package_serialize, enviar_stream, conexion_recibir_stream,
  conexion_recibir_stream-serialize,
}
use os_sski.Wire.Pcb.{
  Pcb, PcbStatus, IsPcb, Heap, status_code, status_of_code, pcb_to_stream, pcb_bytes_size,
}
use os_sski.Wire.Pcb.Stream.{recovered}
use os_sski.Wire.Pcb.Sizes.{
  return_stream, receive_pcb_stream, receive_pcb_stream-return, length-pcb_to_stream,
}
use os_sski.Cpu.Mmu.{MemoryModule}
use os_sski.Cpu.Cycle.{Cpu, run}
use os_sski.Cpu.Cycle.Hand.{IsExclusive}
use os_sski.Cpu.Cycle.Program.{LocalFrom, run-exit}
use os_sski.Cpu.Server.{Handled, request_handler, return_message}
use os_sski.Kernel.CpuController.{cpu_controller_send_pcb, cpu_controller_receive_pcb}
use os_sski.Kernel.CpuController.Trip.{holding, request_handler-send}

-- A stream has the low half of the size alone.
put_u32_wrap : (n k : ℕ) → put_u32 (n + u32_mod * k) ≡ put_u32 n
unfolding put_u32
put_u32_wrap n k = ground arith

pcb_to_stream-recovered :
    (heap : Heap) (p : Pcb) → pcb_to_stream (recovered heap p) ≡ pcb_to_stream p
unfolding pcb_to_stream
pcb_to_stream-recovered heap p = rw (put_u32_wrap p.size heap.size_high) refl

AllInstructions-get :
    (is : List Instruction) (k : ℕ) (i : Instruction)
    → AllInstructions is
    → get_elem? is k ≡ some i
    → IsInstruction i
AllInstructions-get [] k i all h = absurd (ground arith)
AllInstructions-get (j ∷ is) zero i all h = let same : j ≡ i = ground arith in rw (← same) all.0
AllInstructions-get (j ∷ is) (suc k) i all h = AllInstructions-get is k i all.1 h

length-return_stream : (p : Pcb) (time : ℕ) → length (return_stream p time) ≡ pcb_bytes_size p + 4
unfolding return_stream
length-return_stream p time = omega (
  arith,
  length-append (pcb_to_stream p) (put_u32 time),
  length-put_u32 time,
  length-pcb_to_stream p,
)

receive_pcb-got :
    (heap : Heap) (socket stream rest : Bytes) (r : Pcb × ℕ)
    → conexion_recibir_stream socket ≡ some (some stream, rest)
    → receive_pcb_stream heap stream ≡ some r
    → cpu_controller_receive_pcb heap socket ≡ some (r, rest)
unfolding cpu_controller_receive_pcb
receive_pcb-got heap socket stream rest r got read = rw (got, read, cpu_controller_receive_pcb)

-- The kernel's side of a return.
pub receive_pcb-return_message :
    (heap : Heap) (p : Pcb) (time : ℕ) (rest : Bytes)
    → IsPcb p
    → time < u32_mod
    → pcb_bytes_size p + 4 < u32_mod
    → cpu_controller_receive_pcb heap (return_message p time ++ rest)
      ≡ some ((recovered heap p, time), rest)
unfolding return_message enviar_stream
receive_pcb-return_message heap p time rest w small fits =
    let long = length-return_stream p time in
    let body = return_stream p time in
    let filled : (length body == 0) ≡ false = ground (arith, long) in
    let message : Package = record { opcode = op_inout; stream = body } in
    let got : conexion_recibir_stream (package_serialize message ++ rest) ≡ some (some body, rest) =
      conexion_recibir_stream-serialize message rest (omega arith, omega (arith, long))
      ∙ rw filled refl in
    receive_pcb-got heap _ body rest (recovered heap p, time) got
      (ap (receive_pcb_stream heap) (sym (append-nil body))
        ∙ receive_pcb_stream-return heap p time [] w small)

-- The process behind a burst that ends at `pc`.
abbrev pub ended : Pcb → ℕ → Pcb
ended p pc = record p { status = PcbStatus.pcb_terminated; pc = pc }

ended-IsPcb : (p : Pcb) (pc : ℕ) → IsPcb p → pc < u32_mod → IsPcb (ended p pc)
unfolding status_code status_of_code
ended-IsPcb p pc w small = record {
  id_small = w.id_small;
  status_fits = (omega arith, refl);
  size_small = w.size_small;
  estimation_small = w.estimation_small;
  pc_small = small;
  page_table_small = w.page_table_small;
  count_small = w.count_small;
  instructions_fit = w.instructions_fit;
}

-- The CPU's block has the upper half of a size that its `malloc` left; the message does not.
return_message-recovered :
    (heap : Heap) (p : Pcb) (pc time : ℕ)
    → return_message (ended (recovered heap p) pc) time ≡ return_message (ended p pc) time
unfolding return_message return_stream
return_message-recovered heap p pc time =
    let same : pcb_to_stream (ended (recovered heap p) pc) ≡ pcb_to_stream (ended p pc) =
      pcb_to_stream-recovered heap (ended p pc) in
    rw same refl

-- Whole bursts, over both connections: an idle CPU without an interruption, connected to the kernel,
-- is sent a process whose fields are words, whose streams fit and whose program has, from its program
-- counter on, `n` local instructions and an EXIT. The CPU takes it, and within any number of cycles
-- above `n` it holds no process any more and has returned one, and from that one's message the kernel
-- recovers the process it sent, terminated, its program counter behind the EXIT, with the EXIT's first
-- operand as the time. The fields that no stream has are the kernel's block's; the CPU's blocks
-- leave no trace. Neither connection loses what follows.
pub receive_pcb-run_exit :
    {S : Type 0} (memory : MemoryModule S) (theirs ours : Heap) (n fuel : ℕ) (cpu : Cpu) (p : Pcb)
    (e : Instruction) (s : S) (rest more : Bytes)
    → n < fuel
    → IsExclusive cpu
    → cpu.pcb ≡ none
    → cpu.has_interruption ≡ false
    → cpu.client ≡ true
    → IsPcb p
    → pcb_bytes_size p + 4 < u32_mod
    → LocalFrom p.instructions p.pc n
    → get_elem? p.instructions (p.pc + n) ≡ some e
    → e.icode ≡ c_request_exit
    → p.pc + n + 1 < u32_mod
    → (taken done : Cpu) × (returned : Pcb) × (request_handler theirs cpu
          (cpu_controller_send_pcb op_pcb p ++ rest)
        ≡ Handled.served taken rest)
      × (run memory fuel taken s ≡ some (done, s))
      × (done.pcb ≡ none)
      × (done.returned ≡ (returned, e.param0) ∷ cpu.returned)
      × (cpu_controller_receive_pcb ours (return_message returned e.param0 ++ more)
          ≡ some ((recovered ours (ended p (p.pc + n + 1)), e.param0), more))
unfolding pcb_bytes_size
receive_pcb-run_exit memory theirs ours n fuel cpu p e s rest more enough ex empty calm client w
      fits locals there ends small =
    let q = recovered theirs p in
    let sent = (request_handler-send theirs cpu p rest w (omega arith) ex).0 empty in
    let (done, ran, gone, back) =
      run-exit memory n fuel (holding cpu q) q e s enough refl calm client locals there ends
        small in
    let word =
      (AllInstructions-get p.instructions (p.pc + n) e w.instructions_fit there).param0_small in
    (
      holding cpu q,
      done,
      ended q (p.pc + n + 1),
      sent,
      ran,
      gone,
      back,
      rw (return_message-recovered theirs p (p.pc + n + 1) e.param0) (
          receive_pcb-return_message ours (ended p (p.pc + n + 1)) e.param0 more
            (ended-IsPcb p (p.pc + n + 1) w small) word fits),
    )
