-- ===== src/Memory/Link/Process.antt =====
-- A process that the kernel admits and ends, with the memory module at the other end of the link.
use os_sski.Common.{
  ℕ, suc, ◌<◌, ◌≤◌, ◌≡◌, refl, ap, ◌∙◌, false, Option, none, some, List, [], ◌∷◌, ◌++◌, arith,
  u32_mod, length, append-nil, ◌==◌, if◌then◌else◌,
}
use os_sski.Wire.Word.{Bytes, put_u32}
use os_sski.Wire.Opcode.{op_memory_init, op_process_terminated}
use os_sski.Wire.Operands.{
  Operands, operandos_to_stream, operandos_from_stream, operandos_from-to_stream,
}
use os_sski.Wire.Pcb.{Pcb, PcbStatus, Heap}
use os_sski.Kernel.Queue.{safe_queue_pop}
use os_sski.Kernel.Threads.{KernelState, Message, Outcome, send}
use os_sski.Kernel.Threads.Mts.{resume}
use os_sski.Kernel.Threads.Lts.{MemoryLink, request_page_table, candidate, make_ready, admit}
use os_sski.Kernel.Threads.Admission.{make_ready-ready}
use os_sski.Kernel.Client.{page_table_request, receive_page_table, swap_controller_exit}
use os_sski.Memory.Server.{Settings, Server}
use os_sski.Memory.Swap.{get_swap_data_for_pcb, new_swap_data}
use os_sski.Memory.KernelController.{
  memory_init, kernel_controller_memory_init, kernel_controller_destroy_process_file,
}
use os_sski.Memory.KernelController.Printable.{Printable}
use os_sski.Memory.KernelController.Life.{vacated, destroy_process_file-memory_init}
use os_sski.Memory.Routine.{answer, handle, takes_stream}
use os_sski.Memory.Link.{exchange, exchange-handle}
use os_sski.Memory.Link.Walk.{received-operands, length-operands}
use os_sski.Memory.Link.Word.{receive-answer}

module _ (heap : Heap) (c : Settings) where
  exchange-page_table_request :
      (s s' : Server) (pcb : Pcb) (id : ℕ)
      → pcb.id < u32_mod
      → pcb.size < u32_mod
      → memory_init c s pcb.id pcb.size ≡ some (id, s')
      → exchange heap c (some s) (page_table_request pcb) ≡ (answer op_memory_init id, some s')
  unfolding page_table_request handle kernel_controller_memory_init takes_stream
  exchange-page_table_request s s' pcb id id_small size_small made =
      let o : Operands = record { op1 = pcb.id; op2 = pcb.size } in
      let whole : operandos_from_stream (operandos_to_stream o) ≡ some o =
        rw (append-nil (operandos_to_stream o)) at (
          operandos_from-to_stream o []
            (record { op1_small = id_small; op2_small = size_small })) in
      let done : handle heap c s op_memory_init (some (operandos_to_stream o))
          ≡ some (answer op_memory_init id, s') =
        rw (received-operands o, whole, made) in
      exchange-handle heap c s s' op_memory_init (operandos_to_stream o) (answer op_memory_init id)
        refl (λ e. absurd (omega (arith, e))) (omega arith) (omega (arith, length-operands o)) done

  exchange-exit :
      (s s' : Server) (pcb : Pcb)
      → kernel_controller_destroy_process_file s (put_u32 pcb.id ++ put_u32 pcb.page_table)
        ≡ some s'
      → exchange heap c (some s) (swap_controller_exit pcb) ≡ ([], some s')
  unfolding swap_controller_exit handle takes_stream put_u32
  exchange-exit s s' pcb ended =
      let stream = put_u32 pcb.id ++ put_u32 pcb.page_table in
      let done : handle heap c s op_process_terminated (some stream) ≡ some ([], s') = rw ended in
      exchange-handle heap c s s' op_process_terminated stream [] refl
        (λ e. absurd (omega (arith, e))) (omega arith) (omega arith) done

receive_page_table-answer :
    (id : ℕ)
    → id < u32_mod
    → receive_page_table (answer op_memory_init id) ≡ MemoryLink.page_table id
unfolding receive_page_table
receive_page_table-answer id small =
    ap
      (λ (o : Option ℕ). elim o as (λ _. MemoryLink) [
        | none ↦ MemoryLink.no_answer
        | some page_table ↦ MemoryLink.page_table page_table
      ])
      (receive-answer op_memory_init id (omega arith) small)

abbrev pub admitted_as : Pcb → ℕ → Pcb
admitted_as pcb id = record pcb { page_table = id; status = PcbStatus.pcb_ready }

-- The kernel's state when the first process of the new queue has been asked for.
abbrev asking : KernelState → ℕ → Pcb → List Pcb → KernelState
asking k n pcb rest =
    send
      (record k {
        scheduler = record k.scheduler { dom = n; ready_sus = []; new = rest };
        held = false;
      })
      (Message.memory_init pcb.id pcb.size)

candidate-new :
    (k : KernelState) (n id : ℕ) (pcb : Pcb) (rest : List Pcb)
    → candidate
        (record k {
          scheduler = record k.scheduler { dom = n; ready_sus = []; new = pcb ∷ rest };
          held = false;
        })
        (MemoryLink.page_table id)
      ≡ some (some (record pcb { page_table = id }), asking k n pcb rest)
unfolding candidate resume request_page_table safe_queue_pop
candidate-new k n id pcb rest = refl

-- The kernel's side: a new process at the head of the queue, and nothing suspended to resume.
admit-new :
    (k : KernelState) (n id : ℕ) (pcb : Pcb) (rest : List Pcb)
    → k.scheduler.dom ≡ suc n
    → k.scheduler.ready_sus ≡ []
    → k.scheduler.new ≡ pcb ∷ rest
    → (k' : KernelState) × (admit k (MemoryLink.page_table id) ≡ Outcome.done k')
      × (k'.scheduler.ready ≡ k.scheduler.ready ++ admitted_as pcb id ∷ [])
      × (k'.scheduler.dom ≡ n)
unfolding admit send
admit-new k n id pcb rest slot none_suspended head =
    let taken = record pcb { page_table = id } in
    let (ready, dom) = make_ready-ready (asking k n pcb rest) taken in
    let found : candidate (record k { scheduler = record k.scheduler { dom = n }; held = false })
          (MemoryLink.page_table id)
        ≡ some (some taken, asking k n pcb rest) =
      ap
        (λ (q : List Pcb × List Pcb).
          candidate
            (record k {
              scheduler = record k.scheduler { dom = n; ready_sus = q.0; new = q.1 };
              held = false;
            })
            (MemoryLink.page_table id))
        (ap2 none_suspended head)
      ∙ candidate-new k n id pcb rest in
    (make_ready (asking k n pcb rest) (some taken), simp (slot, found, admit), ready, dom)
  where
    ap2 : {q q' r r' : List Pcb} → q ≡ q' → r ≡ r' → ◌≡◌ {A = List Pcb × List Pcb} (q, r) (q', r')
    ap2 e f = rw (e, f)

module _ (heap : Heap) (c : Settings) (s : Server) (k : KernelState) (pcb : Pcb) where
  -- A new process at the head of the kernel's queue, with a free slot and nothing suspended, of at least
  -- four bytes, its numbers being words, that the memory module does not know, all of whose tables can be
  -- printed: the kernel's request reaches the memory module, whose answer lets the kernel put the process
  -- at the end of the ready queue with its new page table; when the kernel then reports its end before a
  -- page was touched, the memory module has the swap data, the frames and the main memory it had, the
  -- process's file is gone, other files are as before, and only null slots are left behind.
  pub exchange-admit :
      (n : ℕ) (rest : List Pcb)
      → k.scheduler.dom ≡ suc n
      → k.scheduler.ready_sus ≡ []
      → k.scheduler.new ≡ pcb ∷ rest
      → 4 ≤ pcb.size
      → pcb.size < u32_mod
      → pcb.id < u32_mod
      → length s.memory.tables_lvl_1 < u32_mod
      → get_swap_data_for_pcb s.swap_data pcb.id ≡ none
      → Printable s.memory.tables_lvl_2 s.memory.tables_lvl_1
      → (answers : Bytes) × (id : ℕ) × (s' s'' : Server) × (k' : KernelState) × (exchange heap c
            (some s)
            (page_table_request pcb)
          ≡ (answers, some s'))
        × (admit k (receive_page_table answers) ≡ Outcome.done k')
        × (k'.scheduler.ready ≡ k.scheduler.ready ++ admitted_as pcb id ∷ [])
        × (get_swap_data_for_pcb s'.swap_data pcb.id ≡ some (new_swap_data pcb.id pcb.size))
        × (exchange heap c (some s') (swap_controller_exit (admitted_as pcb id)) ≡ ([], some s''))
        × (s''.swap_data ≡ s.swap_data)
        × (s''.memory ≡ vacated s.memory)
        × (s''.main_memory ≡ s.main_memory)
        × ((p : ℕ) → s''.files p ≡ (if p == pcb.id then none else s.files p))
  exchange-admit n rest slot none_suspended head big size_small id_small few new printable =
      let (id, small, s', s'', made, info, ended, data_back, vacant, main_back, files, _) =
        destroy_process_file-memory_init c s pcb.id pcb.size big id_small few new printable in
      let (k', admitted, ready, _) = admit-new k n id pcb rest slot none_suspended head in
      (
        answer op_memory_init id,
        id,
        s',
        s'',
        k',
        exchange-page_table_request heap c s s' pcb id id_small size_small made,
        rw (receive_page_table-answer id small) admitted,
        ready,
        info,
        exchange-exit heap c s' s'' (admitted_as pcb id) ended,
        data_back,
        vacant,
        main_back,
        files,
      )
