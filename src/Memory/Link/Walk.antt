-- ===== src/Memory/Link/Walk.antt =====
-- The CPU's walk over the page tables that the memory module keeps.
use os_sski.Common.{
  ℕ, ◌<◌, ◌≡◌, ◌≢◌, refl, sym, ap, ◌∙◌, inl, inr, true, false, Option, some, List, [], arith,
  u32_mod, append-nil, get_elem?, leb, ltb, length, Option-cases,
}
use os_sski.Wire.Word.{put_u32, get_u32, get_u32-put_u32_small}
use os_sski.Wire.Opcode.{op_frame, op_snd_page}
use os_sski.Wire.Operands.{
  Operands, IsWords, request_stream, operandos_to_stream, operandos_from_stream,
  operandos_from-to_stream,
}
use os_sski.Wire.Pcb.{Pcb, Heap}
use os_sski.Cpu.Tlb.{Tlb, pagina_vacia, page_in_tlb, replace}
use os_sski.Cpu.Tlb.Lookup.{frame_of}
use os_sski.Cpu.Tlb.Replace.{IsTlb}
use os_sski.Cpu.Mmu.{
  MemoryModule, Geometry, get_page_number, get_entry_lvl_1, get_entry_lvl_2, physical, walk,
  req_physical_address,
}
use os_sski.Cpu.Mmu.Walk.{Coherent, req_physical_address-Coherent}
use os_sski.Cpu.Client.{
  memory_client, request_table_2_entry, request_frame, connection_receive_value, or_invalid,
}
use os_sski.Memory.Table.{Row}
use os_sski.Memory.Process.{Memory, get_table}
use os_sski.Memory.Lookup.{big_rows, create_big_table}
use os_sski.Memory.Server.{Settings, Server}
use os_sski.Memory.Routine.{takes_stream, handle, handle_cpu, received}
use os_sski.Memory.CpuController.{
  cpu_controller_send_frame, cpu_controller_send_page_second_level, obtain_second_page,
  obtain_frame,
}
use os_sski.Memory.Link.{exchange, module_of, exchange-handle, length-request}

-- Page `i`, `j` of the process whose first-level table is `table` is present in `frame`.
pub record IsResident (m : Memory) (table i j frame : ℕ) : Type 0 where
  pub ids : List ℕ
  pub line : List Row
  pub rows : List Row
  pub second : ℕ
  pub page : Row
  pub table_there : get_table m.tables_lvl_1 table ≡ some ids
  pub tables_there : big_rows m.tables_lvl_2 ids ≡ some line
  pub second_listed : get_elem? ids i ≡ some second
  pub second_there : get_table m.tables_lvl_2 second ≡ some rows
  pub page_listed : get_elem? rows j ≡ some page
  pub page_present : page.present ≡ true
  pub page_frame : page.frame ≡ frame
  pub i_small : i < m.max_rows
  pub j_small : j < m.max_rows
  pub second_small : second < u32_mod
  pub frame_small : frame < u32_mod

obtain_second_page-resident :
    (m : Memory) (table i j frame : ℕ) (r : IsResident m table i j frame)
    → obtain_second_page m table i ≡ some r.second
unfolding obtain_second_page
obtain_second_page-resident m table i j frame r =
    ground (arith, r.table_there, r.second_listed, r.i_small)

obtain_frame-resident :
    (c : Settings) (s : Server) (table i j frame pid : ℕ) (r : IsResident s.memory table i j frame)
    → obtain_frame c s r.second j pid ≡ some (frame, s)
unfolding obtain_frame
obtain_frame-resident c s table i j frame pid r =
    let inside : ltb s.memory.max_rows j ≡ false = ground (arith, r.j_small) in
    rw (inside, r.second_there, r.page_listed, r.page_present, r.page_frame)

send_page-resident :
    (s : Server) (table i j frame : ℕ) (r : IsResident s.memory table i j frame)
    → IsWords (record { op1 = table; op2 = i })
    → cpu_controller_send_page_second_level s
        (some (operandos_to_stream (record { op1 = table; op2 = i })))
      ≡ some r.second
unfolding cpu_controller_send_page_second_level create_big_table
send_page-resident s table i j frame r w =
    let o : Operands = record { op1 = table; op2 = i } in
    let whole : operandos_from_stream (operandos_to_stream o) ≡ some o =
      rw (append-nil (operandos_to_stream o)) at (operandos_from-to_stream o [] w) in
    let inside : leb s.memory.max_rows i ≡ false = ground (arith, r.i_small) in
    rw (whole, r.table_there, r.tables_there, inside) (ground (arith, r.second_listed, r.i_small))

send_frame-request :
    (c : Settings) (s : Server) (pid : ℕ) (o : Operands)
    → pid < u32_mod
    → IsWords o
    → cpu_controller_send_frame c s (some (request_stream pid o)) ≡ obtain_frame c s o.op1 o.op2 pid
unfolding cpu_controller_send_frame request_stream
send_frame-request c s pid o small w =
    let whole : operandos_from_stream (operandos_to_stream o) ≡ some o =
      rw (append-nil (operandos_to_stream o)) at (operandos_from-to_stream o [] w) in
    rw (get_u32-put_u32_small pid (operandos_to_stream o) small, whole)

-- The answer of a word is received.
receive-put_u32 : (n : ℕ) → n < u32_mod → or_invalid (connection_receive_value (put_u32 n)) ≡ n
unfolding connection_receive_value or_invalid
receive-put_u32 n small =
    let read : get_u32 (put_u32 n) ≡ some (n, []) =
      rw (append-nil (put_u32 n)) at (get_u32-put_u32_small n [] small) in
    rw read

pub length-operands : (o : Operands) → length (operandos_to_stream o) ≡ 8
unfolding operandos_to_stream put_u32
length-operands o = refl

walk-answers :
    {S : Type 0} (memory : MemoryModule S) (g : Geometry) (pcb : Pcb) (address second frame : ℕ)
    (s s' s'' : S)
    → memory.request_table_2_entry s pcb.page_table
        (get_entry_lvl_1 (get_page_number address g.page_size) g.page_amount_entries)
      ≡ (second, s')
    → memory.request_frame s' pcb.id second
        (get_entry_lvl_2 address g.page_size g.page_amount_entries)
      ≡ (frame, s'')
    → walk memory g pcb address s ≡ (frame, s'')
unfolding walk
walk-answers memory g pcb address second frame s s' s'' first then_frame =
    rw (first, then_frame, walk)

-- A walk that leaves the module's state alone makes a translation that does.
translation_state :
    {S : Type 0} (memory : MemoryModule S) (g : Geometry) (pcb : Pcb) (address x : ℕ) (tlb u : Tlb)
    (s s' : S)
    → (walk memory g pcb address s).1 ≡ s
    → req_physical_address memory g pcb address tlb s ≡ some (x, u, s')
    → s' ≡ s
unfolding req_physical_address
translation_state memory g pcb address x tlb u s s' stays done =
    let page = get_page_number address g.page_size in
    elim (Option-cases (page_in_tlb tlb page).0) [
      | inl miss ↦
          elim (Option-cases
            (replace (page_in_tlb tlb page).1 page (walk memory g pcb address s).0)) [
              | inl failed ↦ absurd (ground (arith, miss, failed))
              | inr (v, ok) ↦ ground (arith, miss, ok, stays)
            ]
      | inr (f, hit) ↦ ground (arith, hit)
    ]

pub received-operands :
    (o : Operands) → received (some (operandos_to_stream o)) ≡ some (operandos_to_stream o)
unfolding received
received-operands o = rw (length-operands o)

received-request :
    (pid : ℕ) (o : Operands) → received (some (request_stream pid o)) ≡ some (request_stream pid o)
unfolding received
received-request pid o = rw (length-request pid o)

module _ (heap : Heap) (c : Settings) (s : Server) where
  handle-snd_page :
      (o : Operands) (id : ℕ)
      → cpu_controller_send_page_second_level s (some (operandos_to_stream o)) ≡ some id
      → handle heap c s op_snd_page (some (operandos_to_stream o)) ≡ some (put_u32 id, s)
  unfolding handle handle_cpu
  handle-snd_page o id done = rw (received-operands o, done)

  handle-frame :
      (pid frame : ℕ) (o : Operands) (s' : Server)
      → cpu_controller_send_frame c s (some (request_stream pid o)) ≡ some (frame, s')
      → handle heap c s op_frame (some (request_stream pid o)) ≡ some (put_u32 frame, s')
  unfolding handle handle_cpu
  handle-frame pid frame o s' done = rw (received-request pid o, done)

  pub request_table_2_entry-resident :
      (table i j frame : ℕ) (r : IsResident s.memory table i j frame)
      → IsWords (record { op1 = table; op2 = i })
      → request_table_2_entry (exchange heap c) (some s) table i ≡ (r.second, some s)
  unfolding request_table_2_entry takes_stream
  request_table_2_entry-resident table i j frame r w =
      let o : Operands = record { op1 = table; op2 = i } in
      rw (
        exchange-handle heap c s s op_snd_page (operandos_to_stream o) (put_u32 r.second) refl
            (λ e. absurd (omega (arith, e))) (omega arith) (omega (arith, length-operands o))
            (handle-snd_page o r.second (send_page-resident s table i j frame r w)),
        receive-put_u32 r.second r.second_small,
      )

  -- What the memory module answers to a frame request is what the CPU gets.
  pub request_frame-obtain_frame :
      (pid second j frame : ℕ) (s' : Server)
      → pid < u32_mod
      → IsWords (record { op1 = second; op2 = j })
      → frame < u32_mod
      → obtain_frame c s second j pid ≡ some (frame, s')
      → request_frame (exchange heap c) (some s) pid second j ≡ (frame, some s')
  unfolding request_frame takes_stream
  request_frame-obtain_frame pid second j frame s' small w fits done =
      let o : Operands = record { op1 = second; op2 = j } in
      rw (
        exchange-handle heap c s s' op_frame (request_stream pid o) (put_u32 frame) refl
            (λ e. absurd (omega (arith, e))) (omega arith) (omega (arith, length-request pid o))
            (handle-frame pid frame o s' (send_frame-request c s pid o small w ∙ done)),
        receive-put_u32 frame fits,
      )

  module _ (g : Geometry) (pcb : Pcb) (address frame : ℕ) where
    abbrev page : ℕ
    page = get_page_number address g.page_size

    abbrev entry_1 : ℕ
    entry_1 = get_entry_lvl_1 page g.page_amount_entries

    abbrev entry_2 : ℕ
    entry_2 = get_entry_lvl_2 address g.page_size g.page_amount_entries

    walk-resident :
        pcb.id < u32_mod
        → pcb.page_table < u32_mod
        → s.memory.max_rows < u32_mod
        → IsResident s.memory pcb.page_table entry_1 entry_2 frame
        → walk (module_of heap c) g pcb address (some s) ≡ (frame, some s)
    unfolding memory_client
    walk-resident pid_small table_small rows_small r =
        walk-answers (module_of heap c) g pcb address r.second frame (some s) (some s) (some s)
          (request_table_2_entry-resident pcb.page_table entry_1 entry_2 frame r
            (record { op1_small = table_small; op2_small = omega (arith, r.i_small) }))
          (request_frame-obtain_frame pcb.id r.second entry_2 frame s pid_small
            (record { op1_small = r.second_small; op2_small = omega (arith, r.j_small) })
            r.frame_small (obtain_frame-resident c s pcb.page_table entry_1 entry_2 frame pcb.id r))

    -- The CPU behind its connection to the memory module: when the TLB is well formed after the lookup
    -- and coherent with the page tables, and the page of an address is resident in the tables of the
    -- process, all numbers being words, the translation that the CPU computes is the frame that the
    -- tables name with the offset in the page, whether the page was cached or two requests crossed the
    -- link, and the memory module's state is as before.
    pub req_physical_address-IsResident :
        (table : ℕ → ℕ) (tlb : Tlb)
        → page ≢ pagina_vacia
        → IsTlb (page_in_tlb tlb page).1
        → Coherent table tlb
        → pcb.id < u32_mod
        → pcb.page_table < u32_mod
        → s.memory.max_rows < u32_mod
        → IsResident s.memory pcb.page_table entry_1 entry_2 frame
        → table page ≡ frame
        → (u : Tlb) × (req_physical_address (module_of heap c) g pcb address tlb (some s)
            ≡ some (physical frame g.page_size address, u, some s))
          × Coherent table u
          × (frame_of page u.entries ≡ some frame)
    req_physical_address-IsResident table tlb np v coherent pid_small table_small rows_small r e =
        let walked = walk-resident pid_small table_small rows_small r in
        let served : (walk (module_of heap c) g pcb address (some s)).0 ≡ table page =
          ap (λ (x : ℕ × Option Server). x.0) walked ∙ sym e in
        let stays : (walk (module_of heap c) g pcb address (some s)).1 ≡ some s =
          ap (λ (x : ℕ × Option Server). x.1) walked in
        let (u, s', translated, coherent', cached, hit) =
          req_physical_address-Coherent (module_of heap c) table g pcb address tlb (some s) np v
            coherent served in
        let same =
          translation_state (module_of heap c) g pcb address _ tlb u (some s) s' stays translated in
        (u, rw same at (rw e at translated), coherent', cached ∙ ap (λ (x : ℕ). some x) e)
