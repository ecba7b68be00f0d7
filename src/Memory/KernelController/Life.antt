-- ===== src/Memory/KernelController/Life.antt =====
-- A process from its start in the memory module to its end.
use os_sski.Common.{
  ℕ, ◌+◌, ◌<◌, ◌≤◌, ◌≡◌, refl, sym, ap, ◌∙◌, inl, inr, true, Option, none, some, List, [], ◌∷◌,
  ◌++◌, arith, u32_mod, ◌>>=◌, append-nil, length, replicate, ltb, ◌==◌, if◌then◌else◌, Bool-cases,
}
use os_sski.Wire.Word.{Bytes, put_u32, get_u32, get_u32-put_u32_small, length-put_u32}
use os_sski.Memory.Table.{Row, new_page_table_lvl2}
use os_sski.Memory.Store.{overwrite}
use os_sski.Memory.Process.{Memory, create_new_process, delete_related_tables, find_id}
use os_sski.Memory.Process.Fresh.{ids_from, find_id_slot, created, create_new_process-created}
use os_sski.Memory.Process.Release.{delete_related_tables-create_new_process}
use os_sski.Memory.Server.{SwapData, Settings, Server}
use os_sski.Memory.Swap.{
  get_swap_data_for_pcb, new_swap_data, delete_swap_data, ftruncate, put_file, create_file,
  delete_swap_file,
}
use os_sski.Memory.Swap.Copies.{store_bytes-fits, length-ftruncate}
use os_sski.Memory.KernelController.{
  print_tables, memory_init, delete_swapped_pcb, kernel_controller_destroy_process_file,
}
use os_sski.Memory.KernelController.Printable.{
  Printable, Printable-append, Printable-put_table, Printable-null, big_rows-fresh,
}

delete_swap_data-new :
    (infos : List SwapData) (pid size : ℕ)
    → get_swap_data_for_pcb infos pid ≡ none
    → delete_swap_data (infos ++ new_swap_data pid size ∷ []) pid ≡ infos
unfolding get_swap_data_for_pcb delete_swap_data new_swap_data
delete_swap_data-new [] pid size h = ground arith
delete_swap_data-new (d ∷ infos) pid size h = elim (Bool-cases (d.pid == pid)) [
  | inl same ↦ absurd (ground (arith, h, same))
  | inr other ↦
      let below : get_swap_data_for_pcb infos pid ≡ none = ground (arith, h, other) in
      rw (other, delete_swap_data-new infos pid size below, delete_swap_data)
]

get_swap_data-end :
    (infos : List SwapData) (pid size : ℕ)
    → get_swap_data_for_pcb infos pid ≡ none
    → get_swap_data_for_pcb (infos ++ new_swap_data pid size ∷ []) pid
      ≡ some (new_swap_data pid size)
unfolding get_swap_data_for_pcb new_swap_data
get_swap_data-end [] pid size h = ground arith
get_swap_data-end (d ∷ infos) pid size h = ground (arith, h, get_swap_data-end infos pid size)

find_id-small :
    {A : Type 0} (tables : List (Option A))
    → length tables < u32_mod
    → find_id tables true < u32_mod
find_id-small tables few = elim (find_id_slot tables) [
  | inl (inside, _) ↦ omega (arith, inside, few)
  | inr end ↦ omega (arith, end, few)
]

Printable-created :
    (m : Memory)
    → Printable m.tables_lvl_2 m.tables_lvl_1
    → Printable (created m).tables_lvl_2 (created m).tables_lvl_1
Printable-created m p =
    let fresh = new_page_table_lvl2 m.max_rows in
    let more = replicate m.max_rows (some fresh) in
    let (line, whole) = big_rows-fresh m.max_rows fresh m.tables_lvl_2 in
    Printable-put_table (m.tables_lvl_2 ++ more) (ids_from (length m.tables_lvl_2) m.max_rows) line
      whole m.tables_lvl_1 (find_id m.tables_lvl_1 true)
      (Printable-append m.tables_lvl_2 more m.tables_lvl_1 p)

-- What is left of the tables of a process that has ended.
abbrev pub vacated : Memory → Memory
vacated m =
    let id = find_id m.tables_lvl_1 true in
    record m {
      tables_lvl_1 =
          if ltb id (length m.tables_lvl_1) then m.tables_lvl_1 else m.tables_lvl_1 ++ none ∷ [];
      tables_lvl_2 = m.tables_lvl_2 ++ replicate m.max_rows none;
    }

delete_related_tables-created :
    (m : Memory)
    → delete_related_tables (created m) (find_id m.tables_lvl_1 true) ≡ some (vacated m)
delete_related_tables-created m =
    ap (λ (x : ℕ × Memory). delete_related_tables x.1 x.0) (sym (create_new_process-created m))
    ∙ delete_related_tables-create_new_process m
    ∙ ap (λ (x : ℕ × Memory). some (vacated_at m x.0)) (create_new_process-created m)
  where
    vacated_at : Memory → ℕ → Memory
    vacated_at m id = record m {
      tables_lvl_1 =
          if ltb id (length m.tables_lvl_1) then m.tables_lvl_1 else m.tables_lvl_1 ++ none ∷ [];
      tables_lvl_2 = m.tables_lvl_2 ++ replicate m.max_rows none;
    }

Printable-vacated :
    (m : Memory)
    → Printable m.tables_lvl_2 m.tables_lvl_1
    → Printable (vacated m).tables_lvl_2 (vacated m).tables_lvl_1
Printable-vacated m p =
    let nulls = replicate m.max_rows none in
    let kept = Printable-append m.tables_lvl_2 nulls m.tables_lvl_1 p in
    elim (Bool-cases (ltb (find_id m.tables_lvl_1 true) (length m.tables_lvl_1))) [
      | inl slot ↦ rw slot kept
      | inr end ↦ rw end (Printable-null (m.tables_lvl_2 ++ nulls) m.tables_lvl_1 kept)
    ]

create_file-file :
    (c : Settings) (s : Server) (pid size : ℕ)
    → 4 ≤ size
    → (file : Option Bytes) × (create_file c s pid size ≡ some (put_file s pid file))
unfolding create_file
create_file-file c s pid size big = elim (Bool-cases (c.opens pid)) [
  | inr closed ↦ (none, rw (closed, create_file))
  | inl opens ↦ elim (Bool-cases (c.maps size)) [
    | inr fails ↦ (some (ftruncate size []), rw (opens, fails, create_file))
    | inl maps ↦
        let fits : 0 + length (put_u32 pid) ≤ length (ftruncate size []) =
          omega (arith, length-put_u32 pid, length-ftruncate size []) in
        (
          some (overwrite 0 (put_u32 pid) (ftruncate size [])),
          rw (opens, maps, store_bytes-fits 0 (put_u32 pid) (ftruncate size []) fits, create_file),
        )
  ]
]

module _ (c : Settings) (s : Server) (pid size : ℕ) where
  abbrev started : Option Bytes → Server
  started file = record (put_file s pid file) {
    memory = created s.memory;
    swap_data = s.swap_data ++ new_swap_data pid size ∷ [];
  }

  -- The rest of the handler, behind the file and the tables.
  abbrev with_tables : Server → ℕ × Memory → Option (ℕ × Server)
  with_tables s1 r = do
    printed ← print_tables r.1.tables_lvl_2 r.1.tables_lvl_1
    some (r.0, record s1 { memory = r.1 })

  with_tables-created :
      (s1 : Server) (printed : List (List Row))
      → print_tables (created s1.memory).tables_lvl_2 (created s1.memory).tables_lvl_1
        ≡ some printed
      → with_tables s1 (create_new_process s1.memory)
        ≡ some (find_id s1.memory.tables_lvl_1 true, record s1 { memory = created s1.memory })
  with_tables-created s1 printed shown =
      ap (with_tables s1) (create_new_process-created s1.memory) ∙ rw shown

  memory_init-started :
      4 ≤ size
      → Printable s.memory.tables_lvl_2 s.memory.tables_lvl_1
      → (file : Option Bytes) × (memory_init c s pid size
          ≡ some (find_id s.memory.tables_lvl_1 true, started file))
  unfolding memory_init put_file
  memory_init-started big p =
      let s1 = record s { swap_data = s.swap_data ++ new_swap_data pid size ∷ [] } in
      let (file, made) = create_file-file c s1 pid size big in
      let (printed, shown) = Printable-created s.memory p in
      (file, rw made (with_tables-created (put_file s1 pid file) printed shown))

  exit_stream :
      (id : ℕ)
      → pid < u32_mod
      → id < u32_mod
      → (get_u32 (put_u32 pid ++ put_u32 id) ≡ some (pid, put_u32 id))
        × (get_u32 (put_u32 id) ≡ some (id, []))
  exit_stream id pid_small small = (
    get_u32-put_u32_small pid (put_u32 id) pid_small,
    rw (append-nil (put_u32 id)) at (get_u32-put_u32_small id [] small),
  )

  -- A process that is new to the memory module, of at least four bytes, with all tables that can be
  -- printed: the kernel's request for it succeeds, gives it swap data with nothing swapped out, and
  -- answers a table; when the kernel then ends it before a page was touched, that succeeds too, and the
  -- swap data, the frames, the main memory and the other processes' files are as before, its own file is
  -- gone, and the tables can be printed again. Only null slots are left behind.
  pub destroy_process_file-memory_init :
      4 ≤ size
      → pid < u32_mod
      → length s.memory.tables_lvl_1 < u32_mod
      → get_swap_data_for_pcb s.swap_data pid ≡ none
      → Printable s.memory.tables_lvl_2 s.memory.tables_lvl_1
      → (id : ℕ) × (id < u32_mod)
        × (s' s'' : Server) × (memory_init c s pid size ≡ some (id, s'))
        × (get_swap_data_for_pcb s'.swap_data pid ≡ some (new_swap_data pid size))
        × (kernel_controller_destroy_process_file s' (put_u32 pid ++ put_u32 id) ≡ some s'')
        × (s''.swap_data ≡ s.swap_data)
        × (s''.memory ≡ vacated s.memory)
        × (s''.main_memory ≡ s.main_memory)
        × ((p : ℕ) → s''.files p ≡ (if p == pid then none else s.files p))
        × Printable s''.memory.tables_lvl_2 s''.memory.tables_lvl_1
  unfolding kernel_controller_destroy_process_file delete_swapped_pcb delete_swap_file put_file
  destroy_process_file-memory_init big pid_small few new p =
      let id = find_id s.memory.tables_lvl_1 true in
      let (file, made) = memory_init-started big p in
      let (first, second) = exit_stream id pid_small (find_id-small s.memory.tables_lvl_1 few) in
      let (printed, shown) = Printable-vacated s.memory p in
      let s'' = record (delete_swapped_pcb (started file) pid) { memory = vacated s.memory } in
      (
        id,
        find_id-small s.memory.tables_lvl_1 few,
        started file,
        s'',
        made,
        get_swap_data-end s.swap_data pid size new,
        rw (first, second, delete_related_tables-created s.memory, shown),
        delete_swap_data-new s.swap_data pid size new,
        refl,
        refl,
        λ q. ground arith,
        (printed, shown),
      )
