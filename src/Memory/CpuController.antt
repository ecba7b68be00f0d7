-- ===== src/Memory/CpuController.antt =====
-- memory/src/server/cpu_controller.c: what the memory module answers to the CPU. A handler takes the
-- stream that was received; its answer is the word that is sent. `none` is a null or out-of-range read.
pub mod Fault
use os_sski.Common.{
  ℕ, zero, suc, ◌+◌, ◌-◌, ◌/◌, Bool, true, false, not, Option, none, some, List, [], ◌∷◌, ◌>>=◌,
  map, uint32_max, get_elem?, set, ltb, leb, ◌==◌, if◌then◌else◌,
}
use os_sski.Wire.Word.{Bytes, get_u32}
use os_sski.Wire.Operands.{Operands, operandos_from_stream, receive_operands}
use os_sski.Memory.Table.{Row, invalid_frame}
use os_sski.Memory.Frames.{find_free_frame, delete_frame, create_frame_for_table}
use os_sski.Memory.Store.{write_in_memory, read_from_memory}
use os_sski.Memory.Process.{Memory, get_table}
use os_sski.Memory.Lookup.{
  get_table_lvl2_number, get_frame_ref, update_row, big_rows, create_big_table, put_rows, row_of,
}
use os_sski.Memory.Server.{Settings, Server, frame_selector}
use os_sski.Memory.Swap.{swap_frame_for_pcb, unswap_frame_for_pcb}

unfoldable pub get_frame : Settings → ℕ → ℕ
get_frame c physical_address = physical_address / c.tam_pagina

abbrev pub with_modified : Bool → Row → Row
with_modified b r = record r { modified = b }

-- `if (frame_ref) frame_ref->modified = b`
unfoldable pub mark : Memory → ℕ → Bool → Option Memory
unfolding get_frame_ref update_row
mark memory frame b = do
  found ← get_frame_ref memory frame
  some (elim found [ none ↦ memory | some ref ↦ update_row memory ref (with_modified b) ])

-- `cpu_controller_read` behind the stream.
unfoldable pub read_word : Settings → Server → ℕ → Option (ℕ × Server)
unfolding get_frame get_table_lvl2_number mark read_from_memory
read_word c s physical_address =
    let frame = get_frame c physical_address in
    if get_table_lvl2_number s.memory frame == uint32_max then some (uint32_max, s) else do
      memory ← mark s.memory frame false
      value ← read_from_memory s.main_memory physical_address
      some (value, record s { memory = memory })

unfoldable pub cpu_controller_read : Settings → Server → Bytes → Option (ℕ × Server)
unfolding receive_operands read_word
cpu_controller_read c s stream = do
  (pid, operands) ← receive_operands stream
  read_word c s operands.op1

-- `cpu_controller_write` behind the stream.
unfoldable pub write_word : Settings → Server → ℕ → ℕ → Option Server
unfolding get_frame get_table_lvl2_number mark write_in_memory
write_word c s physical_address value =
    let frame = get_frame c physical_address in
    if get_table_lvl2_number s.memory frame == uint32_max then some s else do
      memory ← mark s.memory frame true
      main ← write_in_memory s.main_memory physical_address value
      some (record s { memory = memory; main_memory = main })

unfoldable pub cpu_controller_write : Settings → Server → Bytes → Option Server
unfolding receive_operands write_word
cpu_controller_write c s stream = do
  (pid, operands) ← receive_operands stream
  write_word c s operands.op1 operands.op2

unfoldable pub obtain_second_page : Memory → ℕ → ℕ → Option ℕ
unfolding get_table
obtain_second_page memory id_table_1 index =
    if ltb memory.max_rows index
    then some uint32_max
    else do table ← get_table memory.tables_lvl_1 id_table_1; get_elem? table index

-- The loop over the rows of a first-level table.
unfoldable pub lists : ℕ → List ℕ → Bool
lists id [] = false
lists id (i ∷ ids) = let later = lists id ids in if i == id then true else later

-- The loop over the first-level tables, from index `i` on.
unfoldable pub table_1_from : ℕ → ℕ → List (Option (List ℕ)) → ℕ
unfolding lists
table_1_from id i [] = uint32_max
table_1_from id i (none ∷ tables) = table_1_from id (i + 1) tables
table_1_from id i (some ids ∷ tables) =
    let later = table_1_from id (i + 1) tables in if lists id ids then i else later

unfoldable pub get_table_lvl1_number : Memory → ℕ → ℕ
unfolding table_1_from
get_table_lvl1_number memory id_table_2 = table_1_from id_table_2 0 memory.tables_lvl_1

-- The two loops that count the pages present, with the count so far.
unfoldable pub count_rows : ℕ → List Row → ℕ
count_rows count [] = count
count_rows count (r ∷ rows) = count_rows (if r.present then count + 1 else count) rows

unfoldable pub count_present : List (Option (List Row)) → List ℕ → ℕ → ℕ
unfolding count_rows get_table
count_present tables [] count = count
count_present tables (id ∷ ids) count = elim (get_table tables id) [
  | none ↦ count_present tables ids count
  | some rows ↦ count_present tables ids (count_rows count rows)
]

-- The first read of the big table is that of `print_table`.
unfoldable pub should_replace_frame : Settings → Memory → ℕ → Option Bool
unfolding get_table_lvl1_number create_big_table count_present get_table
should_replace_frame c memory id_table_2 = do
  let id = get_table_lvl1_number memory id_table_2
  printed ← create_big_table memory id
  ids ← get_table memory.tables_lvl_1 id
  some (leb c.marcos_por_proceso (count_present memory.tables_lvl_2 ids 0))

unfoldable pub frame_is_present : Memory → ℕ → ℕ → Option Bool
unfolding get_table row_of
frame_is_present memory id frame = do
  rows ← get_table memory.tables_lvl_2 id
  some (elim (row_of frame 0 rows) [
    | none ↦ false
    | some j ↦ elim (get_elem? rows j) [ none ↦ false | some r ↦ r.present ]
  ])

-- The loop of `replace_frame`: it does not stop at the first match.
unfoldable pub leave : ℕ → Row → Row
leave frame r = if r.frame == frame then record r { present = false; use_bit = false } else r

unfoldable pub replace_frame : Settings → Server → ℕ → ℕ → Option Server
unfolding get_table_lvl2_number get_table leave swap_frame_for_pcb
replace_frame c s pid frame = do
  let id = get_table_lvl2_number s.memory frame
  rows ← get_table s.memory.tables_lvl_2 id
  let memory = record s.memory {
    tables_lvl_2 = set s.memory.tables_lvl_2 id (some (map (leave frame) rows));
  }
  swap_frame_for_pcb c (record s { memory = memory }) pid frame

-- `g_memory.frame_selector`: the rows of the process in a line, and what it writes to them.
unfoldable pub select_frame : Settings → Server → ℕ → Option (ℕ × Server)
unfolding get_table big_rows put_rows frame_selector
select_frame c s id_table_1 = do
  ids ← get_table s.memory.tables_lvl_1 id_table_1
  line ← big_rows s.memory.tables_lvl_2 ids
  (frame, clock, line) ← frame_selector c s.clock line
  let tables = put_rows s.memory.max_rows ids line s.memory.tables_lvl_2
  some (frame, record s { memory = record s.memory { tables_lvl_2 = tables }; clock = clock })

-- The replacement that a page fault may need.
unfoldable pub make_room : Settings → Server → ℕ → ℕ → Option Server
unfolding should_replace_frame get_table_lvl1_number select_frame replace_frame
make_room c s id_table_2 pid = do
  full ← should_replace_frame c s.memory id_table_2
  if full
      then (do
        (frame, s) ← select_frame c s (get_table_lvl1_number s.memory id_table_2)
        replace_frame c s pid frame)
      else some s

abbrev pub with_frames : Server → List Bool → Server
with_frames s frames = record s { memory = record s.memory { frames = frames } }

-- What a page fault does with the frame that was found.
unfoldable pub assign_frame : Settings → Server → ℕ → ℕ → ℕ → ℕ → Option Server
unfolding get_table create_frame_for_table delete_frame unswap_frame_for_pcb get_frame_ref
    update_row
assign_frame c s id_table_2 index pid new_frame = do
  table ← get_table s.memory.tables_lvl_2 id_table_2
  r ← get_elem? table index
  if r.frame == invalid_frame
      then (do
        let (created_at, table) = create_frame_for_table table new_frame
        some (record s {
          memory = record s.memory {
            tables_lvl_2 = set s.memory.tables_lvl_2 id_table_2 (some table);
          };
        }))
      else (do
        frames ← delete_frame s.memory.frames new_frame
        s ← unswap_frame_for_pcb c (with_frames s frames) pid r.frame
        some (record s {
          memory = update_row s.memory (id_table_2, index) (λ r. record r { use_bit = true });
        }))

unfoldable pub obtain_frame : Settings → Server → ℕ → ℕ → ℕ → Option (ℕ × Server)
unfolding get_table find_free_frame make_room assign_frame
obtain_frame c s id_table_2 index pid =
    if ltb s.memory.max_rows index then some (uint32_max, s) else do
      table ← get_table s.memory.tables_lvl_2 id_table_2
      r ← get_elem? table index
      if r.present then some (r.frame, s) else do
        let (new_frame, frames) = find_free_frame s.memory.frames
        s ← make_room c (with_frames s frames) id_table_2 pid
        s ← assign_frame c s id_table_2 index pid new_frame
        some (new_frame, s)

unfoldable pub cpu_controller_send_entries : Settings → ℕ
cpu_controller_send_entries c = c.entradas_por_tabla

unfoldable pub cpu_controller_send_size : Settings → ℕ
cpu_controller_send_size c = c.tam_pagina

-- No stream: nothing could be read.
unfoldable pub cpu_controller_send_frame : Settings → Server → Option Bytes → Option (ℕ × Server)
unfolding get_u32 operandos_from_stream obtain_frame
cpu_controller_send_frame c s none = some (uint32_max, s)
cpu_controller_send_frame c s (some stream) = do
  (pid, rest) ← get_u32 stream
  values ← operandos_from_stream rest
  obtain_frame c s values.op1 values.op2 pid

unfoldable pub cpu_controller_send_page_second_level : Server → Option Bytes → Option ℕ
unfolding operandos_from_stream create_big_table obtain_second_page
cpu_controller_send_page_second_level s none = some uint32_max
cpu_controller_send_page_second_level s (some stream) = do
  values ← operandos_from_stream stream
  printed ← create_big_table s.memory values.op1
  let rows = s.memory.max_rows
  obtain_second_page s.memory values.op1 (if leb rows values.op2 then rows - 1 else values.op2)
