-- ===== src/Memory/KernelController.antt =====
-- memory/src/server/kernel_controller.c: the life of a process in the memory module.
-- `none` is a null or out-of-range access.
pub mod Printable
pub mod Life
use os_sski.Common.{
  ℕ, Bool, true, false, not, Option, none, some, List, [], ◌∷◌, ◌++◌, ◌>>=◌, if◌then◌else◌,
}
use os_sski.Wire.Word.{Bytes, get_u32}
use os_sski.Wire.Operands.{Operands, operandos_from_stream}
use os_sski.Wire.Pcb.{Pcb, Heap, pcb_from_stream, pcb_bytes_size}
use os_sski.Memory.Table.{Row}
use os_sski.Memory.Process.{Memory, create_new_process, delete_related_tables}
use os_sski.Memory.Lookup.{big_rows}
use os_sski.Memory.Server.{SwapData, Settings, Server}
use os_sski.Memory.Swap.{
  new_swap_data, delete_swap_data, create_file, delete_swap_file, put_file, open_file, ftruncate,
  load_bytes, store_bytes, unswap_pcb,
}

-- Whether it was saved. The file gets the stream, where `swap.c` keeps pages.
unfoldable pub swap_pcb_stream : Heap → Settings → Server → Bytes → Option (Bool × Server)
unfolding pcb_from_stream pcb_bytes_size open_file ftruncate put_file load_bytes store_bytes
swap_pcb_stream heap c s stream = do
  pcb ← pcb_from_stream heap stream
  let size = pcb_bytes_size pcb
  elim (open_file c s pcb.id) [
    | none ↦ some (false, s)
    | some opened ↦
        let file = ftruncate size opened in
        if not (c.maps size) then some (false, put_file s pcb.id (some file)) else do
          image ← load_bytes 0 size stream
          file ← store_bytes 0 image file
          some (true, put_file s pcb.id (some file))
  ]

unfoldable pub kernel_controller_swap : Heap → Settings → Server → Bytes → Option Server
unfolding swap_pcb_stream
kernel_controller_swap heap c s stream = do (saved, s) ← swap_pcb_stream heap c s stream; some s

unfoldable pub kernel_controller_read_swap : Settings → Server → Bytes → Option Server
unfolding get_u32 unswap_pcb
kernel_controller_read_swap c s stream = do (pcb_id, _) ← get_u32 stream; unswap_pcb c s pcb_id

-- `print_table` of each first-level table that is not null reads all its rows.
unfoldable pub print_tables :
    List (Option (List Row)) → List (Option (List ℕ)) → Option (List (List Row))
unfolding big_rows
print_tables tables [] = some []
print_tables tables (none ∷ rest) = print_tables tables rest
print_tables tables (some ids ∷ rest) = do
  rows ← big_rows tables ids
  printed ← print_tables tables rest
  some (rows ∷ printed)

unfoldable pub delete_swapped_pcb : Server → ℕ → Server
unfolding delete_swap_file delete_swap_data
delete_swapped_pcb s pid = record (delete_swap_file s pid) {
  swap_data = delete_swap_data s.swap_data pid;
}

unfoldable pub kernel_controller_destroy_process_file : Server → Bytes → Option Server
unfolding get_u32 delete_related_tables delete_swapped_pcb print_tables
kernel_controller_destroy_process_file s stream = do
  (pcb_id, rest) ← get_u32 stream
  (table_id, _) ← get_u32 rest
  memory ← delete_related_tables s.memory table_id
  let s = delete_swapped_pcb (record s { memory = memory }) pcb_id
  printed ← print_tables s.memory.tables_lvl_2 s.memory.tables_lvl_1
  some s

-- `memory_init` behind the stream; the page table that is answered.
unfoldable pub memory_init : Settings → Server → ℕ → ℕ → Option (ℕ × Server)
unfolding new_swap_data create_file create_new_process print_tables
memory_init c s pid pcb_size = do
  let s = record s { swap_data = s.swap_data ++ new_swap_data pid pcb_size ∷ [] }
  s ← create_file c s pid pcb_size
  let (page_table, memory) = create_new_process s.memory
  printed ← print_tables memory.tables_lvl_2 memory.tables_lvl_1
  some (page_table, record s { memory = memory })

-- Without a stream nothing is done and nothing answered.
unfoldable pub kernel_controller_memory_init :
    Settings → Server → Option Bytes → Option (Option ℕ × Server)
unfolding operandos_from_stream memory_init
kernel_controller_memory_init c s none = some (none, s)
kernel_controller_memory_init c s (some stream) = do
  operands ← operandos_from_stream stream
  (page_table, s) ← memory_init c s operands.op1 operands.op2
  some (some page_table, s)
