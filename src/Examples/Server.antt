-- ===== src/Examples/Server.antt =====
-- The memory module with two processes' worth of tables, and the CPU connected to it.
use os_sski.Common.{
  ℕ, ◌+◌, ◌*◌, ◌≤◌, ◌<◌, ◌≡◌, ◌≢◌, ◌⊎◌, refl, Bool, true, false, Option, none, some, List, [], ◌∷◌,
  ◌++◌, arith, u32_mod, uint32_max, get_elem?, set, replicate, ltb, ◌==◌, if◌then◌else◌,
}
use os_sski.Wire.Word.{Bytes}
use os_sski.Wire.Pcb.{Pcb, PcbStatus, Heap}
use os_sski.Cpu.Tlb.{Tlb, Policy, pagina_vacia, page_in_tlb, find_page}
use os_sski.Cpu.Tlb.Lookup.{frame_of}
use os_sski.Cpu.Tlb.Replace.{IsTlb}
use os_sski.Cpu.Mmu.{
  Geometry, get_page_number, get_entry_lvl_1, get_entry_lvl_2, physical, req_physical_address,
}
use os_sski.Cpu.Mmu.Walk.{Coherent}
use os_sski.Cpu.Client.{request_read, request_write}
use os_sski.Memory.Table.{Row, empty_row}
use os_sski.Memory.Frames.{find_free_frame, create_frame_for_table, delete_frame}
use os_sski.Memory.Store.{overwrite, read_from_memory}
use os_sski.Memory.Process.{get_table}
use os_sski.Memory.Lookup.{
  row_of, table_from, get_table_lvl2_number, get_frame_ref, update_row, big_rows, create_big_table,
}
use os_sski.Memory.Server.{SwapData, Settings, Server}
use os_sski.Memory.Swap.{
  get_swap_data_for_pcb, get_offset_for_pcb, new_swap_data, with_present, swap_frame_for_pcb,
  unswap_frame_for_pcb, open_file, rounds, unswap_search, drop_entry, save_swap, put_file,
  update_swap_data, set_present,
}
use os_sski.Memory.Swap.RoundTrip.{IsSwappable, buffered, unswap_frame_for_pcb-swap_frame_for_pcb}
use os_sski.Memory.CpuController.{
  get_frame, with_modified, lists, table_1_from, get_table_lvl1_number, count_rows, count_present,
  should_replace_frame, obtain_frame, make_room, assign_frame,
}
use os_sski.Memory.CpuController.Fault.{
  filled, IsFirstEmpty, IsFault, assigned, obtain_frame-new, obtain_frame-swapped,
}
use os_sski.Memory.KernelController.{print_tables}
use os_sski.Memory.KernelController.Printable.{Printable}
use os_sski.Memory.KernelController.Life.{vacated}
use os_sski.Memory.Link.Process.{admitted_as, exchange-admit}
use os_sski.Kernel.Scheduler.{new_scheduler}
use os_sski.Kernel.Threads.{KernelState, Outcome}
use os_sski.Kernel.Threads.Lts.{admit}
use os_sski.Kernel.Threads.Steps.{on_start}
use os_sski.Kernel.Client.{page_table_request, receive_page_table, swap_controller_exit}
use os_sski.Memory.Link.{exchange, module_of}
use os_sski.Memory.Link.Walk.{IsResident, req_physical_address-IsResident}
use os_sski.Memory.Link.Word.{IsMapped, request_read-request_write}

abbrev heap : Heap
heap = record { size_high = 0; io = 0; real = 0 }

-- A new buffer happens to hold sevens.
abbrev settings : Settings
settings = record {
  tam_memoria = 48;
  tam_pagina = 12;
  entradas_por_tabla = 2;
  marcos_por_proceso = 3;
  algoritmo_is_clock = true;
  opens = λ pid. true;
  maps = λ size. not_empty size;
  malloc = λ size. replicate size 7;
}
  where
    not_empty : ℕ → Bool
    not_empty size = ltb 0 size

abbrev page_0 : Row
page_0 = record { frame = 0; present = true; use_bit = true; modified = false }

-- Swapped out, with its frame still its own.
abbrev page_1 : Row
page_1 = record { frame = 1; present = false; use_bit = false; modified = false }

abbrev tables : List (Option (List Row))
tables = some (page_0 ∷ page_1 ∷ []) ∷ some (empty_row ∷ empty_row ∷ []) ∷ []

abbrev server : Server
server = record {
  memory = record {
    max_rows = 2;
    max_frames = 3;
    frames = true ∷ true ∷ false ∷ false ∷ [];
    tables_lvl_1 = some (0 ∷ 1 ∷ []) ∷ [];
    tables_lvl_2 = tables;
  };
  main_memory = replicate 48 5;
  swap_data = record { pid = 3; size = 64; offset = 0 } ∷ [];
  clock = 0;
  files = λ pid. if pid == 3 then some (replicate 64 0) else none;
}

abbrev geometry : Geometry
geometry = record { page_size = 12; page_amount_entries = 2 }

abbrev pcb : Pcb
pcb = record {
  id = 3;
  status = PcbStatus.pcb_executing;
  size = 64;
  instructions = [];
  page_table = 0;
  estimation = 1000;
  pc = 0;
  io = 0;
  real = 0;
}

abbrev tlb : Tlb
tlb = record {
  entries = record { pagina = pagina_vacia; frame = pagina_vacia; tiempo_ult_acceso = 1 } ∷ [];
  policy = Policy.replace_lru;
  next = 0;
}

tlb-Coherent : Coherent (λ page. page) tlb
tlb-Coherent q f ne e = ground arith

tlb-IsTlb : IsTlb (page_in_tlb tlb (get_page_number 5 12)).1
unfolding page_in_tlb get_page_number find_page
tlb-IsTlb = record { cursor = omega arith; distinct = ground arith; counting = ground arith }

page_some : get_page_number 5 12 ≢ pagina_vacia
unfolding get_page_number
page_some = ground arith

page_0-IsResident :
    IsResident server.memory 0 (get_entry_lvl_1 (get_page_number 5 12) 2) (get_entry_lvl_2 5 12 2) 0
unfolding get_entry_lvl_1 get_entry_lvl_2 get_table big_rows
page_0-IsResident = record {
  ids = 0 ∷ 1 ∷ [];
  line = page_0 ∷ page_1 ∷ empty_row ∷ empty_row ∷ [];
  rows = page_0 ∷ page_1 ∷ [];
  second = 0;
  page = page_0;
  table_there = refl;
  tables_there = refl;
  second_listed = refl;
  second_there = refl;
  page_listed = refl;
  page_present = refl;
  page_frame = refl;
  i_small = omega arith;
  j_small = omega arith;
  second_small = omega arith;
  frame_small = omega arith;
}

page_0_number : get_page_number 5 12 ≡ 0
unfolding get_page_number
page_0_number = refl

req_physical_address-IsResident_example :
    (u : Tlb) × (req_physical_address (module_of heap settings) geometry pcb 5 tlb (some server)
      ≡ some (physical 0 12 5, u, some server))
    × Coherent (λ page. page) u
    × (frame_of (get_page_number 5 12) u.entries ≡ some 0)
req_physical_address-IsResident_example =
    req_physical_address-IsResident heap settings server geometry pcb 5 0 (λ page. page) tlb
      page_some tlb-IsTlb tlb-Coherent (omega arith) (omega arith) (omega arith) page_0-IsResident
      page_0_number

page_0-IsMapped :
    (address : ℕ) → address < 12 → get_frame settings address ≡ 0 → IsMapped settings server address
unfolding get_frame get_table_lvl2_number table_from row_of
page_0-IsMapped address inside first = record {
  in_table = rw first (λ e. absurd (omega (arith, e)));
  in_memory = omega (arith, inside);
  word = omega (arith, inside);
}

address_4 : get_frame settings 4 ≡ 0
unfolding get_frame
address_4 = refl

address_4-IsMapped : IsMapped settings server 4
address_4-IsMapped = page_0-IsMapped 4 (omega arith) address_4

request_read-request_write_example :
    (s' : Server) × (request_write (exchange heap settings) (some server) 3 4 1000 ≡ some s')
    × ((at : ℕ × ℕ) × (get_frame_ref server.memory (get_frame settings 4) ≡ some (some at))
        × (s'.memory ≡ update_row server.memory at (with_modified true)))
    × ((s'' : Server) × (request_read (exchange heap settings) (some s') 3 4
          ≡ (some 1000, some s''))
        × (at' : ℕ × ℕ) × (s''.memory ≡ update_row s'.memory at' (with_modified false))
        × (get_frame_ref s'.memory (get_frame settings 4) ≡ some (some at')))
    × ((other word : ℕ)
        → IsMapped settings server other
        → (other + 4 ≤ 4) ⊎ (4 + 4 ≤ other)
        → read_from_memory server.main_memory other ≡ some word
        → word < u32_mod
        → (request_read (exchange heap settings) (some s') 3 other).0 ≡ some word)
request_read-request_write_example =
    request_read-request_write heap settings server 3 4 1000 address_4-IsMapped (omega arith)
      (omega arith)

-- The first row of the second table, which no page has used.
empty-IsFault : IsFault settings server 1 1 3 (empty_row ∷ empty_row ∷ []) empty_row
unfolding get_table should_replace_frame get_table_lvl1_number table_1_from lists create_big_table
    big_rows count_present count_rows
empty-IsFault = record { bound = omega arith; table = refl; row = refl; absent = refl; room = refl }

obtain_frame-new_example :
    (n k : ℕ) × (q : Row) × (n ≤ 2)
    × (get_elem? server.memory.frames n ≡ some false)
    × IsFirstEmpty (empty_row ∷ empty_row ∷ []) k 1 q
    × (obtain_frame settings server 1 1 3
        ≡ some
            (n, assigned settings server 1 1 3 n (set (empty_row ∷ empty_row ∷ []) k (filled n q))))
obtain_frame-new_example =
    obtain_frame-new settings server 1 1 3 (empty_row ∷ empty_row ∷ []) empty_row 2 empty-IsFault
      refl refl (omega arith)

-- An access to row 1 of the empty table fills row 0.
obtain_frame_run :
    obtain_frame settings server 1 1 3
    ≡ some (
      2,
      assigned settings server 1 1 3 2
          (record { frame = 2; present = true; use_bit = true; modified = false } ∷ empty_row ∷ []),
    )
unfolding obtain_frame get_table should_replace_frame get_table_lvl1_number table_1_from lists
    create_big_table big_rows count_present count_rows find_free_frame make_room assign_frame
    create_frame_for_table
obtain_frame_run = refl

-- The second page of the first table is swapped out: its frame is 1.
swapped-IsFault : IsFault settings server 0 1 3 (page_0 ∷ page_1 ∷ []) page_1
unfolding get_table should_replace_frame get_table_lvl1_number table_1_from lists create_big_table
    big_rows count_present count_rows
swapped-IsFault = record {
  bound = omega arith;
  table = refl;
  row = refl;
  absent = refl;
  room = refl;
}

abbrev answered : Option (ℕ × Server)
answered = obtain_frame settings server 0 1 3

-- What `obtain_frame` leaves: the page is back in frame 1, and frame 2 is answered.
abbrev after : Server
after = record server {
  memory = record server.memory {
    tables_lvl_2 =
        some (page_0 ∷ record page_1 { present = true; use_bit = true } ∷ [])
        ∷ some (empty_row ∷ empty_row ∷ [])
        ∷ [];
  };
  files = λ pid. if pid == 3 then some (replicate 64 0) else server.files pid;
  swap_data = record { pid = 3; size = 64; offset = 0 } ∷ [];
}

obtain_frame_swapped_run : answered ≡ some (2, after)
unfolding obtain_frame get_table should_replace_frame get_table_lvl1_number table_1_from lists
    create_big_table big_rows count_present count_rows find_free_frame make_room assign_frame
    delete_frame unswap_frame_for_pcb open_file get_swap_data_for_pcb rounds unswap_search
    drop_entry save_swap put_file update_swap_data set_present get_frame_ref get_table_lvl2_number
    table_from row_of update_row
obtain_frame_swapped_run = refl

obtain_frame-swapped_example :
    (after.memory.frames ≡ server.memory.frames)
    × (2 ≢ page_1.frame)
    × ((get_elem? after.memory.frames 2 ≡ some false) ⊎ (2 ≡ uint32_max))
obtain_frame-swapped_example =
    obtain_frame-swapped settings server 0 1 3 (page_0 ∷ page_1 ∷ []) page_1 2 after swapped-IsFault
      refl (omega arith) obtain_frame_swapped_run

abbrev info : SwapData
info = record { pid = 3; size = 64; offset = 0 }

page_0-IsSwappable : IsSwappable settings server 3 0 info
unfolding get_swap_data_for_pcb get_table_lvl2_number table_from row_of
page_0-IsSwappable = record {
  data_there = refl;
  first = refl;
  room = omega arith;
  opens = refl;
  maps = refl;
  page_there = omega arith;
  address_small = omega arith;
  entry_small = omega arith;
  page_size = omega arith;
  frame_small = omega arith;
  in_table = λ e. absurd (omega (arith, e));
  buffer = refl;
}

unswap_frame_for_pcb-swap_frame_for_pcb_example :
    (s' s'' : Server) × (swap_frame_for_pcb settings server 3 0 ≡ some s')
    × (unswap_frame_for_pcb settings (record s' { main_memory = replicate 48 0 }) 3 0 ≡ some s'')
    × (s''.main_memory
        ≡ overwrite
            (12 * 0)
            (buffered settings server 3 0 info page_0-IsSwappable)
            (replicate 48 0))
    × (get_offset_for_pcb s''.swap_data 3 ≡ 0)
    × ((out_at in_at : ℕ × ℕ) × (get_frame_ref server.memory 0 ≡ some (some out_at))
        × (s'.memory ≡ update_row server.memory out_at (with_present false))
        × (get_frame_ref s'.memory 0 ≡ some (some in_at))
        × (s''.memory ≡ update_row s'.memory in_at (with_present true)))
unswap_frame_for_pcb-swap_frame_for_pcb_example =
    unswap_frame_for_pcb-swap_frame_for_pcb settings server 3 0 info page_0-IsSwappable
      (replicate 48 0) refl

-- Of twelve fives, eight come back, and four sevens stand behind them.
buffered_run : buffered settings server 3 0 info page_0-IsSwappable ≡ replicate 8 5 ++ replicate 4 7
buffered_run = refl

server-Printable : Printable server.memory.tables_lvl_2 server.memory.tables_lvl_1
unfolding print_tables big_rows get_table
server-Printable = ((page_0 ∷ page_1 ∷ empty_row ∷ empty_row ∷ []) ∷ [], refl)

no_data : get_swap_data_for_pcb server.swap_data 4 ≡ none
unfolding get_swap_data_for_pcb
no_data = refl

abbrev new_process : Pcb
new_process = record pcb { id = 4; status = PcbStatus.pcb_new }

-- Two slots, and one process that is new.
abbrev kernel : KernelState
kernel = record (on_start 2 "FIFO" 10000) {
  scheduler = record (on_start 2 "FIFO" 10000).scheduler { new = new_process ∷ [] };
}

two_slots : kernel.scheduler.dom ≡ 2
unfolding on_start new_scheduler
two_slots = refl

none_suspended : kernel.scheduler.ready_sus ≡ []
unfolding on_start new_scheduler
none_suspended = refl

exchange-admit_example :
    (answers : Bytes) × (id : ℕ) × (s' s'' : Server) × (k' : KernelState) × (exchange heap settings
        (some server)
        (page_table_request new_process)
      ≡ (answers, some s'))
    × (admit kernel (receive_page_table answers) ≡ Outcome.done k')
    × (k'.scheduler.ready ≡ kernel.scheduler.ready ++ admitted_as new_process id ∷ [])
    × (get_swap_data_for_pcb s'.swap_data 4 ≡ some (new_swap_data 4 64))
    × (exchange heap settings (some s') (swap_controller_exit (admitted_as new_process id))
        ≡ ([], some s''))
    × (s''.swap_data ≡ server.swap_data)
    × (s''.memory ≡ vacated server.memory)
    × (s''.main_memory ≡ server.main_memory)
    × ((p : ℕ) → s''.files p ≡ (if p == 4 then none else server.files p))
exchange-admit_example =
    exchange-admit heap settings server kernel new_process 1 [] two_slots none_suspended refl
      (omega arith) (omega arith) (omega arith) (omega arith) no_data server-Printable
