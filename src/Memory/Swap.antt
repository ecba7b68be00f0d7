-- ===== src/Memory/Swap.antt =====
-- memory/src/module/swap.c and fs.c, with the swap data of os_memory.c: one file for each process, in
-- which each entry is a frame's number and the page it held.
-- A file is mapped whole; `none` is an access outside a mapping, a null reference or an overrun buffer.
pub mod Frames
pub mod Copies
pub mod RoundTrip
use os_sski.Common.{
  ℕ, zero, suc, ◌+◌, ◌-◌, ◌*◌, ◌/◌, ◌%◌, Bool, true, false, not, ◌&&◌, Option, none, some, List, [],
  ◌∷◌, ◌++◌, ◌>>=◌, u32_mod, length, take, drop, replicate, ltb, leb, ◌==◌, if◌then◌else◌,
}
use os_sski.Wire.Word.{Bytes, put_u32, get_u32}
use os_sski.Wire.Pcb.{Pcb}
use os_sski.Memory.Table.{Row, invalid_frame}
use os_sski.Memory.Store.{overwrite}
use os_sski.Memory.Process.{Memory}
use os_sski.Memory.Lookup.{
  get_frame_ref, get_row, update_row, get_frames_used_size, create_big_table,
}
use os_sski.Memory.Server.{SwapData, Settings, Server}

unfoldable pub get_swap_data_for_pcb : List SwapData → ℕ → Option SwapData
get_swap_data_for_pcb [] pid = none
get_swap_data_for_pcb (d ∷ rest) pid =
    let later = get_swap_data_for_pcb rest pid in if d.pid == pid then some d else later

-- A write through the reference that `get_swap_data_for_pcb` answers.
unfoldable pub update_swap_data : List SwapData → ℕ → (SwapData → SwapData) → List SwapData
update_swap_data [] pid change = []
update_swap_data (d ∷ rest) pid change =
    let later = update_swap_data rest pid change in
    if d.pid == pid then change d ∷ rest else d ∷ later

unfoldable pub get_offset_for_pcb : List SwapData → ℕ → ℕ
unfolding get_swap_data_for_pcb
get_offset_for_pcb infos pid = elim (get_swap_data_for_pcb infos pid) [
  | none ↦ 0
  | some d ↦ d.offset
]

-- The index of the first match is looked for, then that element is removed.
unfoldable pub delete_swap_data : List SwapData → ℕ → List SwapData
delete_swap_data [] pid = []
delete_swap_data (d ∷ rest) pid =
    let later = delete_swap_data rest pid in if d.pid == pid then rest else d ∷ later

unfoldable pub new_swap_data : ℕ → ℕ → SwapData
new_swap_data pid size = record { pid = pid; size = size; offset = 0 }

unfoldable pub ftruncate : ℕ → Bytes → Bytes
ftruncate size file = take size file ++ replicate (size - length file) 0

-- memcpy into and out of a mapping or the main memory.
unfoldable pub store_bytes : ℕ → Bytes → Bytes → Option Bytes
unfolding overwrite
store_bytes at src dst =
    if leb (at + length src) (length dst) then some (overwrite at src dst) else none

unfoldable pub load_bytes : ℕ → ℕ → Bytes → Option Bytes
load_bytes at size src =
    if leb (at + size) (length src) then some (take size (drop at src)) else none

unfoldable pub put_file : Server → ℕ → Option Bytes → Server
put_file s pid file = record s { files = λ p. if p == pid then file else s.files p }

-- The file that is opened, made empty when it is not there.
unfoldable pub open_file : Settings → Server → ℕ → Option Bytes
open_file c s pid =
    if c.opens pid then some (elim (s.files pid) [ none ↦ [] | some file ↦ file ]) else none

-- What was there is removed first.
unfoldable pub create_file : Settings → Server → ℕ → ℕ → Option Server
unfolding ftruncate store_bytes put_file
create_file c s pid size =
    let blank = ftruncate size [] in
    if not (c.opens pid)
    then some (put_file s pid none)
    else if not (c.maps size)
    then some (put_file s pid (some blank))
    else do file ← store_bytes 0 (put_u32 pid) blank; some (put_file s pid (some file))

unfoldable pub delete_swap_file : Server → ℕ → Server
unfolding put_file
delete_swap_file s pid = put_file s pid none

unfoldable pub get_frame_address : ℕ → ℕ → ℕ
get_frame_address tam_pagina frame = frame * tam_pagina % u32_mod

-- The file and the offset afterwards.
unfoldable pub swap_frame : ℕ → Bytes → ℕ → Bytes → ℕ → Option (Bytes × ℕ)
unfolding get_frame_address load_bytes store_bytes
swap_frame tam_pagina main frame file offset = do
  page ← load_bytes (get_frame_address tam_pagina frame) tam_pagina main
  file ← store_bytes offset (put_u32 frame ++ page) file
  some (file, (offset + (4 + tam_pagina)) % u32_mod)

abbrev pub with_present : Bool → Row → Row
with_present b r = record r { present = b }

-- The reference is written through unconditionally.
unfoldable pub set_present : Server → ℕ → Bool → Option Server
unfolding get_frame_ref update_row
set_present s frame b = do
  found ← get_frame_ref s.memory frame
  ref ← found
  some (record s { memory = update_row s.memory ref (with_present b) })

abbrev pub with_offset : ℕ → SwapData → SwapData
with_offset offset d = record d { offset = offset }

unfoldable pub save_swap : Server → ℕ → Bytes → ℕ → Server
unfolding put_file update_swap_data
save_swap s pid file offset = record (put_file s pid (some file)) {
  swap_data = update_swap_data s.swap_data pid (with_offset offset);
}

unfoldable pub swap_frame_for_pcb : Settings → Server → ℕ → ℕ → Option Server
unfolding get_swap_data_for_pcb open_file ftruncate put_file swap_frame save_swap set_present
swap_frame_for_pcb c s pid frame = elim (get_swap_data_for_pcb s.swap_data pid) [
  | none ↦ some s
  | some info ↦ elim (open_file c s pid) [
    | none ↦ some s
    | some opened ↦
        let file = ftruncate info.size opened in
        if not (c.maps info.size) then some (put_file s pid (some file)) else do
          (file, offset) ← swap_frame c.tam_pagina s.main_memory frame file info.offset
          set_present (save_swap s pid file offset) frame false
  ]
]

-- The loop over the big table; the file and the offset.
unfoldable pub swap_rows : ℕ → Bytes → List Row → Bytes → ℕ → Option (Bytes × ℕ)
unfolding swap_frame
swap_rows tam_pagina main [] file offset = some (file, offset)
swap_rows tam_pagina main (r ∷ rows) file offset = do
  (file, offset) ←
      (if not (r.frame == invalid_frame) && r.present
        then swap_frame tam_pagina main r.frame file offset
        else some (file, offset))
  swap_rows tam_pagina main rows file offset

abbrev pub with_size : ℕ → SwapData → SwapData
with_size size d = record d { size = size }

-- `swap_pcb` after the PCB is recovered from its stream. The offset it moves is its own copy.
unfoldable pub swap_pcb : Settings → Server → Pcb → Option Server
unfolding get_frames_used_size create_big_table get_offset_for_pcb open_file ftruncate put_file
    swap_rows get_swap_data_for_pcb update_swap_data
swap_pcb c s pcb = elim (open_file c s pcb.id) [
  | none ↦ some s
  | some opened ↦ do
    used ← get_frames_used_size s.memory c.tam_pagina pcb.page_table
    let size = if ltb used pcb.size then pcb.size else used
    let file = ftruncate size opened
    if not (c.maps size) then some (put_file s pcb.id (some file)) else do
      rows ← create_big_table s.memory pcb.page_table
      (file, offset) ←
          swap_rows c.tam_pagina s.main_memory rows file (get_offset_for_pcb s.swap_data pcb.id)
      info ← get_swap_data_for_pcb s.swap_data pcb.id
      some (record (put_file s pcb.id (some file)) {
        swap_data = update_swap_data s.swap_data pcb.id (with_size size);
      })
]

-- `size_t` is eight bytes wide, and so much is copied into a new buffer of a page: the rest of the buffer
-- is what the allocator left there.
unfoldable pub frame_buffer : Settings → Bytes → ℕ → Option Bytes
unfolding load_bytes store_bytes
frame_buffer c file at = do head ← load_bytes at 8 file; store_bytes 0 head (c.malloc c.tam_pagina)

-- The page of a frame is written from the buffer.
unfoldable pub restore_page : Settings → Bytes → Bytes → ℕ → ℕ → Option Bytes
unfolding frame_buffer store_bytes
restore_page c main file frame at = do
  page ← frame_buffer c file (at + 4)
  store_bytes (c.tam_pagina * frame) page main

-- How many rounds a loop by `swap_entry` steps below `offset` has.
unfoldable pub rounds : ℕ → ℕ → ℕ
rounds tam_pagina offset = (offset + (tam_pagina + 3)) / (tam_pagina + 4)

-- The loop of `unswap_frame_for_pcb`, with the rounds left, from index `i` on: the main memory and the
-- index to replace.
unfoldable pub unswap_search : Settings → Bytes → Bytes → ℕ → ℕ → ℕ → Option (Bytes × ℕ)
unfolding restore_page
unswap_search c main file frame zero i = some (main, 0)
unswap_search c main file frame (suc n) i = do
  (swapped, _) ← get_u32 (drop i file)
  if swapped == frame
      then (do main ← restore_page c main file frame i; some (main, i))
      else unswap_search c main file frame n (i + (c.tam_pagina + 4))

-- What becomes of the file and of the offset behind the loop.
unfoldable pub drop_entry : ℕ → Bytes → ℕ → ℕ → Option (Bytes × ℕ)
unfolding load_bytes store_bytes
drop_entry tam_pagina file offset at =
    if ltb tam_pagina offset
    then (do
      page ← load_bytes (offset - tam_pagina) tam_pagina file
      file ← store_bytes at page file
      some (file, (offset + u32_mod - (tam_pagina + 4)) % u32_mod))
    else some (file, 0)

unfoldable pub unswap_frame_for_pcb : Settings → Server → ℕ → ℕ → Option Server
unfolding open_file get_swap_data_for_pcb put_file rounds unswap_search drop_entry save_swap
    set_present
unswap_frame_for_pcb c s pid frame = elim (open_file c s pid) [
  | none ↦ some s
  | some file ↦ do
    info ← get_swap_data_for_pcb s.swap_data pid
    if not (c.maps info.size) then some (put_file s pid (some file)) else do
      (main, at) ← unswap_search c s.main_memory file frame (rounds c.tam_pagina info.offset) 0
      (file, offset) ← drop_entry c.tam_pagina file info.offset at
      set_present (record (save_swap s pid file offset) { main_memory = main }) frame true
]

-- The loop of `unswap_pcb`, with the rounds left: the main memory and the offset. A frame that is not
-- present ends it, since the offset becomes the next index.
unfoldable pub unswap_rows : Settings → Memory → Bytes → Bytes → ℕ → ℕ → ℕ → Option (Bytes × ℕ)
unfolding get_frame_ref restore_page
unswap_rows c memory file main offset zero i = some (main, offset)
unswap_rows c memory file main offset (suc n) i = do
  (swapped, _) ← get_u32 (drop i file)
  found ← get_frame_ref memory swapped
  ref ← found
  r ← get_row memory ref
  if r.present
      then (do
        main ← restore_page c main file r.frame i
        unswap_rows c memory file main offset n (i + (c.tam_pagina + 4)))
      else some (main, (i + (c.tam_pagina + 4)) % u32_mod)

unfoldable pub unswap_pcb : Settings → Server → ℕ → Option Server
unfolding get_swap_data_for_pcb open_file put_file rounds unswap_rows save_swap
unswap_pcb c s pid = elim (open_file c s pid) [
  | none ↦ some s
  | some file ↦ do
    info ← get_swap_data_for_pcb s.swap_data pid
    if not (c.maps info.size) then some (put_file s pid (some file)) else do
      (main, offset) ←
          unswap_rows c s.memory file s.main_memory info.offset (rounds c.tam_pagina info.offset) 0
      some (record (save_swap s pid file offset) { main_memory = main })
]
