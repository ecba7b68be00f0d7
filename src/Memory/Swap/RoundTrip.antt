-- ===== src/Memory/Swap/RoundTrip.antt =====
-- A page that is swapped out and in again, with nothing else in the process's swap file.
use os_sski.Common.{
  ℕ, ◌+◌, ◌-◌, ◌*◌, ◌%◌, ◌<◌, ◌≤◌, ◌≡◌, ◌≢◌, refl, sym, ap, ◌∙◌, true, false, none, some, [], ◌++◌,
  arith, u32_mod, uint32_max, append_assoc, length, length-append, length-take, length-drop, take,
  drop, ltb, ◌==◌,
}
use os_sski.Wire.Word.{Bytes, put_u32, get_u32, get_u32-put_u32_small, length-put_u32}
use os_sski.Memory.Store.{overwrite}
use os_sski.Memory.Lookup.{get_table_lvl2_number, get_frame_ref, update_row}
use os_sski.Memory.Lookup.Found.{get_frame_ref-IsAt, get_table_lvl2_number-update_row}
use os_sski.Memory.Server.{SwapData, Settings, Server}
use os_sski.Memory.Swap.Copies.{
  store_bytes-fits, load_bytes-fits, length-ftruncate, rounds-one, get_swap_data-update,
  take-append, take-append_le, set_present-found,
}
use os_sski.Memory.Swap.{
  get_swap_data_for_pcb, get_offset_for_pcb, ftruncate, put_file, open_file, get_frame_address,
  swap_frame, with_present, with_offset, save_swap, swap_frame_for_pcb, frame_buffer, restore_page,
  unswap_search, drop_entry, unswap_frame_for_pcb,
}

-- What makes the first swap of a page go through: the process has swap data of a size for one entry and
-- nothing swapped out, its file can be opened and mapped, the page lies in the main memory and in a
-- table, and a new buffer has as many bytes as are asked for.
pub record IsSwappable (c : Settings) (s : Server) (pid frame : ℕ) (info : SwapData) : Type 0 where
  pub data_there : get_swap_data_for_pcb s.swap_data pid ≡ some info
  pub first : info.offset ≡ 0
  pub room : 4 + c.tam_pagina ≤ info.size
  pub opens : c.opens pid ≡ true
  pub maps : c.maps info.size ≡ true
  pub page_there : frame * c.tam_pagina + c.tam_pagina ≤ length s.main_memory
  pub address_small : frame * c.tam_pagina < u32_mod
  pub entry_small : 4 + c.tam_pagina < u32_mod
  pub page_size : 8 ≤ c.tam_pagina
  pub frame_small : frame < u32_mod
  pub in_table : get_table_lvl2_number s.memory frame ≢ uint32_max
  pub buffer : length (c.malloc c.tam_pagina) ≡ c.tam_pagina

module _ (c : Settings) (s : Server) (pid frame : ℕ) (info : SwapData)
    (w : IsSwappable c s pid frame info) where
  abbrev tam : ℕ
  tam = c.tam_pagina

  -- The page that the frame holds.
  abbrev pub page_of : Bytes
  page_of = take tam (drop (frame * tam) s.main_memory)

  abbrev entry : Bytes
  entry = put_u32 frame ++ page_of

  abbrev opened : Bytes
  opened = elim (s.files pid) [ none ↦ [] | some file ↦ file ]

  abbrev blank : Bytes
  blank = ftruncate info.size opened

  -- The file with one entry.
  abbrev one_entry : Bytes
  one_entry = entry ++ drop (length entry) blank

  length-page_of : length page_of ≡ tam
  length-page_of = omega (
    arith,
    length-take tam (drop (frame * tam) s.main_memory),
    length-drop (frame * tam) s.main_memory,
    w.page_there,
  )

  length-entry : length entry ≡ 4 + tam
  length-entry =
      omega (arith, length-append (put_u32 frame) page_of, length-put_u32 frame, length-page_of)

  swap_frame-first : swap_frame tam s.main_memory frame blank 0 ≡ some (one_entry, 4 + tam)
  unfolding swap_frame get_frame_address overwrite
  swap_frame-first =
      let address : frame * tam % u32_mod ≡ frame * tam = omega (arith, w.address_small) in
      let wrap : (0 + (4 + tam)) % u32_mod ≡ 4 + tam = omega (arith, w.entry_small) in
      rw (
        address,
        load_bytes-fits (frame * tam) tam s.main_memory w.page_there,
        store_bytes-fits 0 entry blank
            (omega (arith, length-entry, length-ftruncate info.size opened, w.room)),
        wrap,
      )

  abbrev saved : Server
  saved = save_swap s pid one_entry (4 + tam)

  abbrev out_ref : ℕ × ℕ
  out_ref = (get_frame_ref-IsAt s.memory frame w.in_table).0

  abbrev swapped_out : Server
  swapped_out = record saved { memory = update_row s.memory out_ref (with_present false) }

  swap_frame_for_pcb-first : swap_frame_for_pcb c s pid frame ≡ some swapped_out
  unfolding swap_frame_for_pcb open_file save_swap put_file
  swap_frame_for_pcb-first =
      rw (w.data_there, w.opens, w.maps, w.first, swap_frame-first, swap_frame_for_pcb)
        (set_present-found saved frame false w.in_table)

  length-one_entry : length one_entry ≡ info.size
  length-one_entry = omega (
    arith,
    length-append entry (drop (length entry) blank),
    length-drop (length entry) blank,
    length-entry,
    length-ftruncate info.size opened,
    w.room,
  )

  behind_header : drop 4 one_entry ≡ page_of ++ drop (length entry) blank
  unfolding put_u32
  behind_header = refl

  read_header : get_u32 one_entry ≡ some (frame, page_of ++ drop (length entry) blank)
  read_header =
      rw (append_assoc (put_u32 frame) page_of (drop (length entry) blank))
        (get_u32-put_u32_small frame (page_of ++ drop (length entry) blank) w.frame_small)

  -- What a buffer of a page holds after eight bytes of the entry's page have been copied into it.
  abbrev pub buffered : Bytes
  buffered = take 8 page_of ++ drop 8 (c.malloc tam)

  length-eight : length (take 8 page_of) ≡ 8
  length-eight = omega (arith, length-take 8 page_of, length-page_of, w.page_size)

  length-buffered : length buffered ≡ tam
  length-buffered = omega (
    arith,
    length-append (take 8 page_of) (drop 8 (c.malloc tam)),
    length-eight,
    length-drop 8 (c.malloc tam),
    w.buffer,
    w.page_size,
  )

  frame_buffer-entry : frame_buffer c one_entry 4 ≡ some buffered
  unfolding frame_buffer overwrite
  frame_buffer-entry =
      let inside : 4 + 8 ≤ length one_entry =
        omega (arith, length-one_entry, w.room, w.page_size) in
      let head : take 8 (drop 4 one_entry) ≡ take 8 page_of =
        ap (λ (xs : Bytes). take 8 xs) behind_header
        ∙ take-append_le 8 page_of (drop (length entry) blank)
            (omega (arith, length-page_of, w.page_size)) in
      rw (
        load_bytes-fits 4 8 one_entry inside,
        head,
        store_bytes-fits 0 (take 8 page_of) (c.malloc tam)
            (omega (arith, length-eight, w.buffer, w.page_size)),
        length-eight,
      )

  module _ (main : Bytes) (same : length main ≡ length s.main_memory) where
    abbrev restored : Bytes
    restored = overwrite (tam * frame) buffered main

    restore_page-entry : restore_page c main one_entry frame 0 ≡ some restored
    unfolding restore_page
    restore_page-entry =
        let fits : tam * frame + length buffered ≤ length main =
          omega (arith, length-buffered, w.page_there, same) in
        rw (frame_buffer-entry, store_bytes-fits (tam * frame) buffered main fits)

    unswap_search-entry : unswap_search c main one_entry frame 1 0 ≡ some (restored, 0)
    unfolding unswap_search
    unswap_search-entry =
        let here : (frame == frame) ≡ true = ground arith in
        rw (read_header, here, restore_page-entry)

    abbrev moved_entry : Bytes
    moved_entry = overwrite 0 page_of one_entry

    drop_entry-one : drop_entry tam one_entry (4 + tam) 0 ≡ some (moved_entry, 0)
    unfolding drop_entry
    drop_entry-one =
        let more : ltb tam (4 + tam) ≡ true = ground arith in
        let start : (4 + tam) - tam ≡ 4 = omega arith in
        let wrap : (4 + tam + u32_mod - (tam + 4)) % u32_mod ≡ 0 = omega arith in
        let page : take tam (drop 4 one_entry) ≡ page_of =
          ap (λ (xs : Bytes). take tam xs) behind_header
          ∙ ap (λ (n : ℕ). take n (page_of ++ drop (length entry) blank)) (sym length-page_of)
          ∙ take-append page_of (drop (length entry) blank) in
        rw (
          more,
          start,
          load_bytes-fits 4 tam one_entry (omega (arith, length-one_entry, w.room)),
          page,
          store_bytes-fits 0 page_of one_entry
              (omega (arith, length-one_entry, length-page_of, w.room)),
          wrap,
        )

    abbrev changed : Server
    changed = record swapped_out { main_memory = main }

    still_there : get_table_lvl2_number changed.memory frame ≢ uint32_max
    still_there =
        rw
          (get_table_lvl2_number-update_row s.memory frame out_ref
            (get_frame_ref-IsAt s.memory frame w.in_table).1 (with_present false) frame refl)
          w.in_table

    abbrev in_ref : ℕ × ℕ
    in_ref = (get_frame_ref-IsAt changed.memory frame still_there).0

    abbrev emptied : Server
    emptied = record (save_swap changed pid moved_entry 0) { main_memory = restored }

    abbrev swapped_in : Server
    swapped_in = record emptied { memory = update_row changed.memory in_ref (with_present true) }

    saved_info : get_swap_data_for_pcb changed.swap_data pid ≡ some (with_offset (4 + tam) info)
    unfolding save_swap put_file
    saved_info = get_swap_data-update s.swap_data pid (4 + tam) info w.data_there

    saved_file : open_file c changed pid ≡ some one_entry
    unfolding open_file save_swap put_file
    saved_file = let here : (pid == pid) ≡ true = ground arith in rw (w.opens, here)

    unswap_frame_for_pcb-second : unswap_frame_for_pcb c changed pid frame ≡ some swapped_in
    unfolding unswap_frame_for_pcb
    unswap_frame_for_pcb-second =
        rw
          (
            saved_file,
            saved_info,
            w.maps,
            rounds-one tam,
            unswap_search-entry,
            drop_entry-one,
            unswap_frame_for_pcb,
          )
          (set_present-found emptied frame true still_there)

    -- A page of at least eight bytes is swapped out into the empty swap file of its process, the main
    -- memory is written over, and the page is swapped in again: both succeed, the page is not present in
    -- between and present afterwards, and the file's entry is given up; of the page only the first eight
    -- bytes are restored, and the rest of its frame gets what the allocator left in the buffer.
    pub unswap_frame_for_pcb-swap_frame_for_pcb :
        (s' s'' : Server) × (swap_frame_for_pcb c s pid frame ≡ some s')
        × (unswap_frame_for_pcb c (record s' { main_memory = main }) pid frame ≡ some s'')
        × (s''.main_memory ≡ overwrite (tam * frame) buffered main)
        × (get_offset_for_pcb s''.swap_data pid ≡ 0)
        × ((out_at in_at : ℕ × ℕ) × (get_frame_ref s.memory frame ≡ some (some out_at))
            × (s'.memory ≡ update_row s.memory out_at (with_present false))
            × (get_frame_ref s'.memory frame ≡ some (some in_at))
            × (s''.memory ≡ update_row s'.memory in_at (with_present true)))
    unfolding save_swap put_file get_offset_for_pcb
    unswap_frame_for_pcb-swap_frame_for_pcb = (
      swapped_out,
      swapped_in,
      swap_frame_for_pcb-first,
      unswap_frame_for_pcb-second,
      refl,
      rw (
        get_swap_data-update changed.swap_data pid 0 (with_offset (4 + tam) info) saved_info,
        get_offset_for_pcb,
      ),
      (
        out_ref,
        in_ref,
        (get_frame_ref-IsAt s.memory frame w.in_table).1.found,
        refl,
        (get_frame_ref-IsAt changed.memory frame still_there).1.found,
        refl,
      ),
    )
