-- ===== src/Memory/Swap/Frames.antt =====
-- Swapping a page in or out moves no frame: the frames that are taken stay.
use os_sski.Common.{
  ℕ, ◌≡◌, inl, inr, Bool, true, some, arith, >>=-eq-some, get_elem?, Option-cases, Bool-cases,
}
use os_sski.Memory.Table.{Row}
use os_sski.Memory.Process.{Memory, get_table}
use os_sski.Memory.Lookup.{update_row, get_frame_ref}
use os_sski.Memory.Server.{Settings, Server}
use os_sski.Memory.Swap.{
  with_present, set_present, save_swap, put_file, open_file, get_swap_data_for_pcb, rounds,
  unswap_search, drop_entry, unswap_frame_for_pcb,
}

pub update_row-frames :
    (m : Memory) (ref : ℕ × ℕ) (change : Row → Row) → (update_row m ref change).frames ≡ m.frames
unfolding update_row
update_row-frames m ref change = elim (Option-cases (get_table m.tables_lvl_2 ref.0)) [
  | inl missing ↦ rw (missing, update_row)
  | inr (rows, there) ↦ elim (Option-cases (get_elem? rows ref.1)) [
    | inl outside ↦ rw (there, outside, update_row)
    | inr (r, row) ↦ rw (there, row, update_row)
  ]
]

set_present-frames :
    (s s' : Server) (frame : ℕ) (b : Bool)
    → set_present s frame b ≡ some s'
    → s'.memory.frames ≡ s.memory.frames
unfolding set_present
set_present-frames s s' frame b h =
    let (found, _, h) = >>=-eq-some (get_frame_ref s.memory frame) _ h in
    let (ref, _, h) = >>=-eq-some found _ h in
    ground (arith, h, update_row-frames s.memory ref (with_present b))

pub unswap_frame_for_pcb-frames :
    (c : Settings) (s s' : Server) (pid frame : ℕ)
    → unswap_frame_for_pcb c s pid frame ≡ some s'
    → s'.memory.frames ≡ s.memory.frames
unfolding unswap_frame_for_pcb save_swap put_file
unswap_frame_for_pcb-frames c s s' pid frame h = elim (Option-cases (open_file c s pid)) [
  | inl closed ↦ ground (arith, h, closed)
  | inr (file, opened) ↦
      let h = rw (opened, unswap_frame_for_pcb) at h in
      let (info, _, h) = >>=-eq-some (get_swap_data_for_pcb s.swap_data pid) _ h in
      elim (Bool-cases (c.maps info.size)) [
        | inl maps ↦
            let h = rw maps at h in
            let ((main, at), _, h) =
              >>=-eq-some
                (unswap_search c s.main_memory file frame (rounds c.tam_pagina info.offset) 0) _
                h in
            let ((file', offset), _, h) =
              >>=-eq-some (drop_entry c.tam_pagina file info.offset at) _ h in
            set_present-frames (record (save_swap s pid file' offset) { main_memory = main }) s'
              frame true h
        | inr fails ↦ ground (arith, h, fails)
      ]
]
