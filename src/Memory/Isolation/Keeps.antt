-- ===== src/Memory/Isolation/Keeps.antt =====
-- Marking, swapping and choosing a victim leave every page in its frame.
pub mod Shape
pub mod Select
use os_sski.Common.{
  ℕ, zero, suc, ◌≡◌, refl, sym, ap, ◌∙◌, inl, inr, Bool, true, false, not, Option, none, some, List,
  [], ◌∷◌, map, arith, ◌>>=◌, >>=-eq-some, get_elem?, set, Option-cases, Bool-cases, if◌then◌else◌,
  ◌==◌,
}
use os_sski.Wire.Word.{Bytes}
use os_sski.Memory.Table.{Row}
use os_sski.Memory.Process.{Memory, get_table}
use os_sski.Memory.Lookup.{update_row, get_frame_ref, get_table_lvl2_number}
use os_sski.Memory.Server.{SwapData, Settings, Server}
use os_sski.Memory.Swap.{
  with_present, set_present, save_swap, put_file, open_file, get_swap_data_for_pcb, ftruncate,
  swap_frame, swap_frame_for_pcb, rounds, unswap_search, drop_entry, unswap_frame_for_pcb,
  unswap_rows, unswap_pcb,
}
use os_sski.Memory.CpuController.{with_modified, mark, leave, replace_frame}
use os_sski.Memory.Isolation.{
  frame_of, frames_of, view, IsKept, IsKept-self, IsKept-twice, view-put,
}

pub get_table-eq {ℓ} :
    {A : Type ℓ} (tables : List (Option A)) (i : ℕ) (a : A)
    → get_table tables i ≡ some a
    → get_elem? tables i ≡ some (some a)
unfolding get_table
get_table-eq tables i a h =
    let (slot, there, same) = >>=-eq-some (get_elem? tables i) _ h in
    there ∙ ap (λ (x : Option _). some x) same

map-set :
    (rows : List Row) (j : ℕ) (r q : Row)
    → get_elem? rows j ≡ some r
    → q.frame ≡ r.frame
    → map frame_of (set rows j q) ≡ map frame_of rows
map-set [] j r q h same = refl
map-set (x ∷ rows) zero r q h same = ground arith
map-set (x ∷ rows) (suc j) r q h same =
    ap (λ (fs : List ℕ). x.frame ∷ fs) (map-set rows j r q h same)

pub put-IsKept :
    (m : Memory) (i : ℕ) (rows rows' : List Row)
    → get_table m.tables_lvl_2 i ≡ some rows
    → map frame_of rows' ≡ map frame_of rows
    → IsKept m (record m { tables_lvl_2 = set m.tables_lvl_2 i (some rows') })
put-IsKept m i rows rows' h same = record {
  pages = view-put m.tables_lvl_2 i rows rows' (get_table-eq m.tables_lvl_2 i rows h) same;
  frames = refl;
  rows = refl;
}

-- A write through a reference that leaves the frame.
pub update_row-IsKept :
    (m : Memory) (ref : ℕ × ℕ) (change : Row → Row)
    → ((r : Row) → (change r).frame ≡ r.frame)
    → IsKept m (update_row m ref change)
unfolding update_row
update_row-IsKept m ref change same = elim (Option-cases (get_table m.tables_lvl_2 ref.0)) [
  | inl missing ↦ rw (missing, update_row) (IsKept-self m)
  | inr (rows, there) ↦ elim (Option-cases (get_elem? rows ref.1)) [
    | inl outside ↦ rw (there, outside, update_row) (IsKept-self m)
    | inr (r, row) ↦
        rw (there, row, update_row)
          (put-IsKept m ref.0 rows (set rows ref.1 (change r)) there
            (map-set rows ref.1 r (change r) row (same r)))
  ]
]

-- An operation that succeeds with a state that is known.
pub IsKept-eq_memory :
    {m : Memory} (s s' : Server)
    → ◌≡◌ {A = Option Server} (some s) (some s')
    → IsKept m s.memory
    → IsKept m s'.memory
IsKept-eq_memory {m = m} s s' h k = let same : s ≡ s' = ground (arith, h) in rw same at k

pub IsKept-eq :
    (s s' : Server) → ◌≡◌ {A = Option Server} (some s) (some s') → IsKept s.memory s'.memory
IsKept-eq s s' h = IsKept-eq_memory s s' h (IsKept-self s.memory)

set_present-IsKept :
    (s s' : Server) (frame : ℕ) (b : Bool)
    → set_present s frame b ≡ some s'
    → IsKept s.memory s'.memory
unfolding set_present
set_present-IsKept s s' frame b h =
    let (found, _, h) = >>=-eq-some (get_frame_ref s.memory frame) _ h in
    let (ref, _, h) = >>=-eq-some found _ h in
    IsKept-eq_memory _ s' h (update_row-IsKept s.memory ref (with_present b) (λ r. refl))

pub swap_frame_for_pcb-IsKept :
    (c : Settings) (s s' : Server) (pid frame : ℕ)
    → swap_frame_for_pcb c s pid frame ≡ some s'
    → IsKept s.memory s'.memory
unfolding swap_frame_for_pcb save_swap put_file
swap_frame_for_pcb-IsKept c s s' pid frame h =
    elim (Option-cases (get_swap_data_for_pcb s.swap_data pid)) [
      | inl missing ↦ IsKept-eq s s' (rw (missing, swap_frame_for_pcb) at h)
      | inr (info, there) ↦ elim (Option-cases (open_file c s pid)) [
        | inl closed ↦ IsKept-eq s s' (rw (there, closed, swap_frame_for_pcb) at h)
        | inr (opened, is_open) ↦ elim (Bool-cases (c.maps info.size)) [
          | inr fails ↦
              IsKept-eq (put_file s pid (some (ftruncate info.size opened))) s'
                (rw (there, is_open, fails, swap_frame_for_pcb) at h)
          | inl maps ↦
              let h = rw (there, is_open, maps, swap_frame_for_pcb) at h in
              let ((file, offset), _, h) =
                >>=-eq-some
                  (swap_frame c.tam_pagina s.main_memory frame (ftruncate info.size opened)
                    info.offset)
                  _ h in
              set_present-IsKept (save_swap s pid file offset) s' frame false h
        ]
      ]
    ]

pub unswap_frame_for_pcb-IsKept :
    (c : Settings) (s s' : Server) (pid frame : ℕ)
    → unswap_frame_for_pcb c s pid frame ≡ some s'
    → IsKept s.memory s'.memory
unfolding unswap_frame_for_pcb save_swap put_file
unswap_frame_for_pcb-IsKept c s s' pid frame h = elim (Option-cases (open_file c s pid)) [
  | inl closed ↦ IsKept-eq s s' (rw (closed, unswap_frame_for_pcb) at h)
  | inr (file, opened) ↦
      let h = rw (opened, unswap_frame_for_pcb) at h in
      let (info, _, h) = >>=-eq-some (get_swap_data_for_pcb s.swap_data pid) _ h in
      elim (Bool-cases (c.maps info.size)) [
        | inl maps ↦
            let h = rw maps at h in
            let ((main, at), _, h) =
              >>=-eq-some
                (unswap_search c s.main_memory file frame (rounds c.tam_pagina info.offset) 0) _
                h in
            let ((file', offset), _, h) =
              >>=-eq-some (drop_entry c.tam_pagina file info.offset at) _ h in
            set_present-IsKept (record (save_swap s pid file' offset) { main_memory = main }) s'
              frame true h
        | inr fails ↦ IsKept-eq (put_file s pid (some file)) s' (rw fails at h)
      ]
]

pub unswap_pcb-IsKept :
    (c : Settings) (s s' : Server) (pid : ℕ)
    → unswap_pcb c s pid ≡ some s'
    → IsKept s.memory s'.memory
unfolding unswap_pcb save_swap put_file
unswap_pcb-IsKept c s s' pid h = elim (Option-cases (open_file c s pid)) [
  | inl closed ↦ IsKept-eq s s' (rw (closed, unswap_pcb) at h)
  | inr (file, opened) ↦
      let h = rw (opened, unswap_pcb) at h in
      let (info, _, h) = >>=-eq-some (get_swap_data_for_pcb s.swap_data pid) _ h in
      elim (Bool-cases (c.maps info.size)) [
        | inl maps ↦
            let h = rw maps at h in
            let ((main, offset), _, h) =
              >>=-eq-some
                (unswap_rows c s.memory file s.main_memory info.offset
                  (rounds c.tam_pagina info.offset) 0)
                _ h in
            IsKept-eq (record (save_swap s pid file offset) { main_memory = main }) s' h
        | inr fails ↦ IsKept-eq (put_file s pid (some file)) s' (rw fails at h)
      ]
]

pub mark-IsKept : (m m' : Memory) (frame : ℕ) (b : Bool) → mark m frame b ≡ some m' → IsKept m m'
unfolding mark
mark-IsKept m m' frame b h =
    let (found, _, h) = >>=-eq-some (get_frame_ref m frame) _ h in marked found h
  where
    marked :
        (found : Option (ℕ × ℕ))
        → some (elim found as (λ _. Memory) [
          | none ↦ m
          | some ref ↦ update_row m ref (with_modified b)
        ])
          ≡ some m'
        → IsKept m m'
    marked none h = let same : m ≡ m' = ground (arith, h) in rw (← same) (IsKept-self m)
    marked (some ref) h =
        let same : update_row m ref (with_modified b) ≡ m' = ground (arith, h) in
        rw same at (update_row-IsKept m ref (with_modified b) (λ r. refl))

leave-frames :
    (frame : ℕ) (rows : List Row) → map frame_of (map (leave frame) rows) ≡ map frame_of rows
unfolding leave
leave-frames frame [] = refl
leave-frames frame (r ∷ rows) = ground (arith, leave-frames frame rows)

pub replace_frame-IsKept :
    (c : Settings) (s s' : Server) (pid frame : ℕ)
    → replace_frame c s pid frame ≡ some s'
    → IsKept s.memory s'.memory
unfolding replace_frame
replace_frame-IsKept c s s' pid frame h =
    let id = get_table_lvl2_number s.memory frame in
    let (rows, there, h) = >>=-eq-some (get_table s.memory.tables_lvl_2 id) _ h in
    let left = record s {
      memory = record s.memory {
        tables_lvl_2 = set s.memory.tables_lvl_2 id (some (map (leave frame) rows));
      };
    } in
    IsKept-twice s.memory left.memory s'.memory
      (put-IsKept s.memory id rows (map (leave frame) rows) there (leave-frames frame rows))
      (swap_frame_for_pcb-IsKept c left s' pid frame h)
