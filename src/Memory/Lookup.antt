-- ===== src/Memory/Lookup.antt =====
-- memory/src/module/os_memory.c, page_table.c: the searches for a frame among the second-level tables,
-- and the rows of a process in a line. A table has `max_rows` rows, over which the loops go.
pub mod Found
use os_sski.Common.{
  ℕ, zero, suc, ◌+◌, Bool, true, false, Option, none, some, List, [], ◌∷◌, ◌++◌, ◌>>=◌, get_elem?,
  set, take, drop, length, u32_mod, ◌%◌, ◌==◌, if◌then◌else◌,
}
use os_sski.Memory.Table.{Row, invalid_frame}
use os_sski.Memory.Process.{Memory, get_table}

-- The loop over the rows of one table, from index `j` on.
unfoldable pub row_of : ℕ → ℕ → List Row → Option ℕ
row_of frame j [] = none
row_of frame j (r ∷ rows) =
    let later = row_of frame (j + 1) rows in if r.frame == frame then some j else later

-- The loop over the tables, from index `i` on.
unfoldable pub table_from : ℕ → ℕ → List (Option (List Row)) → ℕ
unfolding row_of
table_from frame i [] = invalid_frame
table_from frame i (none ∷ tables) = table_from frame (i + 1) tables
table_from frame i (some rows ∷ tables) =
    let later = table_from frame (i + 1) tables in
    elim (row_of frame 0 rows) [ some j ↦ i | none ↦ later ]

unfoldable pub get_table_lvl2_number : Memory → ℕ → ℕ
unfolding table_from
get_table_lvl2_number memory frame = table_from frame 0 memory.tables_lvl_2

-- A reference is the table and the row in it; `some none` is the null reference, and `none` a null
-- table that is read.
unfoldable pub get_frame_ref : Memory → ℕ → Option (Option (ℕ × ℕ))
unfolding get_table_lvl2_number row_of get_table
get_frame_ref memory frame =
    let id = get_table_lvl2_number memory frame in
    elim (get_table memory.tables_lvl_2 id) [
      | none ↦ if memory.max_rows == 0 then some none else none
      | some rows ↦ elim (row_of frame 0 rows) [ none ↦ some none | some j ↦ some (some (id, j)) ]
    ]

-- A read through a reference.
unfoldable pub get_row : Memory → ℕ × ℕ → Option Row
unfolding get_table
get_row memory ref = do rows ← get_table memory.tables_lvl_2 ref.0; get_elem? rows ref.1

-- A write through a reference.
unfoldable pub update_row : Memory → ℕ × ℕ → (Row → Row) → Memory
unfolding get_table
update_row memory ref change = elim (get_table memory.tables_lvl_2 ref.0) [
  | none ↦ memory
  | some rows ↦ elim (get_elem? rows ref.1) [
    | none ↦ memory
    | some r ↦ record memory {
      tables_lvl_2 = set memory.tables_lvl_2 ref.0 (some (set rows ref.1 (change r)));
    }
  ]
]

-- The rows of the tables that a first-level table lists; `none`: one of them is null.
unfoldable pub big_rows : List (Option (List Row)) → List ℕ → Option (List Row)
unfolding get_table
big_rows tables [] = some []
big_rows tables (id ∷ ids) = do
  rows ← get_table tables id
  rest ← big_rows tables ids
  some (rows ++ rest)

-- Every caller reads all the rows that the big table points to.
unfoldable pub create_big_table : Memory → ℕ → Option (List Row)
unfolding get_table big_rows
create_big_table memory id = do
  ids ← get_table memory.tables_lvl_1 id
  big_rows memory.tables_lvl_2 ids

-- What is written through the pointers of a big table, table by table.
unfoldable pub put_rows :
    ℕ → List ℕ → List Row → List (Option (List Row)) → List (Option (List Row))
put_rows rows [] line tables = tables
put_rows rows (id ∷ ids) line tables =
    put_rows rows ids (drop rows line) (set tables id (some (take rows line)))

-- The loop of `get_frames_used_size`, over the rows, with the size so far.
unfoldable pub used_size : ℕ → ℕ → List Row → ℕ
used_size tam_pagina size [] = size
used_size tam_pagina size (r ∷ rows) =
    used_size tam_pagina
      (if r.frame == invalid_frame then size else (size + tam_pagina + 4) % u32_mod) rows

unfoldable pub get_frames_used_size : Memory → ℕ → ℕ → Option ℕ
unfolding create_big_table used_size
get_frames_used_size memory tam_pagina id = do
  rows ← create_big_table memory id
  some (used_size tam_pagina 0 rows)
