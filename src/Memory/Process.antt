-- ===== src/Memory/Process.antt =====
-- The tables of a process: create_new_process and delete_process of memory/src/module/os_memory.c,
-- over the two repositories of tables. A slot that holds the null pointer is `none`, as is what
-- `list_get` answers outside the list.
pub mod Fresh
pub mod Release
use os_sski.Common.{
  ℕ, zero, suc, ◌+◌, Bool, true, false, Option, none, some, List, [], ◌∷◌, ◌++◌, uint32_max, ◌>>=◌,
  length, get_elem?, set, ltb, ◌==◌, if◌then◌else◌,
}
use os_sski.Memory.Table.{Row, invalid_frame, new_page_table_lvl2}
use os_sski.Memory.Frames.{delete_frame}

-- The part of memory_t that the tables' operations use.
pub record Memory : Type 0 where
  pub max_rows : ℕ
  pub max_frames : ℕ
  pub frames : List Bool
  pub tables_lvl_1 : List (Option (List ℕ))
  pub tables_lvl_2 : List (Option (List Row))

module _ {ℓ} {A : Type ℓ} where
  -- safe_list_get
  unfoldable pub get_table : List (Option A) → ℕ → Option A
  get_table tables id = do slot ← get_elem? tables id; slot

  -- The loop that looks for a null slot.
  unfoldable pub null_from : ℕ → List (Option A) → Option ℕ
  null_from i [] = none
  null_from i (none ∷ tables) = some i
  null_from i (some _ ∷ tables) = null_from (i + 1) tables

  unfoldable pub find_id : List (Option A) → Bool → ℕ
  unfolding null_from
  find_id tables false = length tables
  find_id tables true = elim (null_from 0 tables) [ some i ↦ i | none ↦ length tables ]

  -- Replaced in its slot, or added behind the last one.
  unfoldable pub put_table : List (Option A) → ℕ → A → List (Option A)
  put_table tables id table =
      if ltb id (length tables) then set tables id (some table) else tables ++ some table ∷ []

-- The loop over the rows of the first-level table; the identifiers, and the repository.
unfoldable pub create_lvl2_tables :
    ℕ → ℕ → List (Option (List Row)) → List ℕ × List (Option (List Row))
unfolding find_id put_table
create_lvl2_tables zero rows tables = ([], tables)
create_lvl2_tables (suc n) rows tables =
    let id = find_id tables false in
    let (ids, after) = create_lvl2_tables n rows (put_table tables id (new_page_table_lvl2 rows)) in
    (id ∷ ids, after)

unfoldable pub create_table : Memory → List ℕ → ℕ × Memory
unfolding find_id put_table
create_table memory ids =
    let id = find_id memory.tables_lvl_1 true in
    (id, record memory { tables_lvl_1 = put_table memory.tables_lvl_1 id ids })

unfoldable pub create_new_process : Memory → ℕ × Memory
unfolding create_lvl2_tables create_table
create_new_process memory =
    let (ids, tables) = create_lvl2_tables memory.max_rows memory.max_rows memory.tables_lvl_2 in
    create_table (record memory { tables_lvl_2 = tables }) ids

-- The loop of `delete_level_2_table`, over as many rows as both bounds allow.
unfoldable pub delete_rows : ℕ → List Row → List Bool → Option (List Bool)
delete_rows zero rows frames = some frames
delete_rows (suc n) [] frames = none
delete_rows (suc n) (r ∷ rows) frames = do
  frames ← (if r.frame == invalid_frame then some frames else delete_frame frames r.frame)
  delete_rows n rows frames

unfoldable pub row_limit : Memory → ℕ
row_limit memory =
    if ltb memory.max_frames memory.max_rows then memory.max_frames else memory.max_rows

-- `none`: a null table is read.
unfoldable pub delete_level_2_table : Memory → ℕ → Option Memory
unfolding delete_rows get_table row_limit
delete_level_2_table memory id = do
  table ← get_table memory.tables_lvl_2 id
  frames ← delete_rows (row_limit memory) table memory.frames
  some (record memory { frames = frames; tables_lvl_2 = set memory.tables_lvl_2 id none })

-- The loop over a first-level table.
unfoldable pub delete_tables : Memory → List ℕ → Option Memory
unfolding delete_level_2_table
delete_tables memory [] = some memory
delete_tables memory (id ∷ ids) = do
  memory ← delete_level_2_table memory id
  delete_tables memory ids

unfoldable pub delete_related_tables : Memory → ℕ → Option Memory
unfolding delete_tables get_table
delete_related_tables memory id = elim (get_table memory.tables_lvl_1 id) [
  | none ↦ some memory
  | some ids ↦ do
    memory ← delete_tables memory ids
    some (record memory { tables_lvl_1 = set memory.tables_lvl_1 id none })
]
