-- ===== src/Examples/Memory.antt =====
-- Four rows of a process, and a small main memory.
use os_sski.Common.{
  ℕ, zero, suc, ◌≡◌, inl, refl, Bool, true, false, none, some, List, [], ◌∷◌, arith, get_elem?,
  replicate, ltb, if◌then◌else◌, ◌++◌,
}
use os_sski.Memory.Table.{Row, invalid_frame, empty_row}
use os_sski.Memory.Frames.{delete_frame}
use os_sski.Memory.Process.{Memory, create_new_process, delete_related_tables}
use os_sski.Memory.Process.Release.{delete_related_tables-create_new_process}
use os_sski.Memory.Clock.{
  Choice, clock_selector, improved_clock_selector, visit_clean, visit_modified,
}
use os_sski.Memory.Clock.Victim.{IsVictim, clock_selector-IsVictim}
use os_sski.Memory.Clock.Reset.{clock_selector_takes_absent}
use os_sski.Memory.Clock.Improved.{IsSelected, improved_clock_selector-IsSelected}

abbrev row : ℕ → Bool → Bool → Row
row frame used modified = record {
  frame = frame;
  present = true;
  use_bit = used;
  modified = modified;
}

abbrev rows : List Row
rows = row 4 true false ∷ row 5 true true ∷ row 6 false true ∷ empty_row ∷ []

clock_selector-IsVictim_example :
    (c : Choice) × (j : ℕ) × (q : Row) × (clock_selector 1 rows ≡ some c) × IsVictim 1 rows c j q
clock_selector-IsVictim_example =
    clock_selector-IsVictim 1 rows 2 (row 6 false true) refl refl (inl refl)

improved_clock_selector-IsSelected_example :
    (j : ℕ) × (q : Row) × IsSelected rows (improved_clock_selector 1 rows) j q
improved_clock_selector-IsSelected_example =
    improved_clock_selector-IsSelected 1 rows (row 5 true true) refl refl

abbrev all_used : List Row
all_used = row 4 true false ∷ empty_row ∷ []

all_used-used :
    (j : ℕ) (q : Row) → get_elem? all_used j ≡ some q → q.present ≡ true → q.use_bit ≡ true
all_used-used zero q h p = ground arith
all_used-used (suc zero) q h p = absurd (ground arith)
all_used-used (suc (suc j)) q h p = absurd (ground arith)

clock_selector_takes_absent_example :
    (c : Choice) × (clock_selector 1 all_used ≡ some c) × (c.0 ≡ invalid_frame)
clock_selector_takes_absent_example =
    clock_selector_takes_absent 1 all_used empty_row refl refl all_used-used

-- With all present pages used and modified and an absent row at the clock, the third round matches
-- nothing either.
all_modified_run :
    improved_clock_selector 0 (empty_row ∷ row 4 true true ∷ [])
    ≡ (invalid_frame, 0, empty_row ∷ row 4 false true ∷ [])
unfolding improved_clock_selector visit_clean visit_modified
all_modified_run = refl

abbrev frames : List Bool
frames = true ∷ false ∷ false ∷ []

abbrev memory : List ℕ
memory = 1 ∷ 2 ∷ 3 ∷ 4 ∷ 5 ∷ 6 ∷ 7 ∷ 8 ∷ 9 ∷ 10 ∷ []

abbrev repositories : Memory
repositories = record {
  max_rows = 2;
  max_frames = 1;
  frames = true ∷ true ∷ false ∷ [];
  tables_lvl_1 = some (0 ∷ 1 ∷ []) ∷ none ∷ [];
  tables_lvl_2 =
      some (row 0 true false ∷ row 1 true false ∷ []) ∷ some (empty_row ∷ empty_row ∷ []) ∷ [];
}

delete_related_tables-create_new_process_example :
    delete_related_tables (create_new_process repositories).1 (create_new_process repositories).0
    ≡ some (record repositories {
      tables_lvl_1 =
          if ltb (create_new_process repositories).0 2
          then repositories.tables_lvl_1
          else repositories.tables_lvl_1 ++ none ∷ [];
      tables_lvl_2 = repositories.tables_lvl_2 ++ replicate 2 none;
    })
delete_related_tables-create_new_process_example =
    delete_related_tables-create_new_process repositories

-- With fewer frames a process than rows a table, the frames of the further rows stay taken.
delete_related_tables_run :
    delete_related_tables repositories 0
    ≡ some (record repositories {
      frames = false ∷ true ∷ false ∷ [];
      tables_lvl_1 = none ∷ none ∷ [];
      tables_lvl_2 = none ∷ none ∷ [];
    })
unfolding delete_related_tables delete_frame
delete_related_tables_run = refl
