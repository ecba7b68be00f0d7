-- ===== src/Memory/Table.antt =====
-- memory/src/module/page_table.c: the rows of the second-level tables.
use os_sski.Common.{ℕ, Bool, false, List, uint32_max, replicate}

abbrev pub invalid_frame : ℕ
invalid_frame = uint32_max

-- page_table_lvl_2_t
pub record Row : Type 0 where
  pub frame : ℕ
  pub present : Bool
  pub use_bit : Bool
  pub modified : Bool

abbrev pub empty_row : Row
empty_row = record { frame = invalid_frame; present = false; use_bit = false; modified = false }

unfoldable pub new_page_table_lvl2 : ℕ → List Row
new_page_table_lvl2 rows = replicate rows empty_row
