-- ===== src/Memory/Lookup/Found.antt =====
-- Where a frame is found, and which writes leave that as it is.
use os_sski.Common.{
  ℕ, zero, suc, ◌+◌, ◌≡◌, ◌≢◌, ◌⊎◌, inl, inr, refl, ap, ◌∙◌, Option, none, some, List, [], ◌∷◌,
  arith, get_elem?, set, Option-cases, ◌==◌, if◌then◌else◌,
}
use os_sski.Memory.Table.{Row, invalid_frame}
use os_sski.Memory.Process.{Memory, get_table}
use os_sski.Memory.Lookup.{row_of, table_from, get_table_lvl2_number, get_frame_ref, update_row}

pub row_of-some :
    (frame k : ℕ) (rows : List Row) (j : ℕ)
    → row_of frame k rows ≡ some j
    → (n : ℕ) × (r : Row) × (j ≡ k + n) × (get_elem? rows n ≡ some r) × (r.frame ≡ frame)
unfolding row_of
row_of-some frame k [] j h = absurd (ground arith)
row_of-some frame k (r ∷ rows) j h =
    elim (Option-cases (if r.frame == frame then some k else none)) [
      | inl other ↦
          let below : row_of frame (k + 1) rows ≡ some j = ground arith in
          let (n, q, at, there, same) = row_of-some frame (k + 1) rows j below in
          (suc n, q, omega arith, there, same)
      | inr (_, here) ↦ (0, r, ground arith, refl, ground arith)
    ]

-- A table that holds the frame, or the mark that there is none.
pub table_from-found :
    (frame i : ℕ) (tables : List (Option (List Row)))
    → (table_from frame i tables ≡ invalid_frame)
      ⊎ ((n : ℕ) × (rows : List Row) × (j : ℕ) × (table_from frame i tables ≡ i + n)
          × (get_elem? tables n ≡ some (some rows))
          × (row_of frame 0 rows ≡ some j))
unfolding table_from
table_from-found frame i [] = inl refl
table_from-found frame i (none ∷ tables) = elim (table_from-found frame (i + 1) tables) [
  | inl missing ↦ inl missing
  | inr (n, rows, j, at, there, row) ↦ inr (suc n, rows, j, at ∙ omega arith, there, row)
]
table_from-found frame i (some rows ∷ tables) = elim (Option-cases (row_of frame 0 rows)) [
  | inl absent ↦ elim (table_from-found frame (i + 1) tables) [
    | inl missing ↦ inl (rw (absent, table_from) missing)
    | inr (n, rows', j, at, there, row) ↦
        inr (suc n, rows', j, rw (absent, table_from) (at ∙ omega arith), there, row)
  ]
  | inr (j, here) ↦ inr (0, rows, j, rw (here, table_from) (omega arith), refl, here)
]

-- The row that a frame's reference names.
pub record IsAt (m : Memory) (frame : ℕ) (ref : ℕ × ℕ) : Type 0 where
  pub rows : List Row
  pub page : Row
  pub number : get_table_lvl2_number m frame ≡ ref.0
  pub found : get_frame_ref m frame ≡ some (some ref)
  pub table : get_elem? m.tables_lvl_2 ref.0 ≡ some (some rows)
  pub row : get_elem? rows ref.1 ≡ some page
  pub framed : page.frame ≡ frame

get_frame_ref-eq :
    (m : Memory) (frame n j : ℕ) (rows : List Row)
    → get_table_lvl2_number m frame ≡ n
    → get_elem? m.tables_lvl_2 n ≡ some (some rows)
    → row_of frame 0 rows ≡ some j
    → get_frame_ref m frame ≡ some (some (n, j))
unfolding get_frame_ref get_table
get_frame_ref-eq m frame n j rows number there row =
    rw (number, there, row, get_frame_ref) (ap (λ (k : ℕ). some (some (k, j))) number)

pub get_frame_ref-IsAt :
    (m : Memory) (frame : ℕ)
    → get_table_lvl2_number m frame ≢ invalid_frame
    → (ref : ℕ × ℕ) × IsAt m frame ref
unfolding get_table_lvl2_number get_frame_ref get_table
get_frame_ref-IsAt m frame ne = elim (table_from-found frame 0 m.tables_lvl_2) [
  | inl missing ↦ absurd (ne missing)
  | inr (n, rows, j, at, there, row) ↦
      let (k, r, same, page, framed) = row_of-some frame 0 rows j row in
      let number : table_from frame 0 m.tables_lvl_2 ≡ n = at ∙ omega arith in
      let index : j ≡ k = same ∙ omega arith in
      (
        (n, k),
        record {
          rows = rows;
          page = r;
          number = number;
          found =
              get_frame_ref-eq m frame n k rows number there (row ∙ ap (λ (x : ℕ). some x) index);
          table = there;
          row = page;
          framed = framed;
        },
      )
]

row_of-set :
    (frame k n : ℕ) (rows : List Row) (r q : Row)
    → get_elem? rows n ≡ some r
    → q.frame ≡ r.frame
    → row_of frame k (set rows n q) ≡ row_of frame k rows
unfolding row_of
row_of-set frame k n [] r q h same = refl
row_of-set frame k zero (x ∷ rows) r q h same = ground arith
row_of-set frame k (suc n) (x ∷ rows) r q h same = rw (row_of-set frame (k + 1) n rows r q h same)

table_from-set :
    (frame i n : ℕ) (tables : List (Option (List Row))) (rows rows' : List Row)
    → get_elem? tables n ≡ some (some rows)
    → row_of frame 0 rows' ≡ row_of frame 0 rows
    → table_from frame i (set tables n (some rows')) ≡ table_from frame i tables
unfolding table_from
table_from-set frame i n [] rows rows' h same = refl
table_from-set frame i zero (none ∷ tables) rows rows' h same = absurd (ground arith)
table_from-set frame i zero (some x ∷ tables) rows rows' h same =
    let here : x ≡ rows = ground arith in rw (same, here, table_from)
table_from-set frame i (suc n) (none ∷ tables) rows rows' h same =
    table_from-set frame (i + 1) n tables rows rows' h same
table_from-set frame i (suc n) (some x ∷ tables) rows rows' h same =
    ap (λ (later : ℕ). elim (row_of frame 0 x) as (λ _. ℕ) [ some j ↦ i | none ↦ later ])
      (table_from-set frame (i + 1) n tables rows rows' h same)

module _ (m : Memory) (frame : ℕ) (ref : ℕ × ℕ) (at : IsAt m frame ref) where
  -- A write through the reference changes the one row.
  pub update_row-IsAt :
      (change : Row → Row)
      → update_row m ref change ≡ record m {
        tables_lvl_2 = set m.tables_lvl_2 ref.0 (some (set at.rows ref.1 (change at.page)));
      }
  unfolding update_row get_table
  update_row-IsAt change = rw (at.table, at.row, update_row)

  -- A change that keeps the frame leaves every frame in its table.
  pub get_table_lvl2_number-update_row :
      (change : Row → Row) (other : ℕ)
      → (change at.page).frame ≡ at.page.frame
      → get_table_lvl2_number (update_row m ref change) other ≡ get_table_lvl2_number m other
  unfolding get_table_lvl2_number
  get_table_lvl2_number-update_row change other same =
      ap (λ (k : Memory). get_table_lvl2_number k other) (update_row-IsAt change)
      ∙ table_from-set other 0 ref.0 m.tables_lvl_2 at.rows _ at.table
          (row_of-set other 0 ref.1 at.rows at.page (change at.page) at.row same)
