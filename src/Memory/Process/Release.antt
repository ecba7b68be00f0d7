-- ===== src/Memory/Process/Release.antt =====
-- Ending a process that has not touched its pages.
use os_sski.Common.{
  ℕ, zero, suc, ◌<◌, ◌≤◌, ◌≡◌, ◌⊎◌, inl, inr, refl, ap, ◌∙◌, Bool, true, false, Option, none, some,
  List, [], ◌∷◌, ◌++◌, arith, append_assoc, length, length-append, get_elem?-set_self, set-set_back,
  lt→ltb, get_elem?, set, replicate, ltb, if◌then◌else◌,
}
use os_sski.Memory.Table.{Row, empty_row, new_page_table_lvl2}
use os_sski.Memory.Process.{
  Memory, get_table, find_id, put_table, create_new_process, delete_rows, row_limit,
  delete_level_2_table, delete_tables, delete_related_tables,
}
use os_sski.Memory.Process.Fresh.{ids_from, find_id_slot, created, create_new_process-created}

delete_rows-empty :
    (n rows : ℕ) (frames : List Bool)
    → n ≤ rows
    → delete_rows n (replicate rows empty_row) frames ≡ some frames
unfolding delete_rows
delete_rows-empty zero rows frames h = refl
delete_rows-empty (suc n) zero frames h = absurd (omega arith)
delete_rows-empty (suc n) (suc rows) frames h = delete_rows-empty n rows frames (omega arith)

row_limit_small : (m : Memory) → row_limit m ≤ m.max_rows
unfolding row_limit
row_limit_small m = ground arith

module _ {ℓ} {A : Type ℓ} where
  pub get_elem?-middle :
      (xs : List A) (a : A) (ys : List A) → get_elem? (xs ++ a ∷ ys) (length xs) ≡ some a
  get_elem?-middle [] a ys = refl
  get_elem?-middle (x ∷ xs) a ys = get_elem?-middle xs a ys

  set-middle :
      (xs : List A) (a b : A) (ys : List A) → set (xs ++ a ∷ ys) (length xs) b ≡ xs ++ b ∷ ys
  set-middle [] a b ys = refl
  set-middle (x ∷ xs) a b ys = ap (λ (zs : List A). x ∷ zs) (set-middle xs a b ys)

abbrev fresh : Memory → Option (List Row)
fresh m = some (new_page_table_lvl2 m.max_rows)

abbrev with_tables : Memory → List (Option (List Row)) → Memory
with_tables m tables = record m { tables_lvl_2 = tables }

delete_level_2_table-fresh :
    (m : Memory) (before after : List (Option (List Row)))
    → delete_level_2_table
        (with_tables m (before ++ some (new_page_table_lvl2 m.max_rows) ∷ after))
        (length before)
      ≡ some (with_tables m (before ++ none ∷ after))
unfolding delete_level_2_table get_table new_page_table_lvl2
delete_level_2_table-fresh m before after = rw (
  get_elem?-middle before (fresh m) after,
  delete_rows-empty (row_limit m) m.max_rows m.frames (row_limit_small m),
  set-middle before (fresh m) none after,
)

delete_tables-fresh :
    (m : Memory) (n : ℕ) (before : List (Option (List Row)))
    → delete_tables (with_tables m (before ++ replicate n (fresh m))) (ids_from (length before) n)
      ≡ some (with_tables m (before ++ replicate n none))
unfolding delete_tables
delete_tables-fresh m zero before = refl
delete_tables-fresh m (suc n) before = rw (
  delete_level_2_table-fresh m before (replicate n (fresh m)),
  ← append_assoc before (none ∷ []) (replicate n (fresh m)),
  ← length-append before (none ∷ []),
  delete_tables-fresh m n (before ++ none ∷ []),
  append_assoc before (none ∷ []) (replicate n none),
)

module _ {ℓ} {A : Type ℓ} where
  -- A slot that was null holds the table it is given, and is null again when that is taken out.
  put_table-slot :
      (tables : List (Option A)) (id : ℕ) (t : A)
      → ((id < length tables) × (get_elem? tables id ≡ some none)) ⊎ (id ≡ length tables)
      → (get_table (put_table tables id t) id ≡ some t)
        × (set (put_table tables id t) id none
            ≡ (if ltb id (length tables) then tables else tables ++ none ∷ []))
  unfolding get_table put_table
  put_table-slot tables id t (inl (lt, null)) =
      rw (lt→ltb id (length tables) lt)
        (rw (get_elem?-set_self tables id (some t) lt), set-set_back tables id (some t) none null)
  put_table-slot tables id t (inr e) =
      let behind : ltb id (length tables) ≡ false = ground arith in
      rw behind
        (rw (e, get_elem?-middle tables (some t) []), rw e (set-middle tables (some t) none []))

delete_related_tables-some :
    (m m' : Memory) (id : ℕ) (ids : List ℕ)
    → get_table m.tables_lvl_1 id ≡ some ids
    → delete_tables m ids ≡ some m'
    → delete_related_tables m id ≡ some (record m' { tables_lvl_1 = set m'.tables_lvl_1 id none })
unfolding delete_related_tables
delete_related_tables-some m m' id ids here deleted = simp (here, deleted, delete_related_tables)

-- A process that ends before it has touched a page gives back every frame and its slot in the
-- first-level repository; the second-level repository keeps as many null slots as a table has rows.
pub delete_related_tables-create_new_process :
    (m : Memory)
    → let (id, m') = create_new_process m in
      delete_related_tables m' id
      ≡ some (record m {
        tables_lvl_1 =
            if ltb id (length m.tables_lvl_1) then m.tables_lvl_1 else m.tables_lvl_1 ++ none ∷ [];
        tables_lvl_2 = m.tables_lvl_2 ++ replicate m.max_rows none;
      })
delete_related_tables-create_new_process m = rw (create_new_process-created m) (
    let id = find_id m.tables_lvl_1 true in
    let ids = ids_from (length m.tables_lvl_2) m.max_rows in
    let (here, gone) = put_table-slot m.tables_lvl_1 id ids (find_id_slot m.tables_lvl_1) in
    let start = record m { tables_lvl_1 = put_table m.tables_lvl_1 id ids } in
    delete_related_tables-some (created m)
      (with_tables start (m.tables_lvl_2 ++ replicate m.max_rows none)) id ids here
      (delete_tables-fresh start m.max_rows m.tables_lvl_2)
    ∙ ap
        (λ (tables : List (Option (List ℕ))). some (record m {
          tables_lvl_1 = tables;
          tables_lvl_2 = m.tables_lvl_2 ++ replicate m.max_rows none;
        }))
        gone)
