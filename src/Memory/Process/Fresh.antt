-- ===== src/Memory/Process/Fresh.antt =====
-- The tables of a new process.
use os_sski.Common.{
  ℕ, zero, suc, ◌+◌, ◌<◌, ◌≡◌, ◌⊎◌, inl, inr, refl, sym, ap, ◌∙◌, true, Option, none, some, List,
  [], ◌∷◌, ◌++◌, arith, append_assoc, append-nil, length, length-append, get_elem?, replicate,
}
use os_sski.Memory.Table.{Row, new_page_table_lvl2}
use os_sski.Memory.Process.{
  Memory, null_from, find_id, put_table, create_lvl2_tables, create_table, create_new_process,
}

-- `n` identifiers from `id` on.
abbrev pub ids_from : ℕ → ℕ → List ℕ
ids_from id zero = []
ids_from id (suc n) = id ∷ ids_from (id + 1) n

put_table-end {ℓ} :
    {A : Type ℓ} (tables : List (Option A)) (a : A)
    → put_table tables (length tables) a ≡ tables ++ some a ∷ []
unfolding put_table
put_table-end tables a = ground arith

pub create_lvl2_tables-fresh :
    (n rows : ℕ) (tables : List (Option (List Row)))
    → create_lvl2_tables n rows tables
      ≡ (ids_from (length tables) n, tables ++ replicate n (some (new_page_table_lvl2 rows)))
unfolding create_lvl2_tables
create_lvl2_tables-fresh zero rows tables =
    ap (λ (ts : List (Option (List Row))). ([], ts)) (sym (append-nil tables))
create_lvl2_tables-fresh (suc n) rows tables =
    let fresh : Option (List Row) = some (new_page_table_lvl2 rows) in
    rw (
      put_table-end tables (new_page_table_lvl2 rows),
      create_lvl2_tables-fresh n rows (tables ++ fresh ∷ []),
      length-append tables (fresh ∷ []),
      append_assoc tables (fresh ∷ []) (replicate n fresh),
    )

module _ {ℓ} {A : Type ℓ} where
  abbrev Null : ℕ → List (Option A) → Option ℕ → Type ℓ
  Null i tables r =
      ((n : ℕ) × (n < length tables) × (get_elem? tables n ≡ some none) × (r ≡ some (i + n)))
      ⊎ (r ≡ none)

  null_from-Null : (i : ℕ) (tables : List (Option A)) → Null i tables (null_from i tables)
  unfolding null_from
  null_from-Null i [] = inr refl
  null_from-Null i (none ∷ tables) =
      inl (0, omega arith, refl, ap (λ (k : ℕ). some k) (omega arith))
  null_from-Null i (some t ∷ tables) = later (null_from-Null (i + 1) tables)
    where
      later :
          Null (i + 1) tables (null_from (i + 1) tables)
          → Null i (some t ∷ tables) (null_from i (some t ∷ tables))
      later (inl (n, lt, there, e)) =
          inl (suc n, omega arith, there, e ∙ ap (λ (k : ℕ). some k) (omega arith))
      later (inr e) = inr e

  -- A null slot, or the end.
  pub find_id_slot :
      (tables : List (Option A))
      → let id = find_id tables true in
        ((id < length tables) × (get_elem? tables id ≡ some none)) ⊎ (id ≡ length tables)
  unfolding find_id
  find_id_slot tables = split (null_from-Null 0 tables)
    where
      split :
          Null 0 tables (null_from 0 tables)
          → ((find_id tables true < length tables)
              × (get_elem? tables (find_id tables true) ≡ some none))
            ⊎ (find_id tables true ≡ length tables)
      split (inl (n, lt, there, e)) =
          let same : 0 + n ≡ n = omega arith in
          inl (rw (e, find_id) (omega arith), rw (e, find_id, same) there)
      split (inr e) = inr (rw (e, find_id))

-- The state that a new process leaves.
abbrev pub created : Memory → Memory
created m = record m {
  tables_lvl_1 =
      put_table m.tables_lvl_1 (find_id m.tables_lvl_1 true)
        (ids_from (length m.tables_lvl_2) m.max_rows);
  tables_lvl_2 = m.tables_lvl_2 ++ replicate m.max_rows (some (new_page_table_lvl2 m.max_rows));
}

pub create_new_process-created :
    (m : Memory) → create_new_process m ≡ (find_id m.tables_lvl_1 true, created m)
unfolding create_new_process create_table
create_new_process-created m =
    ap
      (λ (r : List ℕ × List (Option (List Row))).
        create_table (record m { tables_lvl_2 = r.1 }) r.0)
      (create_lvl2_tables-fresh m.max_rows m.max_rows m.tables_lvl_2)
