-- ===== src/Memory/KernelController/Printable.antt =====
-- The tables that are printed behind every change: none of them is null.
use os_sski.Common.{
  ℕ, zero, suc, ◌+◌, ◌≡◌, refl, inl, inr, Option, none, some, List, [], ◌∷◌, ◌++◌, arith,
  >>=-eq-some, append_assoc, length, length-append, set, replicate, ltb, Bool-cases,
}
use os_sski.Memory.Table.{Row}
use os_sski.Memory.Process.{get_table, put_table}
use os_sski.Memory.Process.Fresh.{ids_from}
use os_sski.Memory.Process.Release.{get_elem?-middle}
use os_sski.Memory.Lookup.{big_rows}
use os_sski.Memory.KernelController.{print_tables}

abbrev pub Tables : Type 0
Tables = List (Option (List Row))

abbrev pub Printable : Tables → List (Option (List ℕ)) → Type 0
Printable tables firsts = (printed : List (List Row)) × (print_tables tables firsts ≡ some printed)

get_table-append :
    (tables more : Tables) (id : ℕ) (rows : List Row)
    → get_table tables id ≡ some rows
    → get_table (tables ++ more) id ≡ some rows
unfolding get_table
get_table-append [] more id rows h = absurd (ground arith)
get_table-append (t ∷ tables) more zero rows h = h
get_table-append (t ∷ tables) more (suc id) rows h = get_table-append tables more id rows h

big_rows-append :
    (tables more : Tables) (ids : List ℕ) (line : List Row)
    → big_rows tables ids ≡ some line
    → big_rows (tables ++ more) ids ≡ some line
unfolding big_rows
big_rows-append tables more [] line h = h
big_rows-append tables more (id ∷ ids) line h =
    let (rows, there, h) = >>=-eq-some (get_table tables id) _ h in
    let (rest, below, h) = >>=-eq-some (big_rows tables ids) _ h in
    rw (get_table-append tables more id rows there, big_rows-append tables more ids rest below) h

-- More second-level tables do not disturb.
pub Printable-append :
    (tables more : Tables) (firsts : List (Option (List ℕ)))
    → Printable tables firsts
    → Printable (tables ++ more) firsts
unfolding print_tables
Printable-append tables more [] p = ([], refl)
Printable-append tables more (none ∷ firsts) p = Printable-append tables more firsts p
Printable-append tables more (some ids ∷ firsts) (printed, h) =
    let (line, there, h) = >>=-eq-some (big_rows tables ids) _ h in
    let (rest, below, _) = >>=-eq-some (print_tables tables firsts) _ h in
    let (rest', below') = Printable-append tables more firsts (rest, below) in
    (line ∷ rest', rw (big_rows-append tables more ids line there, below'))

Printable-cons :
    (tables : Tables) (ids : List ℕ) (firsts : List (Option (List ℕ))) (line : List Row)
    → big_rows tables ids ≡ some line
    → Printable tables firsts
    → Printable tables (some ids ∷ firsts)
unfolding print_tables
Printable-cons tables ids firsts line h (rest, below) = (line ∷ rest, rw (h, below))

pub Printable-tail :
    (tables : Tables) (ids : List ℕ) (firsts : List (Option (List ℕ)))
    → Printable tables (some ids ∷ firsts)
    → ((line : List Row) × (big_rows tables ids ≡ some line)) × Printable tables firsts
unfolding print_tables
Printable-tail tables ids firsts (printed, h) =
    let (line, there, h) = >>=-eq-some (big_rows tables ids) _ h in
    let (rest, below, _) = >>=-eq-some (print_tables tables firsts) _ h in
    ((line, there), (rest, below))

module _ (tables : Tables) (ids : List ℕ) (line : List Row)
    (whole : big_rows tables ids ≡ some line) where
  Printable-set :
      (firsts : List (Option (List ℕ))) (id : ℕ)
      → Printable tables firsts
      → Printable tables (set firsts id (some ids))
  unfolding print_tables
  Printable-set [] id p = p
  Printable-set (none ∷ firsts) zero p = Printable-cons tables ids firsts line whole p
  Printable-set (some other ∷ firsts) zero p =
      Printable-cons tables ids firsts line whole (Printable-tail tables other firsts p).1
  Printable-set (none ∷ firsts) (suc id) p = Printable-set firsts id p
  Printable-set (some other ∷ firsts) (suc id) p =
      let ((line', there), rest) = Printable-tail tables other firsts p in
      Printable-cons tables other (set firsts id (some ids)) line' there
        (Printable-set firsts id rest)

  Printable-end :
      (firsts : List (Option (List ℕ)))
      → Printable tables firsts
      → Printable tables (firsts ++ some ids ∷ [])
  unfolding print_tables
  Printable-end [] p = Printable-cons tables ids [] line whole p
  Printable-end (none ∷ firsts) p = Printable-end firsts p
  Printable-end (some other ∷ firsts) p =
      let ((line', there), rest) = Printable-tail tables other firsts p in
      Printable-cons tables other (firsts ++ some ids ∷ []) line' there (Printable-end firsts rest)

  pub Printable-put_table :
      (firsts : List (Option (List ℕ))) (id : ℕ)
      → Printable tables firsts
      → Printable tables (put_table firsts id ids)
  unfolding put_table
  Printable-put_table firsts id p = elim (Bool-cases (ltb id (length firsts))) [
    | inl slot ↦ rw (slot, put_table) (Printable-set firsts id p)
    | inr end ↦ rw (end, put_table) (Printable-end firsts p)
  ]

-- A null slot behind the first-level tables is passed over.
pub Printable-null :
    (tables : Tables) (firsts : List (Option (List ℕ)))
    → Printable tables firsts
    → Printable tables (firsts ++ none ∷ [])
unfolding print_tables
Printable-null tables [] p = p
Printable-null tables (none ∷ firsts) p = Printable-null tables firsts p
Printable-null tables (some ids ∷ firsts) p =
    let ((line, there), rest) = Printable-tail tables ids firsts p in
    Printable-cons tables ids (firsts ++ none ∷ []) line there (Printable-null tables firsts rest)

-- The tables of a new process.
pub big_rows-fresh :
    (n : ℕ) (rows : List Row) (tables : Tables)
    → (line : List Row) × (big_rows (tables ++ replicate n (some rows)) (ids_from (length tables) n)
        ≡ some line)
unfolding big_rows get_table
big_rows-fresh zero rows tables = ([], refl)
big_rows-fresh (suc n) rows tables =
    let t : Option (List Row) = some rows in
    let (line, whole) = big_rows-fresh n rows (tables ++ t ∷ []) in
    let shifted : big_rows (tables ++ t ∷ replicate n t) (ids_from (length tables + 1) n)
        ≡ some line =
      rw (append_assoc tables (t ∷ []) (replicate n t), length-append tables (t ∷ [])) at whole in
    (rows ++ line, rw (get_elem?-middle tables t (replicate n t), shifted))
