-- ===== src/Memory/Isolation/Processes.antt =====
-- A new process has no frame, and a process that ends gives back none of another's.
use os_sski.Common.{
  ℕ, zero, suc, ◌≡◌, ◌≢◌, ◌⊎◌, refl, sym, ap, ◌∙◌, inl, inr, Bool, Option, none, some, List, [],
  ◌∷◌, ◌++◌, map, arith, >>=-eq-some, length, length-replicate, get_elem?, set, replicate,
  Option-cases, Bool-cases, if◌then◌else◌, ◌==◌,
}
use os_sski.Memory.Table.{Row, invalid_frame, new_page_table_lvl2}
use os_sski.Memory.Frames.{delete_frame}
use os_sski.Memory.Process.{
  Memory, get_table, create_new_process, delete_rows, row_limit, delete_level_2_table,
  delete_tables, delete_related_tables,
}
use os_sski.Memory.Process.Fresh.{created, create_new_process-created}
use os_sski.Memory.Isolation.{View, frame_of, frames_of, view, frame_at, IsIsolated, view-set}
use os_sski.Memory.Isolation.Keeps.Select.{get_table-view}
use os_sski.Memory.Isolation.Fault.Claim.{delete_frame-other}

get_table-append :
    (v : View) (k i : ℕ) (fs gs : List ℕ)
    → get_table (v ++ replicate k (some fs)) i ≡ some gs
    → (get_table v i ≡ some gs) ⊎ (gs ≡ fs)
unfolding get_table
get_table-append [] zero i fs gs h = absurd (ground (arith, h))
get_table-append [] (suc k) zero fs gs h = inr (ground (arith, h))
get_table-append [] (suc k) (suc i) fs gs h = get_table-append [] k i fs gs h
get_table-append (x ∷ v) k zero fs gs h = inl h
get_table-append (x ∷ v) k (suc i) fs gs h = get_table-append v k i fs gs h

view-append :
    (tables : List (Option (List Row))) (k : ℕ) (rows : List Row)
    → map frames_of (tables ++ replicate k (some rows))
      ≡ map frames_of tables ++ replicate k (some (map frame_of rows))
view-append [] zero rows = refl
view-append [] (suc k) rows =
    ap (λ (v : View). some (map frame_of rows) ∷ v) (view-append [] k rows)
view-append (t ∷ tables) k rows = ap (λ (v : View). frames_of t ∷ v) (view-append tables k rows)

frames-new : (n : ℕ) → map frame_of (new_page_table_lvl2 n) ≡ replicate n invalid_frame
unfolding new_page_table_lvl2
frames-new zero = refl
frames-new (suc n) = ap (λ (fs : List ℕ). invalid_frame ∷ fs) (frames-new n)

get_elem?-replicate : (n j x f : ℕ) → get_elem? (replicate n x) j ≡ some f → f ≡ x
get_elem?-replicate zero j x f h = absurd (ground (arith, h))
get_elem?-replicate (suc n) zero x f h = ground (arith, h)
get_elem?-replicate (suc n) (suc j) x f h = get_elem?-replicate n j x f h

module _ (m : Memory) (w : IsIsolated m) where
  abbrev wider : View
  wider = view m ++ replicate m.max_rows (some (replicate m.max_rows invalid_frame))

  view-created : view (created m) ≡ wider
  view-created =
      view-append m.tables_lvl_2 m.max_rows (new_page_table_lvl2 m.max_rows)
      ∙ ap (λ (fs : List ℕ). view m ++ replicate m.max_rows (some fs)) (frames-new m.max_rows)

  frame_at-created :
      (i j f : ℕ)
      → frame_at (view (created m)) i j ≡ some f
      → f ≢ invalid_frame
      → frame_at (view m) i j ≡ some f
  unfolding frame_at
  frame_at-created i j f h ne =
      let (gs, table, h) = >>=-eq-some (get_table wider i) _ (rw view-created at h) in
      elim (get_table-append (view m) m.max_rows i (replicate m.max_rows invalid_frame) gs table) [
        | inl old ↦ rw old h
        | inr new ↦ absurd (ne (get_elem?-replicate m.max_rows j invalid_frame f (rw new at h)))
      ]

  created-IsIsolated : IsIsolated (created m)
  created-IsIsolated = record {
    full = λ i gs h.
        elim (get_table-append (view m) m.max_rows i (replicate m.max_rows invalid_frame) gs
          (rw view-created at h)) [
            | inl old ↦ w.full i gs old
            | inr new ↦
                ap (λ (xs : List ℕ). length xs) new ∙ length-replicate m.max_rows invalid_frame
          ];
    taken = λ i j f h ne. w.taken i j f (frame_at-created i j f h ne) ne;
    distinct = λ i j i' j' f h h' ne.
        w.distinct i j i' j' f (frame_at-created i j f h ne) (frame_at-created i' j' f h' ne) ne;
  }

  pub create_new_process-IsIsolated : IsIsolated (create_new_process m).1
  create_new_process-IsIsolated = rw (create_new_process-created m) created-IsIsolated

-- The frames of other rows are not touched.
delete_rows-other :
    (n : ℕ) (rows : List Row) (frames frames' : List Bool) (f : ℕ)
    → delete_rows n rows frames ≡ some frames'
    → ((j : ℕ) → get_elem? (map frame_of rows) j ≢ some f)
    → get_elem? frames' f ≡ get_elem? frames f
unfolding delete_rows
delete_rows-other zero rows frames frames' f h other = ground (arith, h)
delete_rows-other (suc n) [] frames frames' f h other = absurd (ground (arith, h))
delete_rows-other (suc n) (r ∷ rows) frames frames' f h other =
    let (between, first, h) =
      >>=-eq-some (if r.frame == invalid_frame then some frames else delete_frame frames r.frame) _
        h in
    delete_rows-other n rows between frames' f h (λ j. other (suc j))
    ∙ elim (Bool-cases (r.frame == invalid_frame)) [
      | inl empty ↦ ground (arith, rw empty at first)
      | inr held ↦
          delete_frame-other frames between r.frame f (rw held at first)
            (λ e. other 0 (ap (λ (x : ℕ). some x) (sym e)))
    ]

get_table-null :
    (v : View) (id i : ℕ) (gs : List ℕ)
    → get_table (set v id none) i ≡ some gs
    → (i ≢ id) × (get_table v i ≡ some gs)
unfolding get_table
get_table-null [] id i gs h = absurd (ground (arith, h))
get_table-null (x ∷ v) zero zero gs h = absurd (ground (arith, h))
get_table-null (x ∷ v) zero (suc i) gs h = (λ e. absurd (omega (arith, e)), h)
get_table-null (x ∷ v) (suc id) zero gs h = (λ e. absurd (omega (arith, e)), h)
get_table-null (x ∷ v) (suc id) (suc i) gs h =
    let (ne, below) = get_table-null v id i gs h in (λ e. ne (omega (arith, e)), below)

deleted_table :
    (m : Memory) (id : ℕ) (table : List Row) (frames : List Bool)
    → IsIsolated m
    → get_table m.tables_lvl_2 id ≡ some table
    → delete_rows (row_limit m) table m.frames ≡ some frames
    → IsIsolated (record m { frames = frames; tables_lvl_2 = set m.tables_lvl_2 id none })
unfolding frame_at
deleted_table m id table frames w there freed = record {
  full = λ i gs h. w.full i gs (get_table-null (view m) id i gs (rw narrower at h)).1;
  taken = λ i j f h ne.
      let (away, old) = at i j f h in
      delete_rows-other (row_limit m) table m.frames frames f freed (λ j' e.
        away
          (w.distinct i j id j' f old (rw (get_table-view m.tables_lvl_2 id table there) e) ne).0)
      ∙ w.taken i j f old ne;
  distinct = λ i j i' j' f h h' ne. w.distinct i j i' j' f (at i j f h).1 (at i' j' f h').1 ne;
}
  where
    narrower : map frames_of (set m.tables_lvl_2 id none) ≡ set (view m) id none
    narrower = view-set m.tables_lvl_2 id none

    at :
        (i j f : ℕ)
        → frame_at (map frames_of (set m.tables_lvl_2 id none)) i j ≡ some f
        → (i ≢ id) × (frame_at (view m) i j ≡ some f)
    at i j f h =
        let (gs, listed, h) =
          >>=-eq-some (get_table (set (view m) id none) i) _ (rw narrower at h) in
        let (away, old) = get_table-null (view m) id i gs listed in (away, rw old h)

delete_level_2_table-IsIsolated :
    (m m' : Memory) (id : ℕ) → IsIsolated m → delete_level_2_table m id ≡ some m' → IsIsolated m'
unfolding delete_level_2_table
delete_level_2_table-IsIsolated m m' id w h =
    let (table, there, h) = >>=-eq-some (get_table m.tables_lvl_2 id) _ h in
    let (frames, freed, h) = >>=-eq-some (delete_rows (row_limit m) table m.frames) _ h in
    let same : record m { frames = frames; tables_lvl_2 = set m.tables_lvl_2 id none } ≡ m' =
      ground (arith, h) in
    rw same at (deleted_table m id table frames w there freed)

delete_tables-IsIsolated :
    (m m' : Memory) (ids : List ℕ) → IsIsolated m → delete_tables m ids ≡ some m' → IsIsolated m'
unfolding delete_tables
delete_tables-IsIsolated m m' [] w h = let same : m ≡ m' = ground (arith, h) in rw same at w
delete_tables-IsIsolated m m' (id ∷ ids) w h =
    let (m'', first, h) = >>=-eq-some (delete_level_2_table m id) _ h in
    delete_tables-IsIsolated m'' m' ids (delete_level_2_table-IsIsolated m m'' id w first) h

-- The first-level tables have no part in it.
first_tables-IsIsolated :
    (m : Memory) (firsts : List (Option (List ℕ)))
    → IsIsolated m
    → IsIsolated (record m { tables_lvl_1 = firsts })
first_tables-IsIsolated m firsts w = record {
  full = w.full;
  taken = w.taken;
  distinct = w.distinct;
}

pub delete_related_tables-IsIsolated :
    (m m' : Memory) (id : ℕ) → IsIsolated m → delete_related_tables m id ≡ some m' → IsIsolated m'
unfolding delete_related_tables
delete_related_tables-IsIsolated m m' id w h = elim (Option-cases (get_table m.tables_lvl_1 id)) [
  | inl missing ↦
      let same : m ≡ m' = ground (arith, rw (missing, delete_related_tables) at h) in rw same at w
  | inr (ids, there) ↦
      let (m'', gone, h) =
        >>=-eq-some (delete_tables m ids) _ (rw (there, delete_related_tables) at h) in
      let same : record m'' { tables_lvl_1 = set m''.tables_lvl_1 id none } ≡ m' =
        ground (arith, h) in
      rw same at (
        first_tables-IsIsolated m'' (set m''.tables_lvl_1 id none)
          (delete_tables-IsIsolated m m'' ids w gone))
]
