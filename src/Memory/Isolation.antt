-- ===== src/Memory/Isolation.antt =====
-- Which page holds which frame, whatever its bits say: the view of the second-level tables in which a
-- frame belongs to one page of one process.
pub mod Keeps
pub mod Fault
pub mod Processes
pub mod Requests
pub mod Reach
use os_sski.Common.{
  ℕ, zero, suc, ◌+◌, ◌<◌, ◌≡◌, ◌≢◌, refl, sym, ap, ◌∙◌, true, Option, none, some, List, [], ◌∷◌,
  map, arith, ◌>>=◌, >>=-eq-some, length, length-map, get_elem?, set, get_elem?-set_self,
  get_elem?-set_ne, get_elem?_lt,
}
use os_sski.Memory.Table.{Row, invalid_frame}
use os_sski.Memory.Process.{Memory, get_table}

-- The frames of each table, in place; a null table has none.
abbrev pub View : Type 0
View = List (Option (List ℕ))

abbrev pub frame_of : Row → ℕ
frame_of r = r.frame

abbrev pub frames_of : Option (List Row) → Option (List ℕ)
frames_of none = none
frames_of (some rows) = some (map frame_of rows)

abbrev pub view : Memory → View
view m = map frames_of m.tables_lvl_2

unfoldable pub frame_at : View → ℕ → ℕ → Option ℕ
unfolding get_table
frame_at v i j = do fs ← get_table v i; get_elem? fs j

-- Tables have their full length; the frame of a page is marked as taken; no two pages have the same.
pub record IsIsolated (m : Memory) : Type 0 where
  pub full : (i : ℕ) (fs : List ℕ) → get_table (view m) i ≡ some fs → length fs ≡ m.max_rows
  pub taken :
      (i j f : ℕ)
      → frame_at (view m) i j ≡ some f
      → f ≢ invalid_frame
      → get_elem? m.frames f ≡ some true
  pub distinct :
      (i j i' j' f : ℕ)
      → frame_at (view m) i j ≡ some f
      → frame_at (view m) i' j' ≡ some f
      → f ≢ invalid_frame
      → (i ≡ i') × (j ≡ j')

-- `m'` has the pages of `m` in the frames of `m`.
pub record IsKept (m m' : Memory) : Type 0 where
  pub pages : view m' ≡ view m
  pub frames : m'.frames ≡ m.frames
  pub rows : m'.max_rows ≡ m.max_rows

pub IsKept-self : (m : Memory) → IsKept m m
IsKept-self m = record { pages = refl; frames = refl; rows = refl }

pub IsKept-twice : (m m' m'' : Memory) → IsKept m m' → IsKept m' m'' → IsKept m m''
IsKept-twice m m' m'' a b = record {
  pages = b.pages ∙ a.pages;
  frames = b.frames ∙ a.frames;
  rows = b.rows ∙ a.rows;
}

pub IsIsolated-IsKept : (m m' : Memory) → IsKept m m' → IsIsolated m → IsIsolated m'
IsIsolated-IsKept m m' k w = record {
  full = λ i fs h. w.full i fs (rw k.pages at h) ∙ sym k.rows;
  taken = λ i j f h ne. rw k.frames (w.taken i j f (rw k.pages at h) ne);
  distinct = λ i j i' j' f h h' ne. w.distinct i j i' j' f (rw k.pages at h) (rw k.pages at h') ne;
}

pub get_elem?-view :
    (tables : List (Option (List Row))) (i : ℕ) (slot : Option (List Row))
    → get_elem? tables i ≡ some slot
    → get_elem? (map frames_of tables) i ≡ some (frames_of slot)
get_elem?-view [] i slot h = absurd (ground arith)
get_elem?-view (t ∷ tables) zero slot h = ground arith
get_elem?-view (t ∷ tables) (suc i) slot h = get_elem?-view tables i slot h

pub view-set :
    (tables : List (Option (List Row))) (i : ℕ) (slot : Option (List Row))
    → map frames_of (set tables i slot) ≡ set (map frames_of tables) i (frames_of slot)
view-set [] i slot = refl
view-set (t ∷ tables) zero slot = refl
view-set (t ∷ tables) (suc i) slot = ap (λ (v : View). frames_of t ∷ v) (view-set tables i slot)

pub set-same :
    (v : View) (i : ℕ) (slot : Option (List ℕ)) → get_elem? v i ≡ some slot → set v i slot ≡ v
set-same [] i slot h = refl
set-same (x ∷ v) zero slot h = ground arith
set-same (x ∷ v) (suc i) slot h = ap (λ (v : View). x ∷ v) (set-same v i slot h)

-- Rows that keep their frames are put in their table's place.
pub view-put :
    (tables : List (Option (List Row))) (i : ℕ) (rows rows' : List Row)
    → get_elem? tables i ≡ some (some rows)
    → map frame_of rows' ≡ map frame_of rows
    → map frames_of (set tables i (some rows')) ≡ map frames_of tables
view-put tables i rows rows' h same =
    view-set tables i (some rows')
    ∙ set-same (map frames_of tables) i (some (map frame_of rows'))
        (get_elem?-view tables i (some rows) h ∙ ap (λ (fs : List ℕ). some (some fs)) (sym same))
