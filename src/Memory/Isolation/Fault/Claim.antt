-- ===== src/Memory/Isolation/Fault/Claim.antt =====
-- Taking a free frame, giving it back, and writing it into an empty row.
use os_sski.Common.{
  ℕ, zero, suc, ◌≡◌, ◌≢◌, ◌⊎◌, refl, sym, ap, ◌∙◌, inl, inr, Bool, true, false, Option, some, List,
  [], ◌∷◌, map, arith, >>=-eq-some, length, get_elem?, set, length-set, get_elem?-set_self,
  get_elem?-set_ne, get_elem?_lt,
}
use os_sski.Memory.Table.{Row, invalid_frame}
use os_sski.Memory.Frames.{find_free_frame, delete_frame, delete_frame-find_free_frame}
use os_sski.Memory.Process.{Memory, get_table}
use os_sski.Memory.Isolation.{View, frames_of, view, frame_at, IsIsolated}

-- No page has the frame `n`, unless it is the mark of no frame.
abbrev pub IsUnheld : View → ℕ → Type 0
IsUnheld v n = (i j f : ℕ) → frame_at v i j ≡ some f → f ≢ invalid_frame → f ≢ n

set-true :
    (frames : List Bool) (n f : ℕ)
    → get_elem? frames f ≡ some true
    → get_elem? (set frames n true) f ≡ some true
set-true [] n f h = h
set-true (x ∷ frames) zero zero h = refl
set-true (x ∷ frames) zero (suc f) h = h
set-true (x ∷ frames) (suc n) zero h = h
set-true (x ∷ frames) (suc n) (suc f) h = set-true frames n f h

-- With one more frame marked.
marked-IsIsolated :
    (m : Memory) (n : ℕ) → IsIsolated m → IsIsolated (record m { frames = set m.frames n true })
marked-IsIsolated m n w = record {
  full = w.full;
  taken = λ i j f h ne. set-true m.frames n f (w.taken i j f h ne);
  distinct = w.distinct;
}

-- A frame that is found is held by no page and marked.
pub found-IsIsolated :
    (m : Memory)
    → IsIsolated m
    → IsIsolated (record m { frames = (find_free_frame m.frames).1 })
      × IsUnheld (view m) (find_free_frame m.frames).0
      × (((find_free_frame m.frames).0 ≢ invalid_frame)
          → get_elem? (find_free_frame m.frames).1 (find_free_frame m.frames).0 ≡ some true)
found-IsIsolated m w =
    let n = (find_free_frame m.frames).0 in
    elim (delete_frame-find_free_frame m.frames) [
      | inl (free, taken, _) ↦ (
        rw taken (marked-IsIsolated m n w),
        λ i j f h ne e. absurd (ground (arith, free, rw e at (w.taken i j f h ne))),
        λ _. rw taken (get_elem?-set_self m.frames n true (get_elem?_lt m.frames n false free)),
      )
      | inr none_free ↦
          let all : (find_free_frame m.frames).1 ≡ m.frames =
            ap (λ (x : ℕ × List Bool). x.1) none_free in
          let mark : n ≡ invalid_frame = ap (λ (x : ℕ × List Bool). x.0) none_free in
          (rw all w, λ i j f h ne e. ne (e ∙ mark), λ ne. absurd (ne mark))
    ]

pub delete_frame-other :
    (frames frames' : List Bool) (n f : ℕ)
    → delete_frame frames n ≡ some frames'
    → f ≢ n
    → get_elem? frames' f ≡ get_elem? frames f
unfolding delete_frame
delete_frame-other frames frames' n f h ne =
    ground (arith, h, get_elem?-set_ne frames {i = n} {j = f} false (λ e. ne (sym e)))

-- A frame that no page holds is given back.
pub deleted-IsIsolated :
    (m : Memory) (n : ℕ) (frames : List Bool)
    → IsIsolated m
    → IsUnheld (view m) n
    → delete_frame m.frames n ≡ some frames
    → IsIsolated (record m { frames = frames })
deleted-IsIsolated m n frames w unheld h = record {
  full = w.full;
  taken = λ i j f there ne.
      delete_frame-other m.frames frames n f h (unheld i j f there ne) ∙ w.taken i j f there ne;
  distinct = w.distinct;
}

get_table-set :
    (v : View) (i0 i : ℕ) (fs gs : List ℕ)
    → get_table (set v i0 (some fs)) i ≡ some gs
    → ((i ≡ i0) × (gs ≡ fs)) ⊎ (get_table v i ≡ some gs)
unfolding get_table
get_table-set [] i0 i fs gs h = absurd (ground (arith, h))
get_table-set (x ∷ v) zero zero fs gs h = inl (refl, ground (arith, h))
get_table-set (x ∷ v) zero (suc i) fs gs h = inr h
get_table-set (x ∷ v) (suc i0) zero fs gs h = inr h
get_table-set (x ∷ v) (suc i0) (suc i) fs gs h = elim (get_table-set v i0 i fs gs h) [
  | inl (e, same) ↦ inl (ap suc e, same)
  | inr below ↦ inr below
]

get_elem?-set :
    (fs : List ℕ) (k j n f : ℕ)
    → get_elem? (set fs k n) j ≡ some f
    → ((j ≡ k) × (f ≡ n)) ⊎ (get_elem? fs j ≡ some f)
get_elem?-set [] k j n f h = inr h
get_elem?-set (x ∷ fs) zero zero n f h = inl (refl, ground (arith, h))
get_elem?-set (x ∷ fs) zero (suc j) n f h = inr h
get_elem?-set (x ∷ fs) (suc k) zero n f h = inr h
get_elem?-set (x ∷ fs) (suc k) (suc j) n f h = elim (get_elem?-set fs k j n f h) [
  | inl (e, same) ↦ inl (ap suc e, same)
  | inr below ↦ inr below
]

module _ (v : View) (i0 k n : ℕ) (fs : List ℕ) (there : get_table v i0 ≡ some fs) where
  abbrev claimed : View
  claimed = set v i0 (some (set fs k n))

  frame_at-claimed :
      (i j f : ℕ)
      → frame_at claimed i j ≡ some f
      → ((i ≡ i0) × (j ≡ k) × (f ≡ n)) ⊎ (frame_at v i j ≡ some f)
  unfolding frame_at
  frame_at-claimed i j f h =
      let (gs, table, h) = >>=-eq-some (get_table claimed i) _ h in
      elim (get_table-set v i0 i (set fs k n) gs table) [
        | inr old ↦ inr (rw old h)
        | inl (e, same) ↦ elim (get_elem?-set fs k j n f (rw same at h)) [
          | inl (e', new) ↦ inl (e, e', new)
          | inr old ↦ inr (rw (e, there) old)
        ]
      ]

-- The frame is written into a row of a table.
pub claimed-IsIsolated :
    (m : Memory) (i0 k n : ℕ) (fs : List ℕ) (tables : List (Option (List Row)))
    → IsIsolated m
    → get_table (view m) i0 ≡ some fs
    → IsUnheld (view m) n
    → (n ≢ invalid_frame → get_elem? m.frames n ≡ some true)
    → map frames_of tables ≡ set (view m) i0 (some (set fs k n))
    → IsIsolated (record m { tables_lvl_2 = tables })
claimed-IsIsolated m i0 k n fs tables w there unheld marked e = record {
  full = λ i gs h. elim (get_table-set (view m) i0 i (set fs k n) gs (rw e at h)) [
    | inl (_, same) ↦ ap (λ (xs : List ℕ). length xs) same ∙ length-set fs k n ∙ w.full i0 fs there
    | inr old ↦ w.full i gs old
  ];
  taken = λ i j f h ne. elim (at i j f h) [
    | inl (_, _, new) ↦ rw new (marked (λ x. ne (new ∙ x)))
    | inr old ↦ w.taken i j f old ne
  ];
  distinct = λ i j i' j' f h h' ne. elim (at i j f h) [
    | inl (a, b, new) ↦ elim (at i' j' f h') [
      | inl (a', b', _) ↦ (a ∙ sym a', b ∙ sym b')
      | inr old ↦ absurd (unheld i' j' f old ne new)
    ]
    | inr old ↦ elim (at i' j' f h') [
      | inl (_, _, new) ↦ absurd (unheld i j f old ne new)
      | inr old' ↦ w.distinct i j i' j' f old old' ne
    ]
  ];
}
  where
    at :
        (i j f : ℕ)
        → frame_at (map frames_of tables) i j ≡ some f
        → ((i ≡ i0) × (j ≡ k) × (f ≡ n)) ⊎ (frame_at (view m) i j ≡ some f)
    at i j f h = frame_at-claimed (view m) i0 k n fs there i j f (rw e at h)
