-- ===== src/Memory/Frames.antt =====
-- memory/src/module/os_memory.c: the frames that are taken, and a table's next free row.
use os_sski.Common.{
  ℕ, zero, suc, ◌+◌, ◌≤◌, ◌<◌, ◌≡◌, ◌⊎◌, inl, inr, refl, ap, ◌∙◌, Bool, true, false, Option, none,
  some, List, [], ◌∷◌, arith, uint32_max, length, length-set, get_elem?, set, set-set_back, ltb,
  leb, ◌==◌, if◌then◌else◌,
}
use os_sski.Memory.Table.{Row, invalid_frame}

-- The loop from index `i` on.
unfoldable pub free_from : ℕ → List Bool → ℕ × List Bool
free_from i [] = (uint32_max, [])
free_from i (used ∷ frames) =
    let (found, rest) = free_from (i + 1) frames in
    if used then (found, true ∷ rest) else (i, true ∷ frames)

unfoldable pub find_free_frame : List Bool → ℕ × List Bool
unfolding free_from
find_free_frame frames = free_from 0 frames

-- The guard lets the number of frames itself through; `none` is the write behind the array.
unfoldable pub delete_frame : List Bool → ℕ → Option (List Bool)
delete_frame frames id =
    if leb id (length frames)
    then (if ltb id (length frames) then some (set frames id false) else none)
    else some frames

-- The loop of `create_frame_for_table`, from index `i` on.
unfoldable pub create_from : ℕ → ℕ → List Row → ℕ × List Row
create_from frame i [] = (uint32_max, [])
create_from frame i (r ∷ rs) =
    let (at, rest) = create_from frame (i + 1) rs in
    if r.frame == invalid_frame
    then (i, record r { present = true; frame = frame; use_bit = true } ∷ rs)
    else (at, r ∷ rest)

unfoldable pub create_frame_for_table : List Row → ℕ → ℕ × List Row
unfolding create_from
create_frame_for_table table frame = create_from frame 0 table

abbrev Found : ℕ → List Bool → ℕ × List Bool → Type 0
Found i frames r =
    ((n : ℕ) × (n < length frames)
      × (get_elem? frames n ≡ some false)
      × (r ≡ (i + n, set frames n true)))
    ⊎ (r ≡ (uint32_max, frames))

free_from-Found : (i : ℕ) (frames : List Bool) → Found i frames (free_from i frames)
unfolding free_from
free_from-Found i [] = inr refl
free_from-Found i (false ∷ frames) =
    inl (0, omega arith, refl, ap (λ (k : ℕ). (k, true ∷ frames)) (omega arith))
free_from-Found i (true ∷ frames) = later (free_from-Found (i + 1) frames)
  where
    later :
        Found (i + 1) frames (free_from (i + 1) frames)
        → Found i (true ∷ frames) (free_from i (true ∷ frames))
    later (inl (n, lt, free, e)) = inl (
      suc n,
      omega arith,
      free,
      ap (λ (r : ℕ × List Bool). (r.0, true ∷ r.1)) e
          ∙ ap (λ (k : ℕ). (k, true ∷ set frames n true)) (omega arith),
    )
    later (inr e) = inr (ap (λ (r : ℕ × List Bool). (r.0, true ∷ r.1)) e)

-- A frame that is found was free, and giving it back leaves the frames as they were; it fails only when
-- no frame is free, and then takes none.
pub delete_frame-find_free_frame :
    (frames : List Bool)
    → let (id, taken) = find_free_frame frames in
      ((get_elem? frames id ≡ some false)
        × (taken ≡ set frames id true)
        × (delete_frame taken id ≡ some frames))
      ⊎ (find_free_frame frames ≡ (uint32_max, frames))
unfolding find_free_frame delete_frame
delete_frame-find_free_frame frames = split (free_from-Found 0 frames)
  where
    split :
        Found 0 frames (free_from 0 frames)
        → ((get_elem? frames (free_from 0 frames).0 ≡ some false)
            × ((free_from 0 frames).1 ≡ set frames (free_from 0 frames).0 true)
            × (delete_frame (free_from 0 frames).1 (free_from 0 frames).0 ≡ some frames))
          ⊎ (free_from 0 frames ≡ (uint32_max, frames))
    split (inr e) = inr e
    split (inl (n, lt, free, e)) =
        let id : (free_from 0 frames).0 ≡ n = ap (λ (r : ℕ × List Bool). r.0) e ∙ omega arith in
        let after = ap (λ (r : ℕ × List Bool). r.1) e in
        inl (
          rw id free,
          rw (id, after) refl,
          rw (id, after)
              (ground (arith, length-set frames n true, set-set_back frames n true false free)),
        )

free_from-le :
    (i : ℕ) (frames : List Bool) (f : ℕ)
    → get_elem? frames f ≡ some false
    → (free_from i frames).0 ≤ i + f
unfolding free_from
free_from-le i [] f h = absurd (ground arith)
free_from-le i (false ∷ frames) f h = omega arith
free_from-le i (true ∷ frames) zero h = absurd (ground arith)
free_from-le i (true ∷ frames) (suc f) h = omega (arith, free_from-le (i + 1) frames f h)

-- The lowest free frame is found.
pub find_free_frame-le :
    (frames : List Bool) (f : ℕ) → get_elem? frames f ≡ some false → (find_free_frame frames).0 ≤ f
unfolding find_free_frame
find_free_frame-le frames f h = omega (arith, free_from-le 0 frames f h)
