-- ===== src/Memory/Clock.antt =====
-- memory/src/module/algorithms.c: the two clock selectors over the rows of one process, all of its
-- second-level tables in a line. The clock is a static variable.
pub mod Pass
pub mod Victim
pub mod Reset
pub mod Round
pub mod Improved
use os_sski.Common.{
  ℕ, zero, suc, ◌+◌, Bool, true, false, not, ◌&&◌, Option, none, some, List, [], ◌∷◌, map, length,
  get_elem?, set, ltb, leb, ◌==◌, if◌then◌else◌,
}
use os_sski.Memory.Table.{Row, invalid_frame}

abbrev pub with_use : Bool → Row → Row
with_use u r = record r { use_bit = u }

-- One loop over the indices from `lo` to before `hi`: `visit` says of a row whether it matches, and
-- what becomes of it. The loop ends with the first match, the index and the frame.
unfoldable pub pass : (ℕ → Row → Bool × Row) → ℕ → ℕ → ℕ → List Row → Option (ℕ × ℕ) × List Row
pass visit lo hi i [] = (none, [])
pass visit lo hi i (r ∷ rs) =
    let (found, rest) = pass visit lo hi (i + 1) rs in
    let (matches, seen) = visit i r in
    if leb lo i && ltb i hi
    then (if matches then (some (i, r.frame), seen ∷ rs) else (found, seen ∷ rest))
    else (found, r ∷ rest)

-- The body of the first loop of `clock_selector`.
unfoldable pub visit_clearing : ℕ → ℕ → Row → Bool × Row
visit_clearing clock i r =
    if r.present
    then (if not r.use_bit
        then (true, with_use true r)
        else if i == clock
        then (false, with_use false r)
        else (false, r))
    else (false, r)

-- The body of its second loop.
unfoldable pub visit_unused : ℕ → Row → Bool × Row
visit_unused i r = if r.present && not r.use_bit then (true, with_use true r) else (false, r)

unfoldable pub next_clock : ℕ → ℕ → ℕ
next_clock total j = if ltb (j + 1) total then j + 1 else 0

-- A victim's frame, the clock and the rows afterwards.
abbrev pub Choice : Type 0
Choice = ℕ × ℕ × List Row

-- Everything is in use: the row at the clock, whatever it holds. `none`: it is outside the table.
-- The clock is reset whenever it lies in the table.
unfoldable pub reset_all : ℕ → List Row → Option Choice
reset_all clock rows =
    let cleared = map (with_use false) rows in
    elim (get_elem? cleared clock) [
      | none ↦ none
      | some r ↦ some (
        r.frame,
        if leb (clock + 1) (length rows) then 0 else clock + 1,
        set cleared clock (with_use true r),
      )
    ]

unfoldable pub clock_selector : ℕ → List Row → Option Choice
unfolding visit_clearing visit_unused pass next_clock reset_all
clock_selector clock rows =
    let total = length rows in
    let (found, seen) = pass (visit_clearing clock) clock total 0 rows in
    let (again, seen_again) = pass visit_unused 0 (clock + 1) 0 seen in
    elim found [
      | some (j, frame) ↦ some (frame, next_clock total j, seen)
      | none ↦ elim again [
        | some (j, frame) ↦ some (frame, next_clock total j, seen_again)
        | none ↦ reset_all clock seen_again
      ]
    ]

-- U = 0 and M = 0.
unfoldable pub visit_clean : ℕ → Row → Bool × Row
visit_clean i r =
    if r.present && not r.use_bit && not r.modified then (true, with_use true r) else (false, r)

-- U = 0 and M = 1; the use bit of the others is cleared.
unfoldable pub visit_modified : ℕ → Row → Bool × Row
visit_modified i r =
    if r.present
    then (if not r.use_bit && r.modified
        then (true, with_use true r)
        else (false, with_use false r))
    else (false, r)

-- One round of `improved_clock_selector`: from the clock to the end, then from 0 to the clock.
unfoldable pub round : (ℕ → Row → Bool × Row) → ℕ → List Row → Option (ℕ × ℕ) × List Row
unfolding pass
round visit clock rows =
    let (found, seen) = pass visit clock (length rows) 0 rows in
    elim found [ some hit ↦ (some hit, seen) | none ↦ pass visit 0 (clock + 1) 0 seen ]

abbrev pub chosen : ℕ → ℕ × ℕ → List Row → Choice
chosen total hit rows = (hit.1, next_clock total hit.0, rows)

-- The three rounds; when none matches, the clock stays and the frame is invalid.
unfoldable pub improved_clock_selector : ℕ → List Row → Choice
unfolding round next_clock
improved_clock_selector clock rows =
    let total = length rows in
    let (clean, first) = round visit_clean clock rows in
    let (dirty, second) = round visit_modified clock first in
    let (last, third) = round visit_clean clock second in
    elim clean [
      | some hit ↦ chosen total hit first
      | none ↦ elim dirty [
        | some hit ↦ chosen total hit second
        | none ↦ elim last [
          | some hit ↦ chosen total hit third
          | none ↦ (invalid_frame, clock, third)
        ]
      ]
    ]
