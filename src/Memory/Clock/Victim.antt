-- ===== src/Memory/Clock/Victim.antt =====
-- Which frame the clock selectors choose.
use os_sski.Common.{
  ℕ, ◌+◌, ◌≤◌, ◌<◌, ◌≡◌, ◌⊎◌, inl, inr, refl, ap, ◌∙◌, true, false, ◌&&◌, Option, none, some, List,
  map, arith, length, get_elem?, get_elem?_lt, ltb, leb, if◌then◌else◌,
}
use os_sski.Memory.Table.{Row}
use os_sski.Memory.Clock.{
  with_use, pass, visit_clearing, visit_unused, next_clock, Choice, clock_selector,
}
use os_sski.Memory.Clock.Pass.{IsHit, NoHit, pass-Outcome, get_elem-pass, pass-none, shape-pass}

-- The choice `c` is the frame of a present row `r` of `rows` that was unused or stands at the clock;
-- the clock is behind that row; of the rows only use bits have changed.
pub record IsVictim (clock : ℕ) (rows : List Row) (c : Choice) (j : ℕ) (r : Row) : Type 0 where
  pub there : get_elem? rows j ≡ some r
  pub is_present : r.present ≡ true
  pub reason : (r.use_bit ≡ false) ⊎ (j ≡ clock)
  pub its_frame : c.0 ≡ r.frame
  pub behind : c.1 ≡ next_clock (length rows) j
  pub shape : map (with_use false) c.2 ≡ map (with_use false) rows

abbrev Chooses : ℕ → List Row → Option Choice → Type 0
Chooses clock rows r = (c : Choice) × (j : ℕ) × (q : Row) × (r ≡ some c) × IsVictim clock rows c j q

pub keeps_clearing :
    (clock i : ℕ) (r : Row) → with_use false (visit_clearing clock i r).1 ≡ with_use false r
unfolding visit_clearing
keeps_clearing clock i r = ground arith

pub keeps_unused : (i : ℕ) (r : Row) → with_use false (visit_unused i r).1 ≡ with_use false r
unfolding visit_unused
keeps_unused i r = ground arith

pub clearing_hit :
    (clock i : ℕ) (r : Row)
    → (visit_clearing clock i r).0 ≡ true
    → (r.present ≡ true) × (r.use_bit ≡ false)
unfolding visit_clearing
clearing_hit clock i r h = (ground arith, ground arith)

pub unused_hit :
    (i : ℕ) (r : Row) → (visit_unused i r).0 ≡ true → (r.present ≡ true) × (r.use_bit ≡ false)
unfolding visit_unused
unused_hit i r h = (ground arith, ground arith)

-- A row that the first loop left present and unused was present, and unused or at the clock.
pub clearing_left :
    (clock i : ℕ) (r q : Row)
    → (q ≡ r) ⊎ (q ≡ (visit_clearing clock i r).1)
    → q.present ≡ true
    → q.use_bit ≡ false
    → (r.present ≡ true) × ((r.use_bit ≡ false) ⊎ (i ≡ clock)) × (q.frame ≡ r.frame)
unfolding visit_clearing
clearing_left clock i r q kind p u = ground arith

-- The second loop matches what the first one left of a row that can be chosen.
left-unused :
    (clock i total : ℕ) (r : Row)
    → i < total
    → r.present ≡ true
    → (r.use_bit ≡ false) ⊎ (i ≡ clock)
    → (clock ≤ i → (visit_clearing clock i r).0 ≡ false)
    → let q = if leb clock i && ltb i total then (visit_clearing clock i r).1 else r in
      (i < clock + 1) × ((visit_unused i q).0 ≡ true)
unfolding visit_clearing visit_unused
left-unused clock i total r lt p reason missed = (ground arith, ground arith)

module _ (clock : ℕ) (rows : List Row) where
  abbrev pub first : Option (ℕ × ℕ) × List Row
  first = pass (visit_clearing clock) clock (length rows) 0 rows

  abbrev pub second : Option (ℕ × ℕ) × List Row
  second = pass visit_unused 0 (clock + 1) 0 first.1

  in_first :
      (j : ℕ) (r : Row)
      → first.0 ≡ some (0 + j, r.frame)
      → IsHit (visit_clearing clock) clock (length rows) 0 rows j r
      → Chooses clock rows (clock_selector clock rows)
  unfolding clock_selector
  in_first j r e o =
      let (present, unused) = clearing_hit clock (0 + j) r o.matches in
      (
        (r.frame, next_clock (length rows) (0 + j), first.1),
        j,
        r,
        simp (e, clock_selector),
        record {
          there = o.there;
          is_present = present;
          reason = inl unused;
          its_frame = refl;
          behind = ap (next_clock (length rows)) (omega arith);
          shape =
              shape-pass (visit_clearing clock) clock (length rows) (keeps_clearing clock) 0 rows;
        },
      )

  in_second :
      (j : ℕ) (q : Row)
      → first.0 ≡ none
      → second.0 ≡ some (0 + j, q.frame)
      → IsHit visit_unused 0 (clock + 1) 0 first.1 j q
      → Chooses clock rows (clock_selector clock rows)
  unfolding clock_selector
  in_second j q none_first e o =
      let (present, unused) = unused_hit (0 + j) q o.matches in
      let (r, there, kind) =
        get_elem-pass (visit_clearing clock) clock (length rows) 0 rows j q o.there in
      let same : 0 + j ≡ j = omega arith in
      let (present', reason, frame) = clearing_left clock j r q (rw same at kind) present unused in
      (
        (q.frame, next_clock (length rows) (0 + j), second.1),
        j,
        r,
        simp (none_first, e, clock_selector),
        record {
          there = there;
          is_present = present';
          reason = reason;
          its_frame = frame;
          behind = ap (next_clock (length rows)) (omega arith);
          shape =
              shape-pass visit_unused 0 (clock + 1) keeps_unused 0 first.1
              ∙ shape-pass (visit_clearing clock) clock (length rows) (keeps_clearing clock) 0 rows;
        },
      )

  second_hits :
      (k : ℕ) (r : Row)
      → get_elem? rows k ≡ some r
      → r.present ≡ true
      → (r.use_bit ≡ false) ⊎ (k ≡ clock)
      → first.0 ≡ none
      → NoHit (visit_clearing clock) clock (length rows) 0 rows
      → NoHit visit_unused 0 (clock + 1) 0 first.1
      → ⊥
  second_hits k r there present reason none_first missed missed_again =
      let inside : k < length rows = get_elem?_lt rows k r there in
      let same : k ≡ 0 + k = omega arith in
      let left = pass-none (visit_clearing clock) clock (length rows) 0 rows k r none_first there in
      let (below, hit) =
        left-unused clock (0 + k) (length rows) r (omega arith) present (rw same at reason)
          (λ ge. missed k r there ge (omega arith)) in
      let never = missed_again k _ left (omega arith) below in absurd (cc (never, hit))

  -- When some page is present and unused, or a present page stands at the clock, `clock_selector`
  -- chooses the frame of such a page and moves the clock behind it; of the rows it changes only use
  -- bits.
  pub clock_selector-IsVictim :
      (k : ℕ) (r : Row)
      → get_elem? rows k ≡ some r
      → r.present ≡ true
      → (r.use_bit ≡ false) ⊎ (k ≡ clock)
      → (c : Choice) × (j : ℕ) × (q : Row) × (clock_selector clock rows ≡ some c)
        × IsVictim clock rows c j q
  clock_selector-IsVictim k r there present reason =
      elim (pass-Outcome (visit_clearing clock) clock (length rows) 0 rows) [
        | inr (j, q, e, o) ↦ in_first j q e o
        | inl (none_first, missed) ↦ elim (pass-Outcome visit_unused 0 (clock + 1) 0 first.1) [
          | inr (j, q, e, o) ↦ in_second j q none_first e o
          | inl (_, missed_again) ↦
              absurd (second_hits k r there present reason none_first missed missed_again)
        ]
      ]
