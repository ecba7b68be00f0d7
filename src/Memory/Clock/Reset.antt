-- ===== src/Memory/Clock/Reset.antt =====
-- What the clock selector does when nothing can be chosen.
use os_sski.Common.{
  ℕ, zero, suc, ◌+◌, ◌≡◌, inl, inr, ◌∙◌, Bool, true, false, ◌&&◌, none, some, List, [], ◌∷◌, map,
  arith, length, get_elem?, set, ltb, leb, if◌then◌else◌,
}
use os_sski.Memory.Table.{Row}
use os_sski.Memory.Clock.{
  with_use, pass, visit_clearing, visit_unused, reset_all, Choice, clock_selector,
}
use os_sski.Memory.Clock.Pass.{IsHit, pass-Outcome, get_elem-pass, pass-none}
use os_sski.Memory.Clock.Victim.{
  first, second, keeps_clearing, keeps_unused, clearing_hit, unused_hit, clearing_left,
}

get_elem?-map :
    (f : Row → Row) (rows : List Row) (i : ℕ) (r : Row)
    → get_elem? rows i ≡ some r
    → get_elem? (map f rows) i ≡ some (f r)
get_elem?-map f [] i r h = absurd (ground arith)
get_elem?-map f (x ∷ xs) zero r h = ground arith
get_elem?-map f (x ∷ xs) (suc i) r h = get_elem?-map f xs i r h

-- A loop that matched nothing keeps a row's frame.
frame_at :
    (visit : ℕ → Row → Bool × Row) (lo hi : ℕ) (rows : List Row) (clock : ℕ) (r : Row)
    → (pass visit lo hi 0 rows).0 ≡ none
    → get_elem? rows clock ≡ some r
    → ((i : ℕ) (r : Row) → with_use false (visit i r).1 ≡ with_use false r)
    → (q : Row) × (get_elem? (pass visit lo hi 0 rows).1 clock ≡ some q) × (q.frame ≡ r.frame)
frame_at visit lo hi rows clock r e there keeps = (
  if leb lo (0 + clock) && ltb (0 + clock) hi then (visit (0 + clock) r).1 else r,
  pass-none visit lo hi 0 rows clock r e there,
  ground (arith, keeps (0 + clock) r),
)

module _ (clock : ℕ) (rows : List Row) where
  no_second :
      (r : Row)
      → get_elem? rows clock ≡ some r
      → r.present ≡ false
      → ((j : ℕ) (q : Row) → get_elem? rows j ≡ some q → q.present ≡ true → q.use_bit ≡ true)
      → (j : ℕ) (q : Row) → IsHit visit_unused 0 (clock + 1) 0 (first clock rows).1 j q
      → ⊥
  no_second r there absent used j q o =
      let (present, unused) = unused_hit (0 + j) q o.matches in
      let (p, there', kind) =
        get_elem-pass (visit_clearing clock) clock (length rows) 0 rows j q o.there in
      let same : 0 + j ≡ j = omega arith in
      let (present', reason, _) = clearing_left clock j p q (rw same at kind) present unused in
      elim reason [
        | inl u ↦ cc (used j p there' present', u)
        | inr e ↦
            let at_clock : get_elem? rows clock ≡ some p = rw e at there' in
            cc (at_clock, there, present', absent)
      ]

  reset_absent :
      (r : Row)
      → get_elem? rows clock ≡ some r
      → (first clock rows).0 ≡ none
      → (second clock rows).0 ≡ none
      → (c : Choice) × (clock_selector clock rows ≡ some c) × (c.0 ≡ r.frame)
  unfolding clock_selector reset_all
  reset_absent r there e e' =
      let (q, here, same) =
        frame_at (visit_clearing clock) clock (length rows) rows clock r e there
          (keeps_clearing clock) in
      let (q', here', same') =
        frame_at visit_unused 0 (clock + 1) (first clock rows).1 clock q e' here keeps_unused in
      let cleared = get_elem?-map (with_use false) (second clock rows).1 clock q' here' in
      (
        (
          q'.frame,
          if leb (clock + 1) (length (second clock rows).1) then 0 else clock + 1,
          set (map (with_use false) (second clock rows).1) clock
              (with_use true (with_use false q')),
        ),
        simp (e, e', clock_selector) (rw (cleared, reset_all)),
        same' ∙ same,
      )

  -- When every present page is used and the row at the clock is absent, `clock_selector` answers the
  -- frame field of that absent row.
  pub clock_selector_takes_absent :
      (r : Row)
      → get_elem? rows clock ≡ some r
      → r.present ≡ false
      → ((j : ℕ) (q : Row) → get_elem? rows j ≡ some q → q.present ≡ true → q.use_bit ≡ true)
      → (c : Choice) × (clock_selector clock rows ≡ some c) × (c.0 ≡ r.frame)
  clock_selector_takes_absent r there absent used =
      reset_absent r there
        (elim (pass-Outcome (visit_clearing clock) clock (length rows) 0 rows) [
          | inl (none_first, _) ↦ none_first
          | inr (j, q, _, o) ↦
              let (present, unused) = clearing_hit clock (0 + j) q o.matches in
              absurd (cc (used j q o.there present, unused))
        ])
        (elim (pass-Outcome visit_unused 0 (clock + 1) 0 (first clock rows).1) [
          | inl (none_second, _) ↦ none_second
          | inr (j, q, _, o) ↦ absurd (no_second r there absent used j q o)
        ])
