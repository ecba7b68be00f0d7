-- ===== src/Memory/Clock/Round.antt =====
-- One round of the improved clock selector: what it takes and what it leaves.
use os_sski.Common.{
  ℕ, zero, suc, ◌+◌, ◌≡◌, ◌⊎◌, inl, inr, refl, sym, ap, ◌∙◌, Bool, true, false, Option, none, some,
  List, [], ◌∷◌, map, arith, length, get_elem?, get_elem?_lt,
}
use os_sski.Memory.Table.{Row}
use os_sski.Memory.Clock.{with_use, pass, visit_clean, visit_modified, round}
use os_sski.Memory.Clock.Pass.{IsHit, NoHit, pass-Outcome, pass-none, shape-pass}

-- The rows `rows'` differ from `rows` in use bits only.
abbrev pub SameShape : List Row → List Row → Type 0
SameShape rows rows' = map (with_use false) rows' ≡ map (with_use false) rows

-- What `visit` keeps and what it takes.
pub record IsVisit (visit : ℕ → Row → Bool × Row) : Type 0 where
  pub keeps : (i : ℕ) (r : Row) → with_use false (visit i r).1 ≡ with_use false r
  pub takes : (i : ℕ) (r : Row) → (visit i r).0 ≡ true → r.present ≡ true

pub visit_clean-IsVisit : IsVisit visit_clean
unfolding visit_clean
visit_clean-IsVisit = record { keeps = λ i r. ground arith; takes = λ i r h. ground arith }

pub visit_modified-IsVisit : IsVisit visit_modified
unfolding visit_modified
visit_modified-IsVisit = record { keeps = λ i r. ground arith; takes = λ i r h. ground arith }

-- A row of the changed rows was there before, with the same frame and presence.
pub shape-get :
    (rows rows' : List Row) (j : ℕ) (r : Row)
    → SameShape rows rows'
    → get_elem? rows' j ≡ some r
    → (q : Row) × (get_elem? rows j ≡ some q)
      × (q.frame ≡ r.frame)
      × (q.present ≡ r.present)
      × (q.modified ≡ r.modified)
shape-get [] [] j r e h = absurd (ground arith)
shape-get [] (x ∷ xs) j r e h = absurd (cc e)
shape-get (q ∷ qs) [] j r e h = absurd (ground arith)
shape-get (q ∷ qs) (x ∷ xs) zero r e h = (q, refl, ground arith, ground arith, ground arith)
shape-get (q ∷ qs) (x ∷ xs) (suc j) r e h = shape-get qs xs j r (cc e) h

abbrev pub Hits : List Row → Option (ℕ × ℕ) → Type 0
Hits rows found =
    (j : ℕ) × (q : Row) × (found ≡ some (j, q.frame))
    × (get_elem? rows j ≡ some q)
    × (q.present ≡ true)

module _ (visit : ℕ → Row → Bool × Row) (v : IsVisit visit) (clock : ℕ) where
  abbrev pub first : List Row → Option (ℕ × ℕ) × List Row
  first rows = pass visit clock (length rows) 0 rows

  abbrev pub second : List Row → Option (ℕ × ℕ) × List Row
  second rows = pass visit 0 (clock + 1) 0 (first rows).1

  round-first :
      (rows : List Row) (hit : ℕ × ℕ)
      → (first rows).0 ≡ some hit
      → round visit clock rows ≡ (some hit, (first rows).1)
  unfolding round
  round-first rows hit e = rw (e, round)

  round-second : (rows : List Row) → (first rows).0 ≡ none → round visit clock rows ≡ second rows
  unfolding round
  round-second rows e = rw (e, round)

  first-shape : (rows : List Row) → SameShape rows (first rows).1
  first-shape rows = shape-pass visit clock (length rows) v.keeps 0 rows

  second-shape : (rows : List Row) → SameShape rows (second rows).1
  second-shape rows = shape-pass visit 0 (clock + 1) v.keeps 0 (first rows).1 ∙ first-shape rows

  pass-Hits :
      (lo hi : ℕ) (rows seen : List Row) (j : ℕ) (r : Row) (found : Option (ℕ × ℕ))
      → SameShape rows seen
      → found ≡ some (0 + j, r.frame)
      → IsHit visit lo hi 0 seen j r
      → Hits rows found
  pass-Hits lo hi rows seen j r found shape e o =
      let (q, there, frame, present, _) = shape-get rows seen j r shape o.there in
      (
        j,
        q,
        e
            ∙ ap (λ (k : ℕ). some (k, r.frame)) (omega arith)
            ∙ ap (λ (f : ℕ). some (j, f)) (sym frame),
        there,
        present ∙ v.takes (0 + j) r o.matches,
      )

  -- A round finds a present row, or nothing; then the row at the clock was visited twice. In
  -- either case only use bits change.
  abbrev pub Round : List Row → Option (ℕ × ℕ) × List Row → Type 0
  Round rows result =
      SameShape rows result.1
      × (Hits rows result.0
          ⊎ ((result.0 ≡ none)
              × ((r : Row)
                  → get_elem? rows clock ≡ some r
                  → ((visit (0 + clock) r).0 ≡ false)
                    × ((visit (0 + clock) (visit (0 + clock) r).1).0 ≡ false)
                    × (get_elem? result.1 clock
                        ≡ some (visit (0 + clock) (visit (0 + clock) r).1).1))))

  at_clock :
      (rows : List Row)
      → (first rows).0 ≡ none
      → NoHit visit clock (length rows) 0 rows
      → (second rows).0 ≡ none
      → NoHit visit 0 (clock + 1) 0 (first rows).1
      → (r : Row) → get_elem? rows clock ≡ some r
      → ((visit (0 + clock) r).0 ≡ false)
        × ((visit (0 + clock) (visit (0 + clock) r).1).0 ≡ false)
        × (get_elem? (second rows).1 clock ≡ some (visit (0 + clock) (visit (0 + clock) r).1).1)
  at_clock rows e missed e' missed' r there =
      let inside = get_elem?_lt rows clock r there in
      let seen : get_elem? (first rows).1 clock ≡ some (visit (0 + clock) r).1 =
        pass-none visit clock (length rows) 0 rows clock r e there ∙ ground arith in
      let again : get_elem? (second rows).1 clock
          ≡ some (visit (0 + clock) (visit (0 + clock) r).1).1 =
        pass-none visit 0 (clock + 1) 0 (first rows).1 clock _ e' seen ∙ ground arith in
      (
        missed clock r there (omega arith) (omega arith),
        missed' clock _ seen (omega arith) (omega arith),
        again,
      )

  pub round-Round : (rows : List Row) → Round rows (round visit clock rows)
  round-Round rows = elim (pass-Outcome visit clock (length rows) 0 rows) [
    | inr (j, r, e, o) ↦
        rw (round-first rows (0 + j, r.frame) e)
          (first-shape rows, inl (pass-Hits clock (length rows) rows rows j r _ refl refl o))
    | inl (e, missed) ↦ rw (round-second rows e) (
      second-shape rows,
      elim (pass-Outcome visit 0 (clock + 1) 0 (first rows).1) [
        | inr (j, r, e', o) ↦
            inl (pass-Hits 0 (clock + 1) rows (first rows).1 j r _ (first-shape rows) e' o)
        | inl (e', missed') ↦ inr (e', at_clock rows e missed e' missed')
      ],
    )
  ]
