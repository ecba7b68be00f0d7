-- ===== src/Memory/Clock/Improved.antt =====
-- Which frame the improved clock selector chooses.
use os_sski.Common.{
  ℕ, ◌+◌, ◌≡◌, inl, inr, refl, sym, ap, ◌∙◌, true, false, Option, none, some, List, map, arith,
  length, get_elem?,
}
use os_sski.Memory.Table.{Row}
use os_sski.Memory.Clock.{
  with_use, next_clock, Choice, visit_clean, visit_modified, round, chosen, improved_clock_selector,
}
use os_sski.Memory.Clock.Round.{
  SameShape, visit_clean-IsVisit, visit_modified-IsVisit, shape-get, Hits, round-Round,
}

-- The choice is the frame of a present row, with the clock behind it and only use bits changed.
pub record IsSelected (rows : List Row) (c : Choice) (j : ℕ) (q : Row) : Type 0 where
  pub there : get_elem? rows j ≡ some q
  pub is_present : q.present ≡ true
  pub its_frame : c.0 ≡ q.frame
  pub behind : c.1 ≡ next_clock (length rows) j
  pub shape : SameShape rows c.2

abbrev Selected : List Row → Choice → Type 0
Selected rows c = (j : ℕ) × (q : Row) × IsSelected rows c j q

Hits-SameShape :
    (rows seen : List Row) (found : Option (ℕ × ℕ))
    → SameShape rows seen
    → Hits seen found
    → Hits rows found
Hits-SameShape rows seen found shape (j, r, e, there, present) =
    let (q, there', frame, present', _) = shape-get rows seen j r shape there in
    (j, q, e ∙ ap (λ (f : ℕ). some (j, f)) (sym frame), there', present' ∙ present)

select :
    (rows after : List Row) (found : Option (ℕ × ℕ)) (c : Choice)
    → SameShape rows after
    → (h : Hits rows found) → c ≡ chosen (length rows) (h.0, h.1.frame) after
    → Selected rows c
select rows after found c shape (j, q, _, there, present) e = (
  j,
  q,
  record {
    there = there;
    is_present = present;
    its_frame = ap (λ (x : Choice). x.0) e;
    behind = ap (λ (x : Choice). x.1) e;
    shape = ap (λ (x : Choice). map (with_use false) x.2) e ∙ shape;
  },
)

-- A present row that no visit of the first two rounds takes is taken in the third.
clean_misses :
    (i : ℕ) (r : Row) → r.present ≡ true → (visit_clean i r).0 ≡ false → (visit_clean i r).1 ≡ r
unfolding visit_clean
clean_misses i r p h = ground arith

modified_misses :
    (i : ℕ) (r : Row)
    → r.present ≡ true
    → (visit_modified i r).0 ≡ false
    → let once = (visit_modified i r).1 in
      (visit_modified i once).0 ≡ false → (visit_clean i (visit_modified i once).1).0 ≡ true
unfolding visit_modified visit_clean
modified_misses i r p h h' = ground arith

module _ (clock : ℕ) (rows : List Row) where
  abbrev one : Option (ℕ × ℕ) × List Row
  one = round visit_clean clock rows

  abbrev two : Option (ℕ × ℕ) × List Row
  two = round visit_modified clock one.1

  abbrev three : Option (ℕ × ℕ) × List Row
  three = round visit_clean clock two.1

  after_one :
      (hit : ℕ × ℕ)
      → one.0 ≡ some hit
      → improved_clock_selector clock rows ≡ chosen (length rows) hit one.1
  unfolding improved_clock_selector
  after_one hit e = simp (e, improved_clock_selector)

  after_two :
      (hit : ℕ × ℕ)
      → one.0 ≡ none
      → two.0 ≡ some hit
      → improved_clock_selector clock rows ≡ chosen (length rows) hit two.1
  unfolding improved_clock_selector
  after_two hit e e' = simp (e, e', improved_clock_selector)

  after_three :
      (hit : ℕ × ℕ)
      → one.0 ≡ none
      → two.0 ≡ none
      → three.0 ≡ some hit
      → improved_clock_selector clock rows ≡ chosen (length rows) hit three.1
  unfolding improved_clock_selector
  after_three hit e e' e'' = simp (e, e', e'', improved_clock_selector)

  -- When a present page stands at the clock, `improved_clock_selector` chooses the frame of a present
  -- page and moves the clock behind it; of the rows it changes only use bits.
  pub improved_clock_selector-IsSelected :
      (r : Row)
      → get_elem? rows clock ≡ some r
      → r.present ≡ true
      → (j : ℕ) × (q : Row) × IsSelected rows (improved_clock_selector clock rows) j q
  improved_clock_selector-IsSelected r there present =
      let (s1, r1) = round-Round visit_clean visit_clean-IsVisit clock rows in
      let (s2, r2) = round-Round visit_modified visit_modified-IsVisit clock one.1 in
      let (s3, r3) = round-Round visit_clean visit_clean-IsVisit clock two.1 in
      elim r1 [
        | inl h ↦ select rows one.1 one.0 _ s1 h (after_one _ h.2)
        | inr (e1, at1) ↦ elim r2 [
          | inl h ↦
              let h' = Hits-SameShape rows one.1 two.0 s1 h in
              select rows two.1 two.0 _ (s2 ∙ s1) h' (after_two _ e1 h'.2)
          | inr (e2, at2) ↦ elim r3 [
            | inl h ↦
                let h' = Hits-SameShape rows two.1 three.0 (s2 ∙ s1) h in
                select rows three.1 three.0 _ (s3 ∙ s2 ∙ s1) h' (after_three _ e1 e2 h'.2)
            | inr (e3, at3) ↦
                let (c1, _, g1) = at1 r there in
                let kept = clean_misses (0 + clock) r present c1 in
                let there1 : get_elem? one.1 clock ≡ some r =
                  g1 ∙ ap (λ (x : Row). some x) (rw (kept, kept) refl) in
                let (m1, m2, g2) = at2 r there1 in
                let (c3, _, _) = at3 _ g2 in
                absurd (cc (c3, modified_misses (0 + clock) r present m1 m2))
          ]
        ]
      ]
