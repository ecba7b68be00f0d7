-- ===== src/Memory/Isolation/Keeps/Shape.antt =====
-- The two selectors of memory/src/module/algorithms.c change use bits only.
use os_sski.Common.{
  ℕ, zero, suc, ◌+◌, ◌≡◌, refl, sym, ap, ◌∙◌, inl, inr, true, false, some, List, [], ◌∷◌, map,
  arith, length, get_elem?, set, Option-cases, Bool-cases,
}
use os_sski.Memory.Table.{Row}
use os_sski.Memory.Clock.{
  with_use, pass, visit_clearing, visit_unused, reset_all, Choice, clock_selector,
  improved_clock_selector, round, visit_clean, visit_modified,
}
use os_sski.Memory.Clock.Pass.{shape-pass}
use os_sski.Memory.Clock.Victim.{keeps_clearing, keeps_unused}
use os_sski.Memory.Clock.Round.{SameShape, visit_clean-IsVisit, visit_modified-IsVisit, round-Round}
use os_sski.Memory.Server.{Settings, frame_selector}
use os_sski.Memory.Isolation.{frame_of}

abbrev clear : List Row → List Row
clear = map (with_use false)

clear-clear : (rows : List Row) → clear (clear rows) ≡ clear rows
clear-clear [] = refl
clear-clear (r ∷ rows) = ap (λ (rs : List Row). with_use false r ∷ rs) (clear-clear rows)

clear-set :
    (rows : List Row) (i : ℕ) (r : Row)
    → get_elem? rows i ≡ some r
    → clear (set rows i (with_use true r)) ≡ clear rows
clear-set [] i r h = refl
clear-set (x ∷ rows) zero r h = ground arith
clear-set (x ∷ rows) (suc i) r h =
    ap (λ (rs : List Row). with_use false x ∷ rs) (clear-set rows i r h)

reset_all-shape :
    (clock : ℕ) (rows : List Row) (c : Choice) → reset_all clock rows ≡ some c → SameShape rows c.2
unfolding reset_all
reset_all-shape clock rows c h = elim (Option-cases (get_elem? (clear rows) clock)) [
  | inl outside ↦ absurd (ground (arith, h, outside))
  | inr (r, there) ↦
      let last : set (clear rows) clock (with_use true r) ≡ c.2 =
        ground (arith, rw (there, reset_all) at h) in
      rw last at (clear-set (clear rows) clock r there ∙ clear-clear rows)
]

clock_selector-shape :
    (clock : ℕ) (rows : List Row) (c : Choice)
    → clock_selector clock rows ≡ some c
    → SameShape rows c.2
unfolding clock_selector
clock_selector-shape clock rows c h =
    let first = pass (visit_clearing clock) clock (length rows) 0 rows in
    let again = pass visit_unused 0 (clock + 1) 0 first.1 in
    let seen : SameShape rows first.1 =
      shape-pass (visit_clearing clock) clock (length rows) (keeps_clearing clock) 0 rows in
    let seen_again : SameShape rows again.1 =
      shape-pass visit_unused 0 (clock + 1) keeps_unused 0 first.1 ∙ seen in
    elim (Option-cases first.0) [
      | inr (hit, e) ↦
          let last : first.1 ≡ c.2 = ground (arith, rw (e, clock_selector) at h) in rw last at seen
      | inl e ↦ elim (Option-cases again.0) [
        | inr (hit, e') ↦
            let last : again.1 ≡ c.2 = ground (arith, rw (e, e', clock_selector) at h) in
            rw last at seen_again
        | inl e' ↦ reset_all-shape clock again.1 c (rw (e, e', clock_selector) at h) ∙ seen_again
      ]
    ]

improved-shape :
    (clock : ℕ) (rows : List Row) → SameShape rows (improved_clock_selector clock rows).2
unfolding improved_clock_selector
improved-shape clock rows =
    let first = round visit_clean clock rows in
    let second = round visit_modified clock first.1 in
    let third = round visit_clean clock second.1 in
    let a : SameShape rows first.1 = (round-Round visit_clean visit_clean-IsVisit clock rows).0 in
    let b : SameShape rows second.1 =
      (round-Round visit_modified visit_modified-IsVisit clock first.1).0 ∙ a in
    let d : SameShape rows third.1 =
      (round-Round visit_clean visit_clean-IsVisit clock second.1).0 ∙ b in
    elim (Option-cases first.0) [
      | inr (hit, e) ↦ rw (e, improved_clock_selector) a
      | inl e ↦ elim (Option-cases second.0) [
        | inr (hit, e') ↦ rw (e, e', improved_clock_selector) b
        | inl e' ↦ elim (Option-cases third.0) [
          | inr (hit, e'') ↦ rw (e, e', e'', improved_clock_selector) d
          | inl e'' ↦ rw (e, e', e'', improved_clock_selector) d
        ]
      ]
    ]

pub frame_selector-shape :
    (c : Settings) (clock : ℕ) (rows : List Row) (choice : Choice)
    → frame_selector c clock rows ≡ some choice
    → SameShape rows choice.2
unfolding frame_selector
frame_selector-shape c clock rows choice h = elim (Bool-cases c.algoritmo_is_clock) [
  | inl simple ↦ clock_selector-shape clock rows choice (rw (simple, frame_selector) at h)
  | inr improved ↦
      let last : improved_clock_selector clock rows ≡ choice =
        ground (arith, rw (improved, frame_selector) at h) in
      rw last at (improved-shape clock rows)
]

-- Use bits apart, the same frames.
frames-clear : (rows : List Row) → map frame_of (clear rows) ≡ map frame_of rows
frames-clear [] = refl
frames-clear (r ∷ rows) = ap (λ (fs : List ℕ). r.frame ∷ fs) (frames-clear rows)

pub frames-shape :
    (rows rows' : List Row) → SameShape rows rows' → map frame_of rows' ≡ map frame_of rows
frames-shape rows rows' e =
    sym (frames-clear rows') ∙ ap (λ (rs : List Row). map frame_of rs) e ∙ frames-clear rows
