-- ===== src/Memory/Clock/Pass.antt =====
-- What one loop over the rows finds and leaves.
use os_sski.Common.{
  ℕ, zero, suc, ◌+◌, ◌≤◌, ◌<◌, ◌≡◌, ◌⊎◌, inl, inr, refl, sym, ap, ◌∙◌, Bool, true, false, ◌&&◌,
  Option, none, some, List, [], ◌∷◌, map, arith, length, get_elem?, ltb, leb, if◌then◌else◌,
  Bool-cases,
}
use os_sski.Memory.Table.{Row}
use os_sski.Memory.Clock.{with_use, pass}

some-inj : {a b : Row} → some a ≡ some b → a ≡ b
some-inj e = cc

module _ (visit : ℕ → Row → Bool × Row) (lo hi : ℕ) where
  -- The match: the row at `j`, the first argument of `visit` being `i + j`.
  pub record IsHit (i : ℕ) (rows : List Row) (j : ℕ) (r : Row) : Type 0 where
    pub there : get_elem? rows j ≡ some r
    pub matches : (visit (i + j) r).0 ≡ true
    pub from_lo : lo ≤ i + j
    pub below_hi : i + j < hi

  abbrev pub NoHit : ℕ → List Row → Type 0
  NoHit i rows =
      (j : ℕ) (r : Row)
      → get_elem? rows j ≡ some r
      → lo ≤ i + j
      → i + j < hi
      → (visit (i + j) r).0 ≡ false

  abbrev pub Outcome : ℕ → List Row → Option (ℕ × ℕ) → Type 0
  Outcome i rows found =
      ((found ≡ none) × NoHit i rows)
      ⊎ ((j : ℕ) × (r : Row) × (found ≡ some (i + j, r.frame)) × IsHit i rows j r)

  cons-Outcome :
      (i : ℕ) (r : Row) (rs : List Row) (found : Option (ℕ × ℕ))
      → (lo ≤ i → i < hi → (visit i r).0 ≡ false)
      → Outcome (i + 1) rs found
      → Outcome i (r ∷ rs) found
  cons-Outcome i r rs found head (inl (e, missed)) = inl (e, all)
    where
      all : NoHit i (r ∷ rs)
      all zero q h ge lt =
          ap (λ (k : ℕ). (visit k q).0) (omega arith)
          ∙ rw (some-inj h) at (head (omega arith) (omega arith))
      all (suc j) q h ge lt =
          ap (λ (k : ℕ). (visit k q).0) (omega arith) ∙ missed j q h (omega arith) (omega arith)
  cons-Outcome i r rs found head (inr (j, q, e, o)) = inr (
    suc j,
    q,
    e ∙ ap (λ (k : ℕ). some (k, q.frame)) (omega arith),
    record {
      there = o.there;
      matches = ap (λ (k : ℕ). (visit k q).0) (omega arith) ∙ o.matches;
      from_lo = omega (arith, o.from_lo);
      below_hi = omega (arith, o.below_hi);
    },
  )

  pub pass-Outcome : (i : ℕ) (rows : List Row) → Outcome i rows (pass visit lo hi i rows).0
  unfolding pass
  pass-Outcome i [] = inl (refl, λ j r h. absurd (ground arith))
  pass-Outcome i (r ∷ rs) = elim (Bool-cases (leb lo i && ltb i hi)) [
    | inl inside ↦ elim (Bool-cases (visit i r).0) [
      | inl hit ↦
          rw (inside, hit, pass)
            (inr (
              0,
              r,
              ap (λ (k : ℕ). some (k, r.frame)) (omega arith),
              record {
                there = refl;
                matches = ap (λ (k : ℕ). (visit k r).0) (omega arith) ∙ hit;
                from_lo = ground arith;
                below_hi = ground arith;
              },
            ))
      | inr miss ↦
          rw (inside, miss, pass) (cons-Outcome i r rs _ (λ ge lt. miss) (pass-Outcome (i + 1) rs))
    ]
    | inr outside ↦
        rw (outside, pass)
          (cons-Outcome i r rs _ (λ ge lt. absurd (ground arith)) (pass-Outcome (i + 1) rs))
  ]

  pub length-pass : (i : ℕ) (rows : List Row) → length (pass visit lo hi i rows).1 ≡ length rows
  unfolding pass
  length-pass i [] = refl
  length-pass i (r ∷ rs) = ground (arith, length-pass (i + 1) rs)

  pass-tail :
      (i : ℕ) (r : Row) (rs : List Row) (j : ℕ)
      → (get_elem? (pass visit lo hi i (r ∷ rs)).1 (suc j) ≡ get_elem? rs j)
        ⊎ (get_elem? (pass visit lo hi i (r ∷ rs)).1 (suc j)
            ≡ get_elem? (pass visit lo hi (i + 1) rs).1 j)
  unfolding pass
  pass-tail i r rs j = ground arith

  -- A row afterwards was there before, and is as `visit` left it if it was touched.
  pub get_elem-pass :
      (i : ℕ) (rows : List Row) (j : ℕ) (q : Row)
      → get_elem? (pass visit lo hi i rows).1 j ≡ some q
      → (r : Row) × (get_elem? rows j ≡ some r) × ((q ≡ r) ⊎ (q ≡ (visit (i + j) r).1))
  unfolding pass
  get_elem-pass i [] j q h = absurd (ground arith)
  get_elem-pass i (r ∷ rs) zero q h = (r, refl, first)
    where
      same : i ≡ i + 0
      same = omega arith

      first : (q ≡ r) ⊎ (q ≡ (visit (i + 0) r).1)
      first = rw (← same) (ground arith)
  get_elem-pass i (r ∷ rs) (suc j) q h = elim (pass-tail i r rs j) [
    | inl e ↦ (q, sym e ∙ h, inl refl)
    | inr e ↦
        let (p, there, kind) = get_elem-pass (i + 1) rs j q (sym e ∙ h) in
        let same : i + 1 + j ≡ i + suc j = omega arith in (p, there, rw same at kind)
  ]

  pass-none-tail :
      (i : ℕ) (r : Row) (rs : List Row) (j : ℕ)
      → (pass visit lo hi i (r ∷ rs)).0 ≡ none
      → ((pass visit lo hi (i + 1) rs).0 ≡ none)
        × (get_elem? (pass visit lo hi i (r ∷ rs)).1 (suc j)
            ≡ get_elem? (pass visit lo hi (i + 1) rs).1 j)
  unfolding pass
  pass-none-tail i r rs j e = ground arith

  -- A loop that matched nothing has visited every row in its range.
  pub pass-none :
      (i : ℕ) (rows : List Row) (j : ℕ) (r : Row)
      → (pass visit lo hi i rows).0 ≡ none
      → get_elem? rows j ≡ some r
      → get_elem? (pass visit lo hi i rows).1 j
        ≡ some (if leb lo (i + j) && ltb (i + j) hi then (visit (i + j) r).1 else r)
  unfolding pass
  pass-none i [] j r e h = absurd (ground arith)
  pass-none i (p ∷ ps) zero r e h = rw (← same) (ground arith)
    where
      same : i ≡ i + 0
      same = omega arith
  pass-none i (p ∷ ps) (suc j) r e h =
      let (gone, tail) = pass-none-tail i p ps j e in
      let same : i + 1 + j ≡ i + suc j = omega arith in
      tail ∙ rw same at (pass-none (i + 1) ps j r gone h)

  pub shape-pass :
      ((i : ℕ) (r : Row) → with_use false (visit i r).1 ≡ with_use false r)
      → (i : ℕ) (rows : List Row)
      → map (with_use false) (pass visit lo hi i rows).1 ≡ map (with_use false) rows
  unfolding pass
  shape-pass keeps i [] = refl
  shape-pass keeps i (r ∷ rs) = ground (arith, shape-pass keeps (i + 1) rs, keeps i r)
