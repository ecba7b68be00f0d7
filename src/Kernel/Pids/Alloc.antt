-- ===== src/Kernel/Pids/Alloc.antt =====
-- Which identifier is handed out.
use native.Mathlib.Decide.{dec_lt}
use os_sski.Common.{
  ℕ, zero, suc, ◌+◌, ◌<◌, ◌≤◌, ◌≡◌, ◌≢◌, refl, ap, ◌∙◌, ◌⊎◌, inl, inr, Bool, true, false, some,
  List, [], ◌∷◌, arith, length, length-set, get_elem?, get_elem?_lt, set, get_elem?-set_self,
  lt→ltb,
}
use os_sski.Kernel.Pids.{take_free, get_pid_libre, pids_free, undefined, pids_count}

-- Every identifier below `n` is in use.
abbrev pub UsedBelow : List Bool → ℕ → Type 0
UsedBelow pool n = (j : ℕ) → j < n → get_elem? pool j ≡ some true

abbrev From : ℕ → List Bool → ℕ × List Bool → Type 0
From i pool r =
    ((n : ℕ) × (get_elem? pool n ≡ some false) × UsedBelow pool n × (r ≡ (i + n, set pool n true)))
    ⊎ (UsedBelow pool (length pool) × (r ≡ (undefined, pool)))

UsedBelow-cons : (pool : List Bool) (n : ℕ) → UsedBelow pool n → UsedBelow (true ∷ pool) (suc n)
UsedBelow-cons pool n u zero h = refl
UsedBelow-cons pool n u (suc j) h = u j (omega arith)

take_free-From : (i : ℕ) (pool : List Bool) → From i pool (take_free i pool)
unfolding take_free
take_free-From i [] = inr (λ j h. absurd (omega arith), refl)
take_free-From i (false ∷ pool) =
    inl (0, refl, λ j h. absurd (omega arith), ap (λ (k : ℕ). (k, true ∷ pool)) (omega arith))
take_free-From i (true ∷ pool) = used (take_free-From (i + 1) pool)
  where
    used :
        From (i + 1) pool (take_free (i + 1) pool)
        → From i (true ∷ pool) (take_free i (true ∷ pool))
    used (inl (n, free, below, e)) = inl (
      suc n,
      free,
      UsedBelow-cons pool n below,
      ap (λ (r : ℕ × List Bool). (r.0, true ∷ r.1)) e
          ∙ ap (λ (k : ℕ). (k, true ∷ set pool n true)) (omega arith),
    )
    used (inr (all, e)) =
        inr (UsedBelow-cons pool (length pool) all, ap (λ (r : ℕ × List Bool). (r.0, true ∷ r.1)) e)

abbrev pub Lowest : List Bool → ℕ → List Bool → Type 0
Lowest pool pid pool' =
    (get_elem? pool pid ≡ some false) × UsedBelow pool pid × (pool' ≡ set pool pid true)

-- `get_pid_libre` hands out the lowest free identifier and marks that one alone; when all are in
-- use it answers `undefined` and leaves the pool as it was.
pub get_pid_libre-Lowest :
    (pool : List Bool)
    → Lowest pool (get_pid_libre pool).0 (get_pid_libre pool).1
      ⊎ (UsedBelow pool (length pool) × (get_pid_libre pool ≡ (undefined, pool)))
unfolding get_pid_libre
get_pid_libre-Lowest pool = split (take_free-From 0 pool)
  where
    split :
        From 0 pool (take_free 0 pool)
        → Lowest pool (take_free 0 pool).0 (take_free 0 pool).1
          ⊎ (UsedBelow pool (length pool) × (take_free 0 pool ≡ (undefined, pool)))
    split (inl (n, free, below, e)) =
        let pid : n ≡ (take_free 0 pool).0 = omega (arith, ap (λ (r : ℕ × List Bool). r.0) e) in
        inl (
          rw pid at free,
          rw pid at below,
          ap (λ (r : ℕ × List Bool). r.1) e ∙ ap (λ (k : ℕ). set pool k true) pid,
        )
    split (inr all) = inr all

-- Of two calls in a row on a pool of full size that both find an identifier, the second finds
-- another, and both lie below the pool's size.
get_pid_libre_twice :
    (pool : List Bool)
    → let first = get_pid_libre pool in
      let second = get_pid_libre first.1 in
      length pool ≡ pids_count
      → first.0 ≢ undefined
      → second.0 ≢ undefined
      → (first.0 < pids_count) × (second.0 < pids_count) × (first.0 ≢ second.0)
get_pid_libre_twice pool size one two =
    split (get_pid_libre-Lowest pool) (get_pid_libre-Lowest (get_pid_libre pool).1)
  where
    p : ℕ
    p = (get_pid_libre pool).0

    after : List Bool
    after = (get_pid_libre pool).1

    split :
        Lowest pool p after
          ⊎ (UsedBelow pool (length pool) × (get_pid_libre pool ≡ (undefined, pool)))
        → Lowest after (get_pid_libre after).0 (get_pid_libre after).1
          ⊎ (UsedBelow after (length after) × (get_pid_libre after ≡ (undefined, after)))
        → (p < pids_count) × ((get_pid_libre after).0 < pids_count) × (p ≢ (get_pid_libre after).0)
    split (inr (_, e)) _ = absurd (one (ap (λ (r : ℕ × List Bool). r.0) e))
    split (inl _) (inr (_, e)) = absurd (two (ap (λ (r : ℕ × List Bool). r.0) e))
    split (inl (free, _, is)) (inl (free', _, _)) =
        let inside = get_elem?_lt pool p false free in
        let inside' = get_elem?_lt after _ false free' in
        let used : get_elem? after p ≡ some true = rw is (get_elem?-set_self pool p true inside) in
        (omega arith, omega (arith, ap length is, length-set pool p true), λ same. cc)

-- After an identifier of a pool of full size is freed, the next call hands out that one or a lower one.
pub get_pid_libre-free :
    (pool : List Bool) (pid : ℕ)
    → length pool ≡ pids_count
    → pid < pids_count
    → (get_pid_libre (pids_free pool pid)).0 ≤ pid
unfolding pids_free
get_pid_libre-free pool pid size h =
    rw (lt→ltb pid pids_count h) (split (get_pid_libre-Lowest freed))
  where
    freed : List Bool
    freed = set pool pid false

    free : get_elem? freed pid ≡ some false
    free = get_elem?-set_self pool pid false (omega arith)

    split :
        Lowest freed (get_pid_libre freed).0 (get_pid_libre freed).1
          ⊎ (UsedBelow freed (length freed) × (get_pid_libre freed ≡ (undefined, freed)))
        → (get_pid_libre freed).0 ≤ pid
    split (inl (_, below, _)) = elim (dec_lt pid (get_pid_libre freed).0) [
      | yes gt ↦ absurd (cc (below pid gt, free))
      | no le ↦ omega arith
    ]
    split (inr (all, _)) = absurd (cc (all pid (omega (arith, length-set pool pid false)), free))
