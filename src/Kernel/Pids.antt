-- ===== src/Kernel/Pids.antt =====
-- kernel/src/module/pids.c: the pool of process identifiers. The mutex makes each call one step.
pub mod Alloc
use os_sski.Common.{
  ℕ, zero, suc, ◌+◌, Bool, true, false, List, [], ◌∷◌, replicate, set, ltb, if◌then◌else◌,
}

abbrev pub pids_count : ℕ
pids_count = 1024

-- The identifier that stands for none.
abbrev pub undefined : ℕ
undefined = 1025

unfoldable pub new_pids : List Bool
new_pids = replicate pids_count false

-- The loop from index `i` on, over the rest of the pool.
unfoldable pub take_free : ℕ → List Bool → ℕ × List Bool
take_free i [] = (undefined, [])
take_free i (used ∷ pool) =
    let (pid, rest) = take_free (i + 1) pool in
    if used then (pid, true ∷ rest) else (i, true ∷ pool)

unfoldable pub get_pid_libre : List Bool → ℕ × List Bool
get_pid_libre pool = take_free 0 pool

unfoldable pub pids_free : List Bool → ℕ → List Bool
pids_free pool pid = if ltb pid pids_count then set pool pid false else pool
