-- ===== src/Util/ThreadManager/Bag.antt =====
-- The table of threads against a bag of thread identifiers.
use mathlib.Core.Path.{subst}
use os_sski.Common.{
  ℕ, zero, suc, ◌+◌, ◌-◌, ◌≤◌, ◌<◌, ◌≡◌, refl, sym, ap, ◌∙◌, inl, inr, ◌⊎◌, true, none, some, List,
  [], ◌∷◌, ◌++◌, arith, length, length-append, length-set, get_or, get_elem?, set, take, ltb, ◌==◌,
  if◌then◌else◌, Option-cases, Bool-cases,
}
use os_sski.Util.ThreadManager.{
  ThreadManager, TmEvent, new_thread_manager, index_from, thread_manager_get_index,
  thread_manager_launch, without, thread_manager_end_thread, tm_step, tm_run,
}

-- How often `x` is in a bag that has one `id` more.
abbrev pub one : ℕ → ℕ → ℕ
one x id = if x == id then 1 else 0

abbrev pub count : ℕ → List ℕ → ℕ
count x [] = 0
count x (t ∷ ts) = one x t + count x ts

-- The threads in the table.
abbrev pub live : ThreadManager → List ℕ
live tm = take tm.size tm.threads

-- The table as it is kept: the places are as many as it says, and enough.
pub record IsTable (tm : ThreadManager) : Type 0 where
  pub places : length tm.threads ≡ tm.max_threads
  pub enough : tm.size ≤ tm.max_threads
  pub some_place : 0 < tm.max_threads
  pub is_init : tm.init ≡ true

count-set :
    (ts : List ℕ) (at id v x : ℕ)
    → get_elem? ts at ≡ some id
    → count x (set ts at v) + one x id ≡ count x ts + one x v
count-set [] at id v x h = absurd (ground arith)
count-set (t ∷ ts) zero id v x h = let same : t ≡ id = ground arith in rw same (omega arith)
count-set (t ∷ ts) (suc at) id v x h = omega (arith, count-set ts at id v x h)

-- The table with one more place in use.
count-next :
    (ts : List ℕ) (n x : ℕ)
    → n < length ts
    → count x (take (suc n) ts) ≡ count x (take n ts) + one x (get_or ts n 0)
count-next [] n x h = absurd (omega arith)
count-next (t ∷ ts) zero x h = omega arith
count-next (t ∷ ts) (suc n) x h = omega (arith, count-next ts n x (omega arith))

take-set_behind : (ts : List ℕ) (n at v : ℕ) → n ≤ at → take n (set ts at v) ≡ take n ts
take-set_behind ts zero at v h = refl
take-set_behind [] (suc n) at v h = refl
take-set_behind (t ∷ ts) (suc n) zero v h = absurd (omega arith)
take-set_behind (t ∷ ts) (suc n) (suc at) v h =
    ap (λ (xs : List ℕ). t ∷ xs) (take-set_behind ts n at v (omega arith))

take-set_before : (ts : List ℕ) (n at v : ℕ) → at < n → take n (set ts at v) ≡ set (take n ts) at v
take-set_before ts zero at v h = absurd (omega arith)
take-set_before [] (suc n) at v h = refl
take-set_before (t ∷ ts) (suc n) zero v h = refl
take-set_before (t ∷ ts) (suc n) (suc at) v h =
    ap (λ (xs : List ℕ). t ∷ xs) (take-set_before ts n at v (omega arith))

get_elem?-take :
    (ts : List ℕ) (n at v : ℕ)
    → at < n
    → get_elem? ts at ≡ some v
    → get_elem? (take n ts) at ≡ some v
get_elem?-take ts zero at v lt h = absurd (omega arith)
get_elem?-take [] (suc n) at v lt h = h
get_elem?-take (t ∷ ts) (suc n) zero v lt h = h
get_elem?-take (t ∷ ts) (suc n) (suc at) v lt h = get_elem?-take ts n at v (omega arith) h

get_or-set : (ts : List ℕ) (n v : ℕ) → n < length ts → get_or (set ts n v) n 0 ≡ v
get_or-set [] n v h = absurd (omega arith)
get_or-set (t ∷ ts) zero v h = refl
get_or-set (t ∷ ts) (suc n) v h = get_or-set ts n v (omega arith)

get_or-get_elem? : (ts : List ℕ) (n v : ℕ) → get_elem? ts n ≡ some v → get_or ts n 0 ≡ v
get_or-get_elem? [] n v h = absurd (ground arith)
get_or-get_elem? (t ∷ ts) zero v h = ground arith
get_or-get_elem? (t ∷ ts) (suc n) v h = get_or-get_elem? ts n v h

take-append_le : (ts more : List ℕ) (n : ℕ) → n ≤ length ts → take n (ts ++ more) ≡ take n ts
take-append_le ts more zero h = refl
take-append_le [] more (suc n) h = absurd (omega arith)
take-append_le (t ∷ ts) more (suc n) h =
    ap (λ (xs : List ℕ). t ∷ xs) (take-append_le ts more n (omega arith))

index_from-found :
    (id i n : ℕ) (ts : List ℕ)
    → ((index_from id i n ts ≡ none) × (count id (take n ts) ≡ 0))
      ⊎ ((k : ℕ) × (k < n) × (index_from id i n ts ≡ some (i + k)) × (get_elem? ts k ≡ some id))
unfolding index_from
index_from-found id i zero ts = inl (refl, refl)
index_from-found id i (suc n) [] = inl (refl, refl)
index_from-found id i (suc n) (t ∷ ts) = elim (Bool-cases (t == id)) [
  | inl here ↦ inr (
    0,
    omega arith,
    rw (here, index_from) (ap (λ (k : ℕ). some k) (omega arith)),
    ground (arith, here),
  )
  | inr other ↦ elim (index_from-found id (i + 1) n ts) [
    | inl (missing, absent) ↦ inl (rw (other, missing, index_from), ground (arith, other, absent))
    | inr (k, lt, found, there) ↦ inr (
      suc k,
      omega (arith, lt),
      rw (other, found, index_from) (ap (λ (k : ℕ). some k) (omega arith)),
      there,
    )
  ]
]

abbrev pub bag_step : ℕ → ℕ → TmEvent → ℕ
bag_step x n (TmEvent.launch id) = n + one x id
bag_step x n (TmEvent.end id) = n - one x id

abbrev pub bag_run : ℕ → ℕ → List TmEvent → ℕ
bag_run x n [] = n
bag_run x n (e ∷ events) = bag_run x (bag_step x n e) events

count-launched :
    (ts : List ℕ) (n id x : ℕ)
    → n < length ts
    → count x (take (suc n) (set ts n id)) ≡ count x (take n ts) + one x id
count-launched ts n id x h =
    count-next (set ts n id) n x (rw length-set h)
    ∙ rw (take-set_behind ts n n id (omega arith), get_or-set ts n id h)

-- A launch that finds a place, or makes places.
launch-count :
    (fresh : ℕ → List ℕ) (tm : ThreadManager) (id x : ℕ)
    → ((n : ℕ) → length (fresh n) ≡ n)
    → IsTable tm
    → count x (live (thread_manager_launch fresh tm id)) ≡ count x (live tm) + one x id
unfolding thread_manager_launch
launch-count fresh tm id x fr ok =
    let next : tm.size + 1 ≡ suc tm.size = omega arith in
    elim (Bool-cases (ltb tm.size tm.max_threads)) [
      | inl room ↦
          rw (ok.is_init, room, next)
            (count-launched tm.threads tm.size id x (ground (arith, ok, room)))
      | inr full ↦
          rw (ok.is_init, full, next)
            (count-launched (tm.threads ++ fresh tm.max_threads) tm.size id x
                (omega (arith, length-append tm.threads (fresh tm.max_threads), fr tm.max_threads))
              ∙ rw (take-append_le tm.threads (fresh tm.max_threads) tm.size (omega arith)))
    ]

launch-IsTable :
    (fresh : ℕ → List ℕ) (tm : ThreadManager) (id : ℕ)
    → ((n : ℕ) → length (fresh n) ≡ n)
    → IsTable tm
    → IsTable (thread_manager_launch fresh tm id)
unfolding thread_manager_launch
launch-IsTable fresh tm id fr ok = elim (Bool-cases (ltb tm.size tm.max_threads)) [
  | inl room ↦
      rw (ok.is_init, room)
        (record {
          places = rw length-set ok.places;
          enough = ground (arith, room);
          some_place = ok.some_place;
          is_init = refl;
        })
  | inr full ↦
      rw (ok.is_init, full)
        (record {
          places = omega (
            arith,
            length-set (tm.threads ++ fresh tm.max_threads) tm.size id,
            length-append tm.threads (fresh tm.max_threads),
            fr tm.max_threads,
          );
          enough = omega arith;
          some_place = omega arith;
          is_init = refl;
        })
]

-- The table without the place that the last thread leaves.
count-without :
    (ts : List ℕ) (n at id x : ℕ)
    → n < length ts
    → at < suc n
    → get_elem? ts at ≡ some id
    → count x (take n (set ts at (get_or ts n 0))) + one x id ≡ count x (take (suc n) ts)
count-without ts n at id x long lt h =
    let last = get_or ts n 0 in
    let at_end : at ≡ n → last ≡ id =
      λ e. get_or-get_elem? ts n id (subst (λ (k : ℕ). get_elem? ts k ≡ some id) e h) in
    elim (Bool-cases (ltb at n)) [
      | inl before ↦
          let lt : at < n = ground (arith, before) in
          rw (take-set_before ts n at last lt) (
            omega (
              arith,
              count-set (take n ts) at id last x (get_elem?-take ts n at id lt h),
              count-next ts n x long,
            ))
      | inr behind ↦
          let here : at ≡ n = ground (arith, behind, lt) in
          rw (take-set_behind ts n at last (omega (arith, here))) (
            ap (λ (v : ℕ). count x (take n ts) + one x v) (sym (at_end here))
            ∙ sym (count-next ts n x long))
    ]

-- The table behind the end of the thread at a place in use.
count-ended :
    (ts : List ℕ) (size at id x : ℕ)
    → size ≤ length ts
    → at < size
    → get_elem? ts at ≡ some id
    → count x (take (size - 1) (without ts size at)) + one x id ≡ count x (take size ts)
unfolding without
count-ended ts zero at id x long lt h = absurd (omega arith)
count-ended ts (suc zero) at id x long lt h =
    let here : at ≡ 0 = omega arith in
    let same : get_or ts 0 0 ≡ id =
      get_or-get_elem? ts 0 id (subst (λ (k : ℕ). get_elem? ts k ≡ some id) here h) in
    rw (sym same) (omega (arith, count-next ts 0 x (omega arith)))
count-ended ts (suc (suc n)) at id x long lt h =
    let behind : suc (suc n) - 1 ≡ suc n = omega arith in
    let more : ltb 1 (suc (suc n)) ≡ true = ground arith in
    rw (more, behind) (count-without ts (suc n) at id x (omega arith) lt h)

-- The two ends of a thread.
end-missing :
    (fresh : ℕ → List ℕ) (tm : ThreadManager) (id : ℕ)
    → thread_manager_get_index tm id ≡ none
    → tm_step fresh tm (TmEvent.end id) ≡ tm
unfolding tm_step thread_manager_end_thread
end-missing fresh tm id h = rw (h, tm_step, thread_manager_end_thread)

end-found :
    (fresh : ℕ → List ℕ) (tm : ThreadManager) (id at : ℕ)
    → thread_manager_get_index tm id ≡ some at
    → tm_step fresh tm (TmEvent.end id)
      ≡ record tm { threads = without tm.threads tm.size at; size = tm.size - 1 }
unfolding tm_step thread_manager_end_thread
end-found fresh tm id at h = rw (h, tm_step, thread_manager_end_thread)

minus_absent : (ts : List ℕ) (id x : ℕ) → count id ts ≡ 0 → count x ts ≡ count x ts - one x id
minus_absent ts id x h = elim (Bool-cases (x == id)) [
  | inl same ↦ let same : x ≡ id = ground (arith, same) in rw (same, h) (omega arith)
  | inr other ↦ rw other (omega arith)
]

length-without : (ts : List ℕ) (size at : ℕ) → length (without ts size at) ≡ length ts
unfolding without
length-without ts size at = elim (Bool-cases (ltb 1 size)) [
  | inl more ↦ rw (more, length-set) refl
  | inr last ↦ rw last refl
]

-- What the end of a thread does to the number of places of an identifier.
end-count :
    (fresh : ℕ → List ℕ) (tm : ThreadManager) (id x : ℕ)
    → IsTable tm
    → count x (live (tm_step fresh tm (TmEvent.end id))) ≡ count x (live tm) - one x id
unfolding thread_manager_get_index
end-count fresh tm id x ok = elim (index_from-found id 0 tm.size tm.threads) [
  | inl (missing, absent) ↦
      rw (end-missing fresh tm id missing) (minus_absent (live tm) id x absent)
  | inr (at, lt, found, there) ↦
      let found : thread_manager_get_index tm id ≡ some at =
        found ∙ ap (λ (k : ℕ). some k) (omega arith) in
      rw (end-found fresh tm id at found)
        (omega (arith, count-ended tm.threads tm.size at id x (rw ok.places ok.enough) lt there))
]

end-IsTable :
    (fresh : ℕ → List ℕ) (tm : ThreadManager) (id : ℕ)
    → IsTable tm
    → IsTable (tm_step fresh tm (TmEvent.end id))
end-IsTable fresh tm id ok = elim (Option-cases (thread_manager_get_index tm id)) [
  | inl missing ↦ rw (end-missing fresh tm id missing) ok
  | inr (at, found) ↦ rw (end-found fresh tm id at found) (record {
    places = length-without tm.threads tm.size at ∙ ok.places;
    enough = omega (arith, ok.enough);
    some_place = ok.some_place;
    is_init = ok.is_init;
  })
]

pub new-IsTable : IsTable new_thread_manager
unfolding new_thread_manager
new-IsTable = record {
  places = refl;
  enough = omega arith;
  some_place = omega arith;
  is_init = refl;
}

step-count :
    (fresh : ℕ → List ℕ) (tm : ThreadManager) (e : TmEvent) (x : ℕ)
    → ((n : ℕ) → length (fresh n) ≡ n)
    → IsTable tm
    → count x (live (tm_step fresh tm e)) ≡ bag_step x (count x (live tm)) e
unfolding tm_step
step-count fresh tm (TmEvent.launch id) x fr ok = launch-count fresh tm id x fr ok
step-count fresh tm (TmEvent.end id) x fr ok = end-count fresh tm id x ok

step-IsTable :
    (fresh : ℕ → List ℕ) (tm : ThreadManager) (e : TmEvent)
    → ((n : ℕ) → length (fresh n) ≡ n)
    → IsTable tm
    → IsTable (tm_step fresh tm e)
unfolding tm_step
step-IsTable fresh tm (TmEvent.launch id) fr ok = launch-IsTable fresh tm id fr ok
step-IsTable fresh tm (TmEvent.end id) fr ok = end-IsTable fresh tm id ok

-- From any table, over any launches and ends of threads: a table it stays, and it has a thread as often
-- as the bag has it to which each launch adds its thread and from which each end takes one, whether
-- or not the table had to grow and wherever the thread that ended stood. The new places that
-- `realloc` makes may hold anything.
pub count-tm_run :
    (fresh : ℕ → List ℕ) (tm : ThreadManager) (events : List TmEvent) (x : ℕ)
    → ((n : ℕ) → length (fresh n) ≡ n)
    → IsTable tm
    → IsTable (tm_run fresh tm events)
      × (count x (live (tm_run fresh tm events)) ≡ bag_run x (count x (live tm)) events)
unfolding tm_run
count-tm_run fresh tm [] x fr ok = (ok, refl)
count-tm_run fresh tm (e ∷ events) x fr ok =
    rw (sym (step-count fresh tm e x fr ok))
      (count-tm_run fresh (tm_step fresh tm e) events x fr (step-IsTable fresh tm e fr ok))
