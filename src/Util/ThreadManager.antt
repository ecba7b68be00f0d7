-- ===== src/Util/ThreadManager.antt =====
-- lib/src/util/thread_manager.c: the table of running threads. The identifier of a new thread is what
-- pthread_create gives; `fresh n` is what `realloc` leaves in the `n` new places. Each function runs under
-- the manager's mutex.
pub mod Bag
use os_sski.Common.{
  ℕ, zero, suc, ◌+◌, ◌-◌, Bool, true, false, Option, none, some, List, [], ◌∷◌, ◌++◌, length,
  get_or, set, take, replicate, ltb, ◌==◌, if◌then◌else◌,
}

abbrev n_threads : ℕ
n_threads = 6

-- thread_manager_t
pub record ThreadManager : Type 0 where
  pub threads : List ℕ
  pub size : ℕ
  pub max_threads : ℕ
  pub init : Bool

unfoldable pub new_thread_manager : ThreadManager
new_thread_manager = record {
  threads = replicate n_threads 0;
  size = 0;
  max_threads = n_threads;
  init = true;
}

-- The loop over the first `n` places, from index `i` on.
unfoldable pub index_from : ℕ → ℕ → ℕ → List ℕ → Option ℕ
index_from id i zero threads = none
index_from id i (suc n) [] = none
index_from id i (suc n) (t ∷ threads) =
    let later = index_from id (i + 1) n threads in if t == id then some i else later

unfoldable pub thread_manager_get_index : ThreadManager → ℕ → Option ℕ
unfolding index_from
thread_manager_get_index tm id = index_from id 0 tm.size tm.threads

-- The table is doubled when it is full.
unfoldable pub thread_manager_launch : (ℕ → List ℕ) → ThreadManager → ℕ → ThreadManager
thread_manager_launch fresh tm id =
    if tm.init
    then (if ltb tm.size tm.max_threads
        then record tm { threads = set tm.threads tm.size id; size = tm.size + 1 }
        else record tm {
          threads = set (tm.threads ++ fresh tm.max_threads) tm.size id;
          max_threads = tm.max_threads + tm.max_threads;
          size = tm.size + 1;
        })
    else tm

-- The last thread moves to the place of the one that ends.
unfoldable pub without : List ℕ → ℕ → ℕ → List ℕ
without threads size at =
    if ltb 1 size then set threads at (get_or threads (size - 1) 0) else threads

-- The calling thread ends; when it is not in the table nothing changes.
unfoldable pub thread_manager_end_thread : ThreadManager → ℕ → Option ThreadManager
unfolding thread_manager_get_index without
thread_manager_end_thread tm id = elim (thread_manager_get_index tm id) [
  | none ↦ none
  | some at ↦ some (record tm { threads = without tm.threads tm.size at; size = tm.size - 1 })
]

-- The threads that are cancelled (and given to `kill`), and the table.
unfoldable pub thread_manager_end_threads : ThreadManager → List ℕ × ThreadManager
thread_manager_end_threads tm = (take tm.size tm.threads, record tm { size = 0 })

unfoldable pub thread_manager_destroy : ThreadManager → List ℕ × ThreadManager
unfolding thread_manager_end_threads
thread_manager_destroy tm =
    let (cancelled, tm) = (if tm.init then thread_manager_end_threads tm else ([], tm)) in
    (cancelled, record tm { threads = []; size = 0; init = false })

-- The global manager is made once.
unfoldable pub thread_manager_init : ThreadManager → ThreadManager
unfolding new_thread_manager
thread_manager_init tm = if tm.init then tm else new_thread_manager

-- What happens to a manager over time.
pub data TmEvent : Type 0 where
  launch end : ℕ → TmEvent

unfoldable pub tm_step : (ℕ → List ℕ) → ThreadManager → TmEvent → ThreadManager
unfolding thread_manager_launch thread_manager_end_thread
tm_step fresh tm (TmEvent.launch id) = thread_manager_launch fresh tm id
tm_step fresh tm (TmEvent.end id) = elim (thread_manager_end_thread tm id) [
  | none ↦ tm
  | some after ↦ after
]

unfoldable pub tm_run : (ℕ → List ℕ) → ThreadManager → List TmEvent → ThreadManager
unfolding tm_step
tm_run fresh tm [] = tm
tm_run fresh tm (e ∷ events) = tm_run fresh (tm_step fresh tm e) events
