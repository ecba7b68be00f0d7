-- ===== src/Examples/Util.antt =====
-- The table of threads, run: a seventh launch makes the table grow.
use os_sski.Common.{ℕ, ◌≡◌, refl, List, [], ◌∷◌, length, length-replicate, replicate}
use os_sski.Util.ThreadManager.{TmEvent, new_thread_manager, thread_manager_end_threads, tm_run}
use os_sski.Util.ThreadManager.Bag.{IsTable, live, count, bag_run, new-IsTable, count-tm_run}

abbrev garbage : ℕ → List ℕ
garbage n = replicate n 99

abbrev seven : List TmEvent
seven =
    TmEvent.launch 11
    ∷ TmEvent.launch 12
    ∷ TmEvent.launch 13
    ∷ TmEvent.launch 14
    ∷ TmEvent.launch 15
    ∷ TmEvent.launch 16
    ∷ TmEvent.launch 17
    ∷ TmEvent.end 12
    ∷ TmEvent.end 40
    ∷ []

growth : length (tm_run garbage new_thread_manager seven).threads ≡ 12
unfolding tm_run new_thread_manager
growth = refl

survivors : live (tm_run garbage new_thread_manager seven) ≡ 11 ∷ 17 ∷ 13 ∷ 14 ∷ 15 ∷ 16 ∷ []
unfolding tm_run new_thread_manager
survivors = refl

cancelled :
    (thread_manager_end_threads (tm_run garbage new_thread_manager (TmEvent.launch 11 ∷ []))).0
    ≡ 11 ∷ []
unfolding tm_run new_thread_manager thread_manager_end_threads
cancelled = refl

garbage-length : (n : ℕ) → length (garbage n) ≡ n
garbage-length n = length-replicate n 99

count-tm_run_example :
    IsTable (tm_run garbage new_thread_manager seven)
    × (count 12 (live (tm_run garbage new_thread_manager seven))
        ≡ bag_run 12 (count 12 (live new_thread_manager)) seven)
count-tm_run_example = count-tm_run garbage new_thread_manager seven 12 garbage-length new-IsTable
