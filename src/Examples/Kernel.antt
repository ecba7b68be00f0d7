-- ===== src/Examples/Kernel.antt =====
-- A kernel with one console, a grade of two and an insertion sort.
use mathlib.Core.Logic.Or
use mathlib.Core.List.{Perm, mem-cons}
use mathlib.Core.List.Perm
use os_sski.Common.{
  ℕ, ◌+◌, ◌≤◌, ◌≡◌, ◌≢◌, ◌⊎◌, inl, inr, refl, Bool, true, false, some, List, [], ◌∷◌, arith, length,
  leb, if◌then◌else◌, Bool-cases,
}
use os_sski.Wire.Pcb.{Pcb, PcbStatus, pcb_sort_by_estimation}
use os_sski.Kernel.Pids.{get_pid_libre, take_free, undefined, new_pids}
use os_sski.Kernel.Pids.Alloc.{Lowest, UsedBelow, get_pid_libre-Lowest}
use os_sski.Kernel.Scheduler.{new_scheduler, next_ready}
use os_sski.Kernel.Scheduler.Order.{AllFrom, Sorted, Sorts, ready_with, fifo_passes_over_first}

-- The sort by the comparator of the program.
abbrev insert : Pcb → List Pcb → List Pcb
insert p [] = p ∷ []
insert p (q ∷ qs) = if pcb_sort_by_estimation p q then p ∷ q ∷ qs else q ∷ insert p qs

abbrev pub sort : List Pcb → List Pcb
sort [] = []
sort (p ∷ ps) = insert p (sort ps)

AllFrom-mono : (m n : ℕ) (ps : List Pcb) → m ≤ n → AllFrom n ps → AllFrom m ps
AllFrom-mono m n [] h a = tt
AllFrom-mono m n (p ∷ ps) h a = (omega (arith, a.0), AllFrom-mono m n ps h a.1)

AllFrom-insert :
    (n : ℕ) (p : Pcb) (ps : List Pcb) → n ≤ p.estimation → AllFrom n ps → AllFrom n (insert p ps)
AllFrom-insert n p [] h a = (h, tt)
AllFrom-insert n p (q ∷ qs) h a = ground (arith, AllFrom-insert n p qs h a.1)

insert-Sorted : (p : Pcb) (ps : List Pcb) → Sorted ps → Sorted (insert p ps)
unfolding pcb_sort_by_estimation
insert-Sorted p [] s = (tt, tt)
insert-Sorted p (q ∷ qs) s = elim (Bool-cases (leb p.estimation q.estimation)) [
  | inl small ↦ rw small (
      let le : p.estimation ≤ q.estimation = ground arith in
      ((le, AllFrom-mono p.estimation q.estimation qs le s.0), s))
  | inr large ↦
      rw large (AllFrom-insert q.estimation p qs (ground arith) s.0, insert-Sorted p qs s.1)
]

sort-Sorted : (ps : List Pcb) → Sorted (sort ps)
sort-Sorted [] = tt
sort-Sorted (p ∷ ps) = insert-Sorted p (sort ps) (sort-Sorted ps)

insert-Perm : (p : Pcb) (ps : List Pcb) → Perm (insert p ps) (p ∷ ps)
insert-Perm p [] = Perm.refl (p ∷ [])
insert-Perm p (q ∷ qs) = elim (Bool-cases (pcb_sort_by_estimation p q)) [
  | inl small ↦ rw small (Perm.refl (p ∷ q ∷ qs))
  | inr large ↦ rw large (Perm.trans (Perm.cons q (insert-Perm p qs)) (Perm.swap p q qs))
]

sort-Perm : (ps : List Pcb) → Perm (sort ps) ps
sort-Perm [] = Perm.nil
sort-Perm (p ∷ ps) = Perm.trans (insert-Perm p (sort ps)) (Perm.cons p (sort-Perm ps))

length-insert : (p : Pcb) (ps : List Pcb) → length (insert p ps) ≡ length ps + 1
length-insert p [] = refl
length-insert p (q ∷ qs) = ground (arith, length-insert p qs)

length-sort : (ps : List Pcb) → length (sort ps) ≡ length ps
length-sort [] = refl
length-sort (p ∷ ps) = omega (arith, length-insert p (sort ps), length-sort ps)

pub sort-Sorts : Sorts sort
sort-Sorts = record { sorted = sort-Sorted; perm = sort-Perm; size = length-sort }

abbrev pcb_of : ℕ → ℕ → Pcb
pcb_of id estimation = record {
  id = id;
  status = PcbStatus.pcb_ready;
  size = 64;
  instructions = [];
  page_table = 2;
  estimation = estimation;
  pc = 0;
  io = 0;
  real = 0;
}

abbrev two : List Pcb
two = pcb_of 1 900 ∷ pcb_of 2 300 ∷ []

fifo_passes_over_first_example :
    (next_ready sort (ready_with (new_scheduler 2 "FIFO" 5) two)).0 ≢ some (pcb_of 1 900)
fifo_passes_over_first_example =
    fifo_passes_over_first sort sort-Sorts 2 5 (pcb_of 1 900) (pcb_of 2 300) (pcb_of 2 300 ∷ [])
      (mem-cons.1 (Or.inl refl)) (omega arith)

abbrev pool : List Bool
pool = true ∷ false ∷ false ∷ []

get_pid_libre-Lowest_example :
    Lowest pool (get_pid_libre pool).0 (get_pid_libre pool).1
    ⊎ (UsedBelow pool (length pool) × (get_pid_libre pool ≡ (undefined, pool)))
get_pid_libre-Lowest_example = get_pid_libre-Lowest pool

first_two : ((get_pid_libre new_pids).0 ≡ 0) × ((get_pid_libre (get_pid_libre new_pids).1).0 ≡ 1)
unfolding get_pid_libre new_pids take_free
first_two = (refl, refl)
