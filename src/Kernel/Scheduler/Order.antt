-- ===== src/Kernel/Scheduler/Order.antt =====
-- Which process runs next, by the configured algorithm's name.
use Prim.Native.String.{String}
use text.Mathlib.Text.{◌==◌ as str_eq}
use mathlib.Core.Logic.Or
use mathlib.Core.List.{Perm, Mem, mem-cons, not-mem-nil}
use mathlib.Core.List.Perm
use native.Mathlib.Bridge.{le_prop}
use os_sski.Common.{
  ℕ, ◌≤◌, ◌<◌, ◌≡◌, ◌≢◌, refl, sym, ap, ◌∙◌, ◌⊎◌, inl, inr, true, false, Option, none, some, List,
  [], ◌∷◌, arith, length,
}
use os_sski.Wire.Pcb.{Pcb}
use os_sski.Kernel.Queue.{safe_queue_pop}
use os_sski.Kernel.Scheduler.{Scheduler, new_scheduler, fifo, srt, next_ready}

abbrev pub AllFrom : ℕ → List Pcb → Type 0
AllFrom n [] = Unit
AllFrom n (p ∷ ps) = (n ≤ p.estimation) × AllFrom n ps

abbrev pub Sorted : List Pcb → Type 0
Sorted [] = Unit
Sorted (p ∷ ps) = AllFrom p.estimation ps × Sorted ps

-- What `list_sort` promises: the same elements, in the comparator's order.
pub record Sorts (sort : List Pcb → List Pcb) : Type 0 where
  pub sorted : (ps : List Pcb) → Sorted (sort ps)
  pub perm : (ps : List Pcb) → Perm (sort ps) ps
  pub size : (ps : List Pcb) → length (sort ps) ≡ length ps

abbrev pub ready_with : Scheduler → List Pcb → Scheduler
ready_with s ps = record s { ready = ps }

module _ (sort : List Pcb → List Pcb) (law : Sorts sort) where
  -- The shortest-remaining-time choice: of an empty queue none; else a process of least estimation,
  -- and the rest in some order.
  srt_shortest :
      (ready : List Pcb)
      → ((ready ≡ []) × (srt sort ready ≡ (none, [])))
        ⊎ ((p : Pcb) × (rest : List Pcb) × (srt sort ready ≡ (some p, rest))
            × AllFrom p.estimation rest
            × Perm (p ∷ rest) ready)
  unfolding srt fifo safe_queue_pop
  srt_shortest ready = split (sort ready) refl
    where
      split :
          (ps : List Pcb)
          → sort ready ≡ ps
          → ((ready ≡ []) × (srt sort ready ≡ (none, [])))
            ⊎ ((p : Pcb) × (rest : List Pcb) × (srt sort ready ≡ (some p, rest))
                × AllFrom p.estimation rest
                × Perm (p ∷ rest) ready)
      split [] e = inl (sym (Perm.nil-eq (rw e at (law.perm ready))), rw (e, srt))
      split (p ∷ rest) e =
          inr (p, rest, rw (e, srt), (rw e at (law.sorted ready)).0, rw e at (law.perm ready))

  AllFrom-mem : (n : ℕ) (q : Pcb) (ps : List Pcb) → AllFrom n ps → Mem q ps → n ≤ q.estimation
  AllFrom-mem n q [] all m = absurd (not-mem-nil m)
  AllFrom-mem n q (p ∷ ps) all m =
      Or.elim le_prop (mem-cons.0 m) (λ e. rw e all.0) (AllFrom-mem n q ps all.1)

  -- A scheduler made for any algorithm but "FIFO" serves in the order of arrival and interrupts; one
  -- made for "FIFO" serves by the shortest estimation and does not interrupt.
  pub new_scheduler-next :
      (dom time : ℕ) (algorithm : String) (ps : List Pcb)
      → let s = ready_with (new_scheduler dom algorithm time) ps in
        (str_eq algorithm "FIFO" ≡ false
          → (next_ready sort s ≡ safe_queue_pop ps) × (s.interrupt ≡ true))
        × (str_eq algorithm "FIFO" ≡ true
            → (next_ready sort s ≡ srt sort ps) × (s.interrupt ≡ false))
  unfolding new_scheduler next_ready fifo
  new_scheduler-next dom time algorithm ps =
      (λ other. (rw (other, next_ready), rw other), λ same. (rw (same, next_ready), rw same))

  -- Under "FIFO" the process that arrived first is passed over whenever a later one in the queue has a
  -- smaller estimation.
  pub fifo_passes_over_first :
      (dom time : ℕ) (p q : Pcb) (ps : List Pcb)
      → Mem q ps
      → q.estimation < p.estimation
      → (next_ready sort (ready_with (new_scheduler dom "FIFO" time) (p ∷ ps))).0 ≢ some p
  fifo_passes_over_first dom time p q ps later smaller first = split (srt_shortest (p ∷ ps))
    where
      chosen : (srt sort (p ∷ ps)).0 ≡ some p
      chosen =
          sym (
            ap (λ (r : Option Pcb × List Pcb). r.0)
              ((new_scheduler-next dom time "FIFO" (p ∷ ps)).1 refl).0)
          ∙ first

      split :
          ((p ∷ ps ≡ []) × (srt sort (p ∷ ps) ≡ (none, [])))
            ⊎ ((p' : Pcb) × (rest : List Pcb) × (srt sort (p ∷ ps) ≡ (some p', rest))
                × AllFrom p'.estimation rest
                × Perm (p' ∷ rest) (p ∷ ps))
          → ⊥
      split (inl (e, _)) = cc
      split (inr (p', rest, e, all, perm)) =
          let same : p ≡ p' = cc (chosen, ap (λ (r : Option Pcb × List Pcb). r.0) e) in
          let least =
            AllFrom-mem p'.estimation q (p' ∷ rest) (omega arith, all)
              ((Perm.mem_iff perm).1 (mem-cons.1 (Or.inr later))) in
          omega (arith, ap (λ (x : Pcb). x.estimation) same)
