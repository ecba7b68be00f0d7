-- ===== src/Kernel/Queue.antt =====
-- lib/src/util/queue/safe_queue.c with smartqueue.c, and the searches by identifier of
-- lib/src/modules/pcb.c. A queue is the list of its elements, first in front; the mutex makes each call
-- one step. `none` is the null pointer.
use os_sski.Common.{
  ◌+◌, ◌≡◌, length, length-append, ℕ, Bool, false, Option, none, some, List, [], ◌∷◌, ◌++◌, ◌||◌,
  ◌==◌, if◌then◌else◌,
}
use os_sski.Wire.Pcb.{Pcb}

module _ {ℓ} {A : Type ℓ} where
  -- A null element is not pushed.
  unfoldable pub safe_queue_push : List A → Option A → List A
  safe_queue_push q none = q
  safe_queue_push q (some e) = q ++ e ∷ []

  unfoldable pub safe_queue_pop : List A → Option A × List A
  safe_queue_pop [] = (none, [])
  safe_queue_pop (e ∷ q) = (some e, q)

  unfoldable pub safe_queue_any : List A → (A → Bool) → Bool
  safe_queue_any [] matcher = false
  safe_queue_any (e ∷ q) matcher = matcher e || safe_queue_any q matcher

  unfoldable pub safe_queue_find_by : List A → (A → Bool) → Option A
  safe_queue_find_by [] criteria = none
  safe_queue_find_by (e ∷ q) criteria = if criteria e then some e else safe_queue_find_by q criteria

  -- The first match, taken out.
  unfoldable pub safe_queue_remove_by : List A → (A → Bool) → Option A × List A
  safe_queue_remove_by [] matcher = (none, [])
  safe_queue_remove_by (e ∷ q) matcher =
      let (found, rest) = safe_queue_remove_by q matcher in
      if matcher e then (some e, q) else (found, e ∷ rest)

pub length-safe_queue_push {ℓ} :
    {A : Type ℓ} (q : List A) (e : A) → length (safe_queue_push q (some e)) ≡ length q + 1
unfolding safe_queue_push
length-safe_queue_push q e = length-append q (e ∷ [])

abbrev pub has_id : ℕ → Pcb → Bool
has_id id pcb = pcb.id == id

unfoldable pub pcb_exists : List Pcb → ℕ → Bool
unfolding safe_queue_any
pcb_exists queue id = safe_queue_any queue (has_id id)

unfoldable pub pcb_by_id : List Pcb → ℕ → Option Pcb
unfolding safe_queue_find_by
pcb_by_id queue id = safe_queue_find_by queue (has_id id)

unfoldable pub pcb_remove_by_id : List Pcb → ℕ → Option Pcb × List Pcb
unfolding safe_queue_remove_by
pcb_remove_by_id queue id = safe_queue_remove_by queue (has_id id)

-- The commons library's list_remove_by_condition on a list that no queue holds: the match is taken out.
unfoldable pub get_pcb_by_pid : List Pcb → ℕ → Option Pcb × List Pcb
unfolding safe_queue_remove_by
get_pcb_by_pid pcbs pid = safe_queue_remove_by pcbs (has_id pid)
