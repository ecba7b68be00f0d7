-- ===== src/Kernel/Threads/Admission.antt =====
-- The semaphore of the admissions against the two queues it counts.
use Prim.Native.String.{String}
use os_sski.Common.{
  ℕ, suc, ◌+◌, ◌<◌, ◌≡◌, refl, ◌∙◌, Bool, true, false, Option, some, List, [], ◌∷◌, ◌++◌, arith,
  length,
}
use os_sski.Wire.Operands.{Accion}
use os_sski.Wire.Instruction.{Instruction}
use os_sski.Wire.Pcb.{Pcb, PcbStatus}
use os_sski.Kernel.Queue.{length-safe_queue_push, safe_queue_push, safe_queue_pop}
use os_sski.Kernel.Scheduler.{new_scheduler}
use os_sski.Kernel.Threads.{KernelState, Outcome, Tracker, Message, send}
use os_sski.Kernel.Threads.Dispatcher.{dispatch_handle_syscall, dispatch_handle_instruction}
use os_sski.Kernel.Threads.Mts.{track_time, suspended_event, suspend, suspend_in_io}
use os_sski.Kernel.Threads.Sts.{
  short_term_schedule, execute_return, event, execute, dispatch_status,
}
use os_sski.Kernel.Threads.Lts.{
  lts_request, admit, MemoryLink, candidate, make_ready, request_page_table,
}
use os_sski.Kernel.Threads.Io.{io_start, io_finish, io_event, retrieve_pcb}
use os_sski.Kernel.Threads.Steps.{on_start, Config, Step, Reach}

abbrev pub one_if : Bool → ℕ
one_if true = 1
one_if false = 0

-- Every process that waits for admission has its request, and no request is without one.
abbrev pub IsBalanced : KernelState → Type 0
IsBalanced k =
    k.scheduler.req_admit + one_if k.held ≡ length k.scheduler.new + length k.scheduler.ready_sus

on_start-IsBalanced :
    (dom : ℕ) (algorithm : String) (time : ℕ) → IsBalanced (on_start dom algorithm time)
unfolding on_start new_scheduler
on_start-IsBalanced dom algorithm time = refl

syscall-IsBalanced :
    (e : ℕ) (k : KernelState) (a : Accion) (pid : ℕ)
    → IsBalanced k
    → IsBalanced (dispatch_handle_syscall e k a pid).1
unfolding dispatch_handle_syscall
syscall-IsBalanced e k a pid b = ground arith

program-IsBalanced :
    (k : KernelState) (is : List Instruction) (pid : ℕ)
    → IsBalanced k
    → IsBalanced (dispatch_handle_instruction k is pid)
unfolding dispatch_handle_instruction
program-IsBalanced k is pid b = grind (arith, length-safe_queue_push)

request-IsBalanced :
    (k k' : KernelState)
    → k.held ≡ false
    → lts_request k ≡ Outcome.done k'
    → IsBalanced k
    → IsBalanced k'
unfolding lts_request
request-IsBalanced k k' h e b = ground arith

admitted-IsBalanced :
    (k k' : KernelState) (link : MemoryLink)
    → k.held ≡ true
    → admit k link ≡ Outcome.done k'
    → IsBalanced k
    → IsBalanced k'
unfolding admit candidate make_ready safe_queue_pop
admitted-IsBalanced k k' link h e b = ground arith

dispatched-IsBalanced :
    (sort : List Pcb → List Pcb) (k k' : KernelState) (sent_well : Bool)
    → short_term_schedule sort k sent_well ≡ Outcome.done k'
    → IsBalanced k
    → IsBalanced k'
unfolding short_term_schedule execute
dispatched-IsBalanced sort k k' w e b = ground arith

returned-IsBalanced :
    (f g : ℕ → ℕ) (k k' : KernelState) (reply : Option (Pcb × ℕ)) (real : ℕ)
    → execute_return f g k reply real ≡ Outcome.done k'
    → IsBalanced k
    → IsBalanced k'
unfolding execute_return dispatch_status
returned-IsBalanced f g k k' reply real e b = ground arith

io_started-IsBalanced :
    (k k' : KernelState) → io_start k ≡ Outcome.done k' → IsBalanced k → IsBalanced k'
unfolding io_start retrieve_pcb
io_started-IsBalanced k k' e b = ground arith

io_finished-IsBalanced :
    (k k' : KernelState) → io_finish k ≡ Outcome.done k' → IsBalanced k → IsBalanced k'
unfolding io_finish io_event event suspended_event
io_finished-IsBalanced k k' e b = grind (arith, length-safe_queue_push)

tracked-IsBalanced :
    (k k' : KernelState) (t : Tracker)
    → track_time k t ≡ Outcome.done k'
    → IsBalanced k
    → IsBalanced k'
unfolding track_time suspend suspend_in_io
tracked-IsBalanced k k' t e b = ground arith

step-IsBalanced : (c : Config) (k k' : KernelState) → Step c k k' → IsBalanced k → IsBalanced k'
step-IsBalanced c _ _ (Step.syscall k a pid) b = syscall-IsBalanced c.estimacion_inicial k a pid b
step-IsBalanced c _ _ (Step.program k is pid) b = program-IsBalanced k is pid b
step-IsBalanced c _ _ (Step.request k k' h e) b = request-IsBalanced k k' h e b
step-IsBalanced c _ _ (Step.admitted k k' link h e) b = admitted-IsBalanced k k' link h e b
step-IsBalanced c _ _ (Step.dispatched k k' w r e) b = dispatched-IsBalanced c.sort k k' w e b
step-IsBalanced c _ _ (Step.returned k k' p reply real r e) b =
    returned-IsBalanced c.by_alfa c.by_rest k k' reply real e b
step-IsBalanced c _ _ (Step.io_started k k' i e) b = io_started-IsBalanced k k' e b
step-IsBalanced c _ _ (Step.io_finished k k' e) b = io_finished-IsBalanced k k' e b
step-IsBalanced c _ _ (Step.tracked k k' before after t i e) b =
    tracked-IsBalanced (record k { trackers = before ++ after }) k' t e b

-- Whatever the threads' interleaving, the admission requests that are signalled or held are as many
-- as the processes that wait in the new and the suspended-ready queue.
pub Reach-IsBalanced :
    (c : Config) (dom : ℕ) (algorithm : String) (time : ℕ) (k : KernelState)
    → Reach c (on_start dom algorithm time) k
    → IsBalanced k
Reach-IsBalanced c dom algorithm time k Reach.here = on_start-IsBalanced dom algorithm time
Reach-IsBalanced c dom algorithm time k (Reach.after {k = j} r s) =
    step-IsBalanced c j k s (Reach-IsBalanced c dom algorithm time j r)

-- Where a process waits, one is found, and the ready queue and the grade are left alone.
abbrev Finds : KernelState → Option (Option Pcb × KernelState) → Type 0
Finds k r =
    (p : Pcb) × (k' : KernelState) × (r ≡ some (some p, k'))
    × (k'.scheduler.ready ≡ k.scheduler.ready)
    × (k'.scheduler.dom ≡ k.scheduler.dom)

request-Finds :
    (k : KernelState) (p : Pcb) (link : MemoryLink) → Finds k (request_page_table k (some p) link)
unfolding request_page_table
request-Finds k p MemoryLink.disconnected = (p, k, refl, refl, refl)
request-Finds k p MemoryLink.no_answer =
    (p, send k (Message.memory_init p.id p.size), refl, refl, refl)
request-Finds k p (MemoryLink.page_table t) =
    (record p { page_table = t }, send k (Message.memory_init p.id p.size), refl, refl, refl)

abbrev with_queues : KernelState → List Pcb → List Pcb → KernelState
with_queues k sus new = record k { scheduler = record k.scheduler { ready_sus = sus; new = new } }

queues-Finds :
    (k : KernelState) (sus new : List Pcb) (link : MemoryLink)
    → 0 < length new + length sus
    → Finds k (candidate (with_queues k sus new) link)
unfolding candidate safe_queue_pop
queues-Finds k [] [] link h = absurd (omega arith)
queues-Finds k (p ∷ sus) new link h = (p, with_queues k sus new, refl, refl, refl)
queues-Finds k [] (p ∷ new) link h = request-Finds (with_queues k [] new) p link

candidate-Finds :
    (k : KernelState) (link : MemoryLink)
    → 0 < length k.scheduler.new + length k.scheduler.ready_sus
    → Finds k (candidate k link)
candidate-Finds k link h = queues-Finds k k.scheduler.ready_sus k.scheduler.new link h

pub make_ready-ready :
    (k : KernelState) (p : Pcb)
    → ((make_ready k (some p)).scheduler.ready
        ≡ k.scheduler.ready ++ record p { status = PcbStatus.pcb_ready } ∷ [])
      × ((make_ready k (some p)).scheduler.dom ≡ k.scheduler.dom)
unfolding make_ready safe_queue_push
make_ready-ready k p = ground arith

-- A slot is never spent for nothing: in a reachable state where the long-term scheduler holds a
-- request and a slot is free, the admission does not crash, whatever the memory module answers; one
-- process goes to the end of the ready queue, with the status ready, and one slot is taken.
pub admit_ready :
    (c : Config) (dom : ℕ) (algorithm : String) (time : ℕ) (k : KernelState) (n : ℕ)
    (link : MemoryLink)
    → Reach c (on_start dom algorithm time) k
    → k.held ≡ true
    → k.scheduler.dom ≡ suc n
    → (k' : KernelState) × (p : Pcb) × (admit k link ≡ Outcome.done k')
      × (k'.scheduler.ready ≡ k.scheduler.ready ++ record p { status = PcbStatus.pcb_ready } ∷ [])
      × (k'.scheduler.dom ≡ n)
unfolding admit
admit_ready c dom algorithm time k n link r h slot =
    let k0 = record k { scheduler = record k.scheduler { dom = n }; held = false } in
    let b = Reach-IsBalanced c dom algorithm time k r in
    let (p, k1, found, ready, dom') = candidate-Finds k0 link (ground arith) in
    let (r', d) = make_ready-ready k1 p in
    (make_ready k1 (some p), p, simp (slot, found, admit), r' ∙ rw ready refl, d ∙ dom')
