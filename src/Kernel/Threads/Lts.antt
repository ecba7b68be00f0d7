-- ===== src/Kernel/Threads/Lts.antt =====
-- kernel/src/scheduling/lts.c: admission under the multiprogramming grade.
use os_sski.Common.{ℕ, zero, suc, ◌+◌, true, false, Option, none, some}
use os_sski.Wire.Pcb.{Pcb, PcbStatus}
use os_sski.Kernel.Queue.{safe_queue_push, safe_queue_pop}
use os_sski.Kernel.Threads.{KernelState, Message, Outcome, send, notify_cpu}
use os_sski.Kernel.Threads.Mts.{resume}

-- WAIT(sched.req_admit)
unfoldable pub lts_request : KernelState → Outcome
lts_request k =
    let s = k.scheduler in
    elim s.req_admit [
      | zero ↦ Outcome.waits
      | suc n ↦ Outcome.done (record k { scheduler = record s { req_admit = n }; held = true })
    ]

-- What the memory module answers to MEMORY_INIT.
pub data MemoryLink : Type 0 where
  disconnected no_answer : MemoryLink
  page_table : ℕ → MemoryLink

-- The request for a page table; a null process is only read where the module is connected.
unfoldable pub request_page_table :
    KernelState → Option Pcb → MemoryLink → Option (Option Pcb × KernelState)
unfolding send
request_page_table k pcb MemoryLink.disconnected = some (pcb, k)
request_page_table k none MemoryLink.no_answer = none
request_page_table k none (MemoryLink.page_table t) = none
request_page_table k (some pcb) MemoryLink.no_answer =
    some (some pcb, send k (Message.memory_init pcb.id pcb.size))
request_page_table k (some pcb) (MemoryLink.page_table t) =
    some (some (record pcb { page_table = t }), send k (Message.memory_init pcb.id pcb.size))

-- The process that is admitted: a suspended one first.
unfoldable pub candidate : KernelState → MemoryLink → Option (Option Pcb × KernelState)
unfolding request_page_table resume
candidate k link =
    let (resumed, k) = resume k in
    elim resumed [
      | some pcb ↦ some (some pcb, k)
      | none ↦
          let s = k.scheduler in
          let (pcb, rest) = safe_queue_pop s.new in
          request_page_table (record k { scheduler = record s { new = rest } }) pcb link
    ]

-- The end of `admit`: into the ready queue, and SIGNAL(execute).
unfoldable pub make_ready : KernelState → Option Pcb → KernelState
unfolding notify_cpu
make_ready k none =
    let s = k.scheduler in record k { scheduler = record s { execute = s.execute + 1 } }
make_ready k (some pcb) =
    let pcb = record pcb { status = PcbStatus.pcb_ready } in
    let k = notify_cpu k pcb in
    let s = k.scheduler in
    record k {
      scheduler = record s { ready = safe_queue_push s.ready (some pcb); execute = s.execute + 1 };
    }

-- WAIT(sched.dom), then `admit`.
unfoldable pub admit : KernelState → MemoryLink → Outcome
unfolding candidate make_ready
admit k link =
    let s = k.scheduler in
    elim s.dom [
      | zero ↦ Outcome.waits
      | suc n ↦
          elim (candidate (record k { scheduler = record s { dom = n }; held = false }) link) [
            | none ↦ Outcome.crashes
            | some (pcb, k) ↦ Outcome.done (make_ready k pcb)
          ]
    ]
