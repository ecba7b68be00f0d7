-- ===== src/Kernel/Threads/Mts.antt =====
-- kernel/src/scheduling/mts.c: a tracker suspends a process that is blocked for too long; the
-- long-term scheduler resumes it.
use os_sski.Common.{◌+◌, Option, none, some, [], ◌∷◌, ◌++◌, ◌==◌, if◌then◌else◌}
use os_sski.Wire.Pcb.{Pcb, PcbStatus}
use os_sski.Kernel.Queue.{safe_queue_push, safe_queue_pop, pcb_remove_by_id}
use os_sski.Kernel.Threads.{KernelState, Message, Outcome, Tracker, send}

unfoldable pub notify_mts : KernelState → Pcb → KernelState
notify_mts k pcb = record k {
  trackers = k.trackers ++ record { pid = pcb.id; block = k.blocks pcb.id } ∷ [];
}

abbrev pub suspended : Pcb → Pcb
suspended pcb = record pcb { status = PcbStatus.pcb_suspended_blocked }

unfoldable pub suspend : KernelState → Pcb → KernelState
unfolding send
suspend k pcb =
    let s = k.scheduler in
    send
      (record k {
        scheduler = record s {
          dom = s.dom + 1;
          blocked_sus = safe_queue_push s.blocked_sus (some (suspended pcb));
        };
      })
      (Message.swap_pcb (suspended pcb))

-- The process in I/O is suspended by the tracker's own pointer, which is dangling when the process
-- has been through the CPU since. The burst goes on, with the status changed.
unfoldable pub suspend_in_io : KernelState → Tracker → Pcb → Outcome
unfolding suspend
suspend_in_io k tracker pcb =
    if k.blocks tracker.pid == tracker.block
    then Outcome.done (suspend (record k { io = some (suspended pcb) }) pcb)
    else Outcome.crashes

-- The body of `track_time` behind its sleep.
unfoldable pub track_time : KernelState → Tracker → Outcome
unfolding suspend
track_time k tracker =
    let s = k.scheduler in
    let (removed, rest) = pcb_remove_by_id s.blocked tracker.pid in
    elim removed [
      | some pcb ↦ Outcome.done (suspend (record k { scheduler = record s { blocked = rest } }) pcb)
      | none ↦
          if s.current_io == tracker.pid
          then (elim k.io [ some pcb ↦ suspend_in_io k tracker pcb | none ↦ Outcome.crashes ])
          else Outcome.done k
    ]

unfoldable pub resume : KernelState → Option Pcb × KernelState
resume k =
    let s = k.scheduler in
    let (pcb, rest) = safe_queue_pop s.ready_sus in
    (pcb, record k { scheduler = record s { ready_sus = rest } })

unfoldable pub suspended_event : KernelState → Pcb → KernelState
suspended_event k pcb =
    let s = k.scheduler in
    let (removed, rest) = pcb_remove_by_id s.blocked_sus pcb.id in
    let pcb : Pcb = elim removed [ some found ↦ found | none ↦ pcb ] in
    record k {
      scheduler = record s {
        blocked_sus = rest;
        ready_sus =
            safe_queue_push s.ready_sus
              (some (record pcb { status = PcbStatus.pcb_suspended_ready }));
        req_admit = s.req_admit + 1;
      };
    }
