-- ===== src/Kernel/Threads/Io.antt =====
-- kernel/src/scheduling/io_scheduler.c: one I/O burst at a time.
use os_sski.Common.{zero, suc, Option, none, some, uint32_max}
use os_sski.Wire.Pcb.{Pcb, PcbStatus}
use os_sski.Kernel.Queue.{safe_queue_pop}
use os_sski.Kernel.Threads.{KernelState, Outcome}
use os_sski.Kernel.Threads.Mts.{suspended_event}
use os_sski.Kernel.Threads.Sts.{event}

-- A suspended process first.
unfoldable pub retrieve_pcb : KernelState → Option Pcb × KernelState
retrieve_pcb k =
    let s = k.scheduler in
    let (sus, rest_sus) = safe_queue_pop s.blocked_sus in
    let (pcb, rest) = safe_queue_pop s.blocked in
    elim sus [
      | some p ↦ (some p, record k { scheduler = record s { blocked_sus = rest_sus } })
      | none ↦ (pcb, record k { scheduler = record s { blocked = rest } })
    ]

-- From WAIT(io_request) to the sleep.
unfoldable pub io_start : KernelState → Outcome
unfolding retrieve_pcb
io_start k =
    let s = k.scheduler in
    elim s.io_request [
      | zero ↦ Outcome.waits
      | suc n ↦
          let (pcb, k) = retrieve_pcb (record k { scheduler = record s { io_request = n } }) in
          let s = k.scheduler in
          elim pcb [
            | none ↦ Outcome.done (record k { scheduler = record s { current_io = uint32_max } })
            | some p ↦
                Outcome.done (record k { scheduler = record s { current_io = p.id }; io = some p })
          ]
    ]

-- The switch on the status at the burst's end.
unfoldable pub io_event : PcbStatus → KernelState → Pcb → KernelState
unfolding event suspended_event
io_event PcbStatus.pcb_suspended_blocked k pcb = suspended_event k pcb
io_event _ k pcb = event k pcb

-- From the sleep to the next WAIT(io_request); it waits for the burst's end.
unfoldable pub io_finish : KernelState → Outcome
unfolding io_event
io_finish k = elim k.io [
  | none ↦ Outcome.waits
  | some pcb ↦
      let k = io_event pcb.status (record k { io = none }) pcb in
      let s = k.scheduler in
      Outcome.done (record k { scheduler = record s { current_io = uint32_max } })
]
