-- ===== src/Kernel/Threads/Sts.antt =====
-- kernel/src/scheduling/sts.c: the short-term scheduler, with the requests of
-- kernel/src/client/cpu_controller.c and swap_controller.c.
use os_sski.Common.{
  ℕ, zero, suc, ◌+◌, ◌-◌, ◌%◌, Bool, Option, none, some, List, u32_mod, ltb, ◌==◌, if◌then◌else◌,
}
use os_sski.Wire.Pcb.{Pcb, PcbStatus}
use os_sski.Kernel.Queue.{safe_queue_push}
use os_sski.Kernel.Scheduler.{next_ready}
use os_sski.Kernel.Threads.{KernelState, Message, Outcome, send, notify_cpu}
use os_sski.Kernel.Threads.Mts.{notify_mts}

unfoldable pub terminate : KernelState → Pcb → KernelState
unfolding send
terminate k pcb =
    let s = k.scheduler in
    send (record k { scheduler = record s { dom = s.dom + 1 } })
      (Message.process_terminated pcb.id pcb.page_table)

-- The remaining estimation; the code takes the difference either way round.
unfoldable pub remaining : Pcb → Pcb
remaining pcb = record pcb {
  estimation =
      if ltb pcb.real pcb.estimation then pcb.estimation - pcb.real else pcb.real - pcb.estimation;
}

unfoldable pub pre_empt : KernelState → Pcb → KernelState
unfolding remaining
pre_empt k pcb =
    let s = k.scheduler in
    record k { scheduler = record s { ready = safe_queue_push s.ready (some (remaining pcb)) } }

unfoldable pub event : KernelState → Pcb → KernelState
unfolding notify_cpu
event k pcb =
    let s = k.scheduler in
    let pcb = record pcb { status = PcbStatus.pcb_ready } in
    let k =
      notify_cpu
        (record k {
          scheduler = record s {
            ready = safe_queue_push s.ready (some pcb);
            execute = s.execute + 1;
          };
        })
        pcb in
    k

-- `by_alfa real` is `(uint32_t)(real * alfa)` and `by_rest estimation` is `(uint32_t)((1 - alfa) *
-- estimation)`, double-precision products with the configured number.
module _ (by_alfa by_rest : ℕ → ℕ) where
  unfoldable pub re_schedule : Pcb → Pcb
  re_schedule pcb = record pcb {
    estimation = (by_alfa pcb.real + by_rest pcb.estimation) % u32_mod;
  }

  unfoldable pub block : KernelState → Pcb → ℕ → KernelState
  unfolding re_schedule notify_mts
  block k pcb io_time =
      let s = k.scheduler in
      let pcb = re_schedule (record pcb { io = io_time }) in
      notify_mts
        (record k {
          scheduler = record s {
            blocked = safe_queue_push s.blocked (some pcb);
            io_request = s.io_request + 1;
          };
        })
        pcb

  -- The switch on the status that the process came back with.
  unfoldable pub dispatch_status : PcbStatus → KernelState → Pcb → ℕ → KernelState
  unfolding block terminate pre_empt
  dispatch_status PcbStatus.pcb_blocked k pcb io_time = block k pcb io_time
  dispatch_status PcbStatus.pcb_terminated k pcb io_time = terminate k pcb
  dispatch_status PcbStatus.pcb_ready k pcb io_time = pre_empt k pcb
  dispatch_status _ k pcb io_time = terminate k pcb

  -- The second half of `execute`: the process is back, `real` milliseconds later. `none` is a
  -- connection that was lost.
  unfoldable pub execute_return : KernelState → Option (Pcb × ℕ) → ℕ → Outcome
  unfolding dispatch_status
  execute_return k none real = Outcome.crashes
  execute_return k (some (pcb, io_time)) real =
      let s = k.scheduler in
      let pcb = record pcb { real = real } in
      let k =
        dispatch_status pcb.status
          (record k {
            scheduler = record s { current_estimation = 0 };
            running = none;
            blocks = λ pid. if pid == pcb.id then k.blocks pid + 1 else k.blocks pid;
          })
          pcb io_time in
      let s = k.scheduler in
      Outcome.done (record k { scheduler = record s { execute = s.execute + 1 } })

-- The first half of `execute`, up to the wait for the CPU; `sent_well` is whether the socket took
-- the process.
unfoldable pub execute : KernelState → Pcb → Bool → KernelState
unfolding terminate send
execute k pcb sent_well =
    let s = k.scheduler in
    let pcb = record pcb { status = PcbStatus.pcb_executing } in
    let k = record k { scheduler = record s { current_estimation = pcb.estimation } } in
    if sent_well
    then send (record k { running = some pcb }) (Message.send_pcb pcb)
    else terminate k pcb

module _ (sort : List Pcb → List Pcb) where
  -- One round of the thread's loop.
  unfoldable pub short_term_schedule : KernelState → Bool → Outcome
  unfolding execute
  short_term_schedule k sent_well =
      let s = k.scheduler in
      elim s.execute [
        | zero ↦ Outcome.waits
        | suc n ↦
            let (pcb, rest) = next_ready sort s in
            let k = record k { scheduler = record s { execute = n; ready = rest } } in
            elim pcb [ none ↦ Outcome.done k | some pcb ↦ Outcome.done (execute k pcb sent_well) ]
      ]
