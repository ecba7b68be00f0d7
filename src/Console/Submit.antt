-- ===== src/Console/Submit.antt =====
-- From the console's program to the kernel's queue of new processes.
use os_sski.Common.{
  ℕ, ◌+◌, ◌*◌, ◌<◌, ◌≡◌, ◌≢◌, refl, ap, ◌∙◌, false, some, List, [], ◌∷◌, ◌++◌, arith, append_assoc,
  u32_mod, length, ◌==◌,
}
use os_sski.Wire.Word.{Bytes}
use os_sski.Wire.Instruction.{Instruction, AllInstructions}
use os_sski.Wire.Pcb.{Pcb, new_pcb}
use os_sski.Kernel.Pids.{get_pid_libre, undefined}
use os_sski.Kernel.Queue.{
  safe_queue_push, safe_queue_any, safe_queue_remove_by, pcb_exists, get_pcb_by_pid,
}
use os_sski.Kernel.Threads.{KernelState}
use os_sski.Kernel.Threads.Dispatcher.{
  new_process, dispatch_handle_syscall, dispatch_handle_instruction,
}
use os_sski.Kernel.Routine.Session.{routine-action, routine-program}
use os_sski.Kernel.Routine.{Round, routine}
use os_sski.Console.{Statement, requests, on_send_action, on_send_instructions, on_run}

-- The state after the console's request for a process.
abbrev pub asked : ℕ → KernelState → ℕ → ℕ × KernelState
asked e k size = dispatch_handle_syscall e k (record { actioncode = new_process; param = size }) 0

routine-on_send_action :
    (e : ℕ) (k : KernelState) (pid size : ℕ) (rest : Bytes)
    → size < u32_mod
    → let (pid', k') =
        dispatch_handle_syscall e k (record { actioncode = new_process; param = size }) pid in
      routine e k pid (on_send_action size ++ rest) ≡ Round.served pid' k' rest
unfolding on_send_action
routine-on_send_action e k pid size rest small =
    routine-action e k pid (record { actioncode = new_process; param = size }) rest (omega arith)
      small

routine-on_send_instructions :
    (e : ℕ) (k : KernelState) (pid : ℕ) (commands : List Instruction) (rest : Bytes)
    → AllInstructions commands
    → 12 * length commands + 4 < u32_mod
    → routine e k pid (on_send_instructions commands ++ rest)
      ≡ Round.served pid (dispatch_handle_instruction k commands pid) rest
unfolding on_send_instructions
routine-on_send_instructions e k pid commands rest w small =
    routine-program e k pid commands rest w small

remove_by-append :
    (q : List Pcb) (pcb : Pcb) (id : ℕ)
    → pcb_exists q id ≡ false
    → pcb.id ≡ id
    → get_pcb_by_pid (q ++ pcb ∷ []) id ≡ (some pcb, q)
unfolding get_pcb_by_pid pcb_exists safe_queue_any safe_queue_remove_by
remove_by-append [] pcb id h e = ground arith
remove_by-append (x ∷ q) pcb id h e =
    let other : (x.id == id) ≡ false = ground (arith, h) in
    let later : pcb_exists q id ≡ false = ground (arith, h) in
    rw (other, remove_by-append q pcb id later e) refl

-- The state after a submission under the identifier `id`.
abbrev pub submitted : ℕ → KernelState → ℕ → List Instruction → ℕ → KernelState
submitted e k size commands id =
    let s = k.scheduler in
    record k {
      pids = (get_pid_libre k.pids).1;
      scheduler = record s {
        new = s.new ++ record (new_pcb id size e) { instructions = commands } ∷ [];
        req_admit = s.req_admit + 1;
      };
    }

dispatch-submitted :
    (e : ℕ) (k : KernelState) (size : ℕ) (commands : List Instruction)
    → let id = (get_pid_libre k.pids).0 in
      id ≢ undefined
      → pcb_exists k.pcbs id ≡ false
      → ((asked e k size).0 ≡ id)
        × (dispatch_handle_instruction (asked e k size).1 commands id
            ≡ submitted e k size commands id)
unfolding dispatch_handle_syscall dispatch_handle_instruction safe_queue_push new_pcb
dispatch-submitted e k size commands free fresh =
    let id = (get_pid_libre k.pids).0 in
    let there = remove_by-append k.pcbs (new_pcb id size e) id fresh refl in
    (ground arith, ground (arith, there))

on_run_nonempty :
    (size : ℕ) (commands : List Instruction)
    → commands ≢ []
    → on_run size commands ≡ on_send_action size ++ on_send_instructions commands
unfolding on_run
on_run_nonempty size [] h = absurd (h refl)
on_run_nonempty size (i ∷ commands) h = refl

-- What a console sends for a program that is not empty, of word-sized parameters and in a package of
-- word size, two rounds of the kernel's routine take: when an identifier is free and no process
-- that waits for its program has it, the first makes a new process of that size and initial
-- estimation, the second puts it with exactly this program at the end of the new queue and signals
-- one admission. The process no longer waits for a program, the identifier is taken, and nothing
-- else has changed.
pub routine-on_run :
    (e : ℕ) (k : KernelState) (size : ℕ) (program : List Statement) (rest : Bytes)
    → let commands = requests program [] in
      let id = (get_pid_libre k.pids).0 in
      commands ≢ []
      → AllInstructions commands
      → 12 * length commands + 4 < u32_mod
      → size < u32_mod
      → id ≢ undefined
      → pcb_exists k.pcbs id ≡ false
      → (k1 : KernelState) × (socket : Bytes) × (routine e k 0 (on_run size commands ++ rest)
          ≡ Round.served id k1 socket)
        × (routine e k1 id socket ≡ Round.served id (submitted e k size commands id) rest)
routine-on_run e k size program rest some_command w small size_small free fresh =
    let commands = requests program [] in
    let id = (get_pid_libre k.pids).0 in
    let (given, done) = dispatch-submitted e k size commands free fresh in
    let sent =
      ap (λ (s : Bytes). s ++ rest) (on_run_nonempty size commands some_command)
      ∙ append_assoc (on_send_action size) (on_send_instructions commands) rest in
    (
      (asked e k size).1,
      on_send_instructions commands ++ rest,
      ap (routine e k 0) sent
          ∙ routine-on_send_action e k 0 size (on_send_instructions commands ++ rest) size_small
          ∙ ap
              (λ (pid : ℕ).
                Round.served pid (asked e k size).1 (on_send_instructions commands ++ rest))
              given,
      routine-on_send_instructions e (asked e k size).1 id commands rest w small
          ∙ ap (λ (k' : KernelState). Round.served id k' rest) done,
    )
