-- ===== src/Examples/Console.antt =====
-- A program of three instructions on its way from the console into the kernel.
use os_sski.Common.{
  ℕ, suc, ◌+◌, ◌*◌, ◌<◌, ◌≡◌, ◌≢◌, refl, false, List, [], ◌∷◌, ◌++◌, arith, length, u32_mod,
}
use os_sski.Wire.Word.{Bytes}
use os_sski.Wire.Instruction.{AllInstructions}
use os_sski.Kernel.Pids.{get_pid_libre, take_free, new_pids}
use os_sski.Wire.Pcb.{new_pcb}
use os_sski.Kernel.Queue.{pcb_exists, get_pcb_by_pid, safe_queue_push}
use os_sski.Kernel.Scheduler.{new_scheduler}
use os_sski.Kernel.Threads.Dispatcher.{dispatch_handle_syscall, dispatch_handle_instruction}
use os_sski.Kernel.Threads.{KernelState}
use os_sski.Kernel.Threads.Steps.{on_start}
use os_sski.Kernel.Routine.{Round, routine, rounds}
use os_sski.Kernel.Routine.Session.{
  ConsoleMessage, AllConsoleMessages, session_bytes, effects, rounds-session_bytes,
}
use os_sski.Console.{
  Statement, atoi, times, no_op_loop, on_run, request, request_instruction, request_no_op, requests,
}
use os_sski.Console.Compile.{compile, requests-compile}
use os_sski.Console.Submit.{submitted, routine-on_run}

abbrev program : List Statement
program = Statement.no_op 2 ∷ Statement.write 4 9 ∷ Statement.exit ∷ []

requests-compile_example : requests program [] ≡ [] ++ compile program
requests-compile_example =
    requests-compile program [] (omega arith, ((omega arith, omega arith), (tt, tt)))

-- A constant that is no `int`: none of three thousand million instructions, one of 2^32 + 1.
too_many : requests (Statement.no_op 3000000000 ∷ []) [] ≡ []
unfolding requests request request_no_op no_op_loop atoi times
too_many = refl

wrapped : length (requests (Statement.no_op 4294967297 ∷ []) []) ≡ 1
unfolding requests request request_no_op no_op_loop atoi times
wrapped = refl

abbrev started : KernelState
started = on_start 2 "FIFO" 5

abbrev pid : ℕ
pid = (get_pid_libre started.pids).0

program-nonempty : requests program [] ≢ []
unfolding requests request request_instruction request_no_op no_op_loop atoi times
program-nonempty = ground arith

program-AllInstructions : AllInstructions (requests program [])
unfolding requests request request_instruction request_no_op no_op_loop atoi times
program-AllInstructions = ground arith

length-program : 12 * length (requests program []) + 4 < u32_mod
unfolding requests request request_instruction request_no_op no_op_loop atoi times
length-program = omega arith

pid-zero : pid ≡ 0
unfolding get_pid_libre take_free new_pids on_start
pid-zero = refl

pid-unknown : pcb_exists started.pcbs pid ≡ false
unfolding pcb_exists on_start
pid-unknown = refl

routine-on_run_example :
    (k1 : KernelState) × (socket : Bytes) × (routine 1000 started 0
        (on_run 64 (requests program []) ++ 7 ∷ [])
      ≡ Round.served pid k1 socket)
    × (routine 1000 k1 pid socket
        ≡ Round.served pid (submitted 1000 started 64 (requests program []) pid) (7 ∷ []))
routine-on_run_example =
    routine-on_run 1000 started 64 program (7 ∷ []) program-nonempty program-AllInstructions
      length-program (omega arith) (omega (arith, pid-zero)) pid-unknown

-- An action, a code that the loop does not know, a text, and the program twice: the second time the
-- process no longer waits for one.
abbrev messages : List ConsoleMessage
messages =
    ConsoleMessage.action (record { actioncode = 0; param = 64 })
    ∷ ConsoleMessage.unknown 6
    ∷ ConsoleMessage.text (104 ∷ 105 ∷ 0 ∷ [])
    ∷ ConsoleMessage.program (requests program [])
    ∷ ConsoleMessage.program (requests program [])
    ∷ []

messages-AllConsoleMessages : AllConsoleMessages messages
messages-AllConsoleMessages = (
  (omega arith, omega arith),
  (
    (
      λ e. absurd (omega (arith, e)),
      omega arith,
      λ e. absurd (omega (arith, e)),
      λ e. absurd (omega (arith, e)),
      λ e. absurd (omega (arith, e)),
    ),
    (
      omega arith,
      ((program-AllInstructions, length-program), ((program-AllInstructions, length-program), tt)),
    ),
  ),
)

queued_once : length (effects 1000 0 started messages).1.scheduler.new ≡ 1
unfolding on_start dispatch_handle_syscall dispatch_handle_instruction get_pid_libre take_free
    new_pids get_pcb_by_pid safe_queue_push new_pcb new_scheduler
queued_once = refl

rounds-session_bytes_example :
    (rounds (length messages) 1000 started 0 (session_bytes messages ++ 7 ∷ [])
      ≡ Round.served
          (effects 1000 0 started messages).0
          (effects 1000 0 started messages).1
          (7 ∷ []))
    × (rounds (suc (length messages + 3)) 1000 started 0 (session_bytes messages) ≡ Round.closed)
rounds-session_bytes_example =
    rounds-session_bytes 1000 started 0 messages (7 ∷ []) 3 messages-AllConsoleMessages
