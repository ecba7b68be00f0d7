-- ===== src/Kernel/Routine.antt =====
-- kernel/src/server/routines.c: the loop that serves a console, by rounds.
pub mod Session
use os_sski.Common.{ℕ, zero, suc, ◌^◌, Option, none, some, leb, ◌==◌, ◌||◌, ◌>>=◌, if◌then◌else◌}
use os_sski.Wire.Word.{Bytes}
use os_sski.Wire.Opcode.{op_msg, op_sys, op_cmd}
use os_sski.Wire.Operands.{accion_from_stream}
use os_sski.Wire.Instruction.{instruction_list_from}
use os_sski.Wire.Package.{recibir_operacion, recibir_buffer}
use os_sski.Kernel.Threads.{KernelState}
use os_sski.Kernel.Threads.Dispatcher.{dispatch_handle_syscall, dispatch_handle_instruction}

-- `sender_pid`, the kernel and what the socket still brings; `closed` ends the thread, `crashed` is a
-- null stream that is read.
pub data Round : Type 0 where
  served : (pid : ℕ) → KernelState → Bytes → Round
  closed crashed : Round

-- The branch of an operation code, behind the code.
unfoldable pub serve : ℕ → KernelState → ℕ → ℕ → Bytes → Option (ℕ × KernelState × Bytes)
serve estimacion_inicial k pid opcode socket =
    if opcode == op_msg
    then (do (_, socket) ← recibir_buffer socket; some (pid, k, socket))
    else if opcode == op_sys
    then (do
      (stream, socket) ← recibir_buffer socket
      accion ← accion_from_stream stream
      let (pid, k) = dispatch_handle_syscall estimacion_inicial k accion pid
      some (pid, k, socket))
    else if opcode == op_cmd
    then (do
      (stream, socket) ← recibir_buffer socket
      instructions ← instruction_list_from stream
      some (pid, dispatch_handle_instruction k instructions pid, socket))
    else some (pid, k, socket)

-- The code is read as a signed word.
unfoldable pub routine : ℕ → KernelState → ℕ → Bytes → Round
unfolding serve
routine estimacion_inicial k pid socket = elim (recibir_operacion socket) [
  | none ↦ Round.closed
  | some (opcode, socket) ↦
      if opcode == 0 || leb (2 ^ 31) opcode
      then Round.closed
      else elim (serve estimacion_inicial k pid opcode socket) [
        | none ↦ Round.crashed
        | some (pid, k, socket) ↦ Round.served pid k socket
      ]
]

-- The loop, for at most `n` rounds; it ends before when a round does not serve.
unfoldable pub rounds : ℕ → ℕ → KernelState → ℕ → Bytes → Round
unfolding routine
rounds zero estimacion_inicial k pid socket = Round.served pid k socket
rounds (suc n) estimacion_inicial k pid socket = elim (routine estimacion_inicial k pid socket) [
  | Round.served pid k socket ↦ rounds n estimacion_inicial k pid socket
  | Round.closed ↦ Round.closed
  | Round.crashed ↦ Round.crashed
]
