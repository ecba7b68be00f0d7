-- ===== src/Cpu/Server.antt =====
-- cpu/src/server/request_handler.c: one round of the loop that serves the kernel, on the dispatch and
-- on the interrupt connection.
use os_sski.Common.{ℕ, ◌^◌, none, some, leb, ◌==◌, ◌||◌, if◌then◌else◌}
use os_sski.Wire.Word.{Bytes}
use os_sski.Wire.Opcode.{op_int, op_pcb, op_inout}
use os_sski.Wire.Package.{recibir_operacion, recibir_buffer, enviar_stream}
use os_sski.Wire.Pcb.{Pcb, Heap, pcb_from_stream}
use os_sski.Wire.Pcb.Sizes.{return_stream}
use os_sski.Cpu.Cycle.{Cpu, receive_pcb, request_handler_int}

-- A round goes on, waits for the CPU (and is taken again when it is signalled free), ends the thread,
-- or reads a null stream or past its end.
pub data Handled : Type 0 where
  served : Cpu → (socket : Bytes) → Handled
  waits closed crashed : Handled

-- The case of a process: the semaphore comes before the stream.
unfoldable pub handle_pcb : Heap → Cpu → Bytes → Handled
unfolding receive_pcb recibir_buffer
handle_pcb heap cpu socket =
    if cpu.cpu_in_use == 0 then Handled.waits else elim (recibir_buffer socket) [
      | none ↦ Handled.crashed
      | some (stream, socket) ↦ elim (pcb_from_stream heap stream) [
        | none ↦ Handled.crashed
        | some pcb ↦ elim (receive_pcb cpu pcb) [
          | none ↦ Handled.waits
          | some cpu ↦ Handled.served cpu socket
        ]
      ]
    ]

-- The code is read as a signed word; an unknown one is only logged.
unfoldable pub request_handler : Heap → Cpu → Bytes → Handled
unfolding recibir_operacion request_handler_int handle_pcb
request_handler heap cpu socket = elim (recibir_operacion socket) [
  | none ↦ Handled.closed
  | some (opcode, socket) ↦
      if opcode == 0 || leb (2 ^ 31) opcode
      then Handled.closed
      else if opcode == op_int
      then Handled.served (request_handler_int cpu) socket
      else if opcode == op_pcb
      then handle_pcb heap cpu socket
      else Handled.served cpu socket
]

-- What `return_pcb` sends to the dispatch client.
unfoldable pub return_message : Pcb → ℕ → Bytes
unfolding return_stream enviar_stream
return_message pcb time = enviar_stream op_inout (return_stream pcb time)
