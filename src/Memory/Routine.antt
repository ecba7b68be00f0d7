-- ===== src/Memory/Routine.antt =====
-- memory/src/server/request_handler.c: one round of the loop that serves the kernel or the CPU. The
-- answers are the bytes that go back on the socket.
use os_sski.Common.{
  ℕ, Bool, ◌^◌, Option, none, some, [], leb, length, ◌==◌, ◌||◌, ◌>>=◌, if◌then◌else◌,
}
use os_sski.Wire.Word.{Bytes, put_u32}
use os_sski.Wire.Opcode.{
  op_msg, op_rd, op_swap_pcb, op_retrieve_swapped_pcb, op_wt, op_sz, op_entries, op_frame,
  op_snd_page, op_memory_init, op_process_terminated,
}
use os_sski.Wire.Package.{recibir_operacion, recibir_buffer, enviar_stream}
use os_sski.Wire.Pcb.{Heap}
use os_sski.Memory.Server.{Settings, Server}
use os_sski.Memory.CpuController.{
  cpu_controller_read, cpu_controller_write, cpu_controller_send_size, cpu_controller_send_entries,
  cpu_controller_send_frame, cpu_controller_send_page_second_level,
}
use os_sski.Memory.KernelController.{
  kernel_controller_memory_init, kernel_controller_swap, kernel_controller_read_swap,
  kernel_controller_destroy_process_file,
}

-- A round answers and goes on, ends the thread, or reads a null stream or outside a table.
pub data Round : Type 0 where
  served : (answers : Bytes) → Server → (socket : Bytes) → Round
  closed crashed : Round

-- The stream of a request as the handlers that look at its size get it: an empty one counts as none.
unfoldable pub received : Option Bytes → Option Bytes
received stream = do bytes ← stream; if length bytes == 0 then none else some bytes

-- servidor_enviar_stream of a word
unfoldable pub answer : ℕ → ℕ → Bytes
unfolding enviar_stream
answer opcode value = enviar_stream opcode (put_u32 value)

-- The cases of the switch that the CPU uses, with the stream that the handlers with one receive: the
-- answers, and the state. Any other code is only logged.
unfoldable pub handle_cpu : Settings → Server → ℕ → Option Bytes → Option (Bytes × Server)
unfolding received answer
handle_cpu c s opcode stream =
    if opcode == op_rd
    then (do
      stream ← stream
      (value, s) ← cpu_controller_read c s stream
      some (answer op_rd value, s))
    else if opcode == op_wt
    then (do stream ← stream; s ← cpu_controller_write c s stream; some ([], s))
    else if opcode == op_sz
    then some (put_u32 (cpu_controller_send_size c), s)
    else if opcode == op_entries
    then some (put_u32 (cpu_controller_send_entries c), s)
    else if opcode == op_frame
    then (do (frame, s) ← cpu_controller_send_frame c s (received stream); some (put_u32 frame, s))
    else if opcode == op_snd_page
    then (do id ← cpu_controller_send_page_second_level s (received stream); some (put_u32 id, s))
    else some ([], s)

-- The whole switch: the cases that the kernel uses, and the others.
unfoldable pub handle : Heap → Settings → Server → ℕ → Option Bytes → Option (Bytes × Server)
unfolding handle_cpu received answer
handle heap c s opcode stream =
    if opcode == op_memory_init
    then (do
      (page_table, s) ← kernel_controller_memory_init c s (received stream)
      some (elim page_table [ none ↦ [] | some id ↦ answer op_memory_init id ], s))
    else if opcode == op_process_terminated
    then (do stream ← stream; s ← kernel_controller_destroy_process_file s stream; some ([], s))
    else if opcode == op_swap_pcb
    then (do stream ← stream; s ← kernel_controller_swap heap c s stream; some ([], s))
    else if opcode == op_retrieve_swapped_pcb
    then (do stream ← stream; s ← kernel_controller_read_swap c s stream; some ([], s))
    else handle_cpu c s opcode stream

-- The operation codes whose handlers read a stream from the socket.
unfoldable pub takes_stream : ℕ → Bool
takes_stream opcode =
    opcode == op_msg
    || opcode == op_memory_init
    || opcode == op_rd
    || opcode == op_wt
    || opcode == op_process_terminated
    || opcode == op_swap_pcb
    || opcode == op_retrieve_swapped_pcb
    || opcode == op_frame
    || opcode == op_snd_page

-- The stream that a handler receives, and what the socket still brings.
unfoldable pub receive_stream : ℕ → Bytes → Option Bytes × Bytes
unfolding takes_stream recibir_buffer
receive_stream opcode socket =
    if takes_stream opcode
    then elim (recibir_buffer socket) [
      | none ↦ (none, [])
      | some (stream, socket) ↦ (some stream, socket)
    ]
    else (none, socket)

-- The code is read as a signed word.
unfoldable pub routine : Heap → Settings → Server → Bytes → Round
unfolding recibir_operacion receive_stream handle
routine heap c s socket = elim (recibir_operacion socket) [
  | none ↦ Round.closed
  | some (opcode, socket) ↦
      if opcode == 0 || leb (2 ^ 31) opcode
      then Round.closed
      else let (stream, socket) = receive_stream opcode socket in
        elim (handle heap c s opcode stream) [
          | none ↦ Round.crashed
          | some (answers, s) ↦ Round.served answers s socket
        ]
]
