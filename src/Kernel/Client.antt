-- ===== src/Kernel/Client.antt =====
-- kernel/src/client/swap_controller.c and kernel/src/scheduling/lts.c: what the kernel sends to the memory
-- module, and what it makes of the answer.
use os_sski.Common.{ℕ, none, some, ◌++◌, ◌>>=◌}
use os_sski.Wire.Word.{Bytes, put_u32, get_u32}
use os_sski.Wire.Opcode.{op_memory_init, op_process_terminated, op_retrieve_swapped_pcb}
use os_sski.Wire.Operands.{operandos_to_stream}
use os_sski.Wire.Package.{enviar_stream, conexion_recibir_stream}
use os_sski.Wire.Pcb.{Pcb, pcb_to_stream}
use os_sski.Kernel.Threads.Lts.{MemoryLink}

unfoldable pub swap_controller_send_pcb : ℕ → Pcb → Bytes
unfolding enviar_stream pcb_to_stream
swap_controller_send_pcb opcode pcb = enviar_stream opcode (pcb_to_stream pcb)

unfoldable pub swap_controller_request_pcb : ℕ → Bytes
unfolding enviar_stream
swap_controller_request_pcb pid = enviar_stream op_retrieve_swapped_pcb (put_u32 pid)

unfoldable pub swap_controller_exit : Pcb → Bytes
unfolding enviar_stream
swap_controller_exit pcb =
    enviar_stream op_process_terminated (put_u32 pcb.id ++ put_u32 pcb.page_table)

-- The request of `admit` for a page table.
unfoldable pub page_table_request : Pcb → Bytes
unfolding enviar_stream operandos_to_stream
page_table_request pcb =
    enviar_stream op_memory_init (operandos_to_stream (record { op1 = pcb.id; op2 = pcb.size }))

-- What `admit` receives: nothing, a null stream, or the page table.
unfoldable pub receive_page_table : Bytes → MemoryLink
unfolding conexion_recibir_stream get_u32
receive_page_table answers =
    elim (do
      (received, _) ← conexion_recibir_stream answers
      stream ← received
      (page_table, _) ← get_u32 stream
      some page_table) [
        | none ↦ MemoryLink.no_answer
        | some page_table ↦ MemoryLink.page_table page_table
      ]
