-- ===== src/Kernel/CpuController.antt =====
-- kernel/src/client/cpu_controller.c: what the kernel sends to the CPU, and what it gets back. Each
-- function holds the connection's mutex.
pub mod Trip
pub mod Burst
pub mod Interrupt
use os_sski.Common.{ℕ, Option, some, ◌>>=◌}
use os_sski.Wire.Word.{Bytes, put_u32}
use os_sski.Wire.Opcode.{op_int}
use os_sski.Wire.Package.{enviar_stream, conexion_recibir_stream}
use os_sski.Wire.Pcb.{Pcb, Heap, pcb_to_stream}
use os_sski.Wire.Pcb.Sizes.{receive_pcb_stream}

unfoldable pub cpu_controller_send_pcb : ℕ → Pcb → Bytes
unfolding enviar_stream
cpu_controller_send_pcb opcode pcb = enviar_stream opcode (pcb_to_stream pcb)

unfoldable pub cpu_controller_send_interrupt : Bytes
cpu_controller_send_interrupt = put_u32 op_int

-- A null stream is read.
unfoldable pub cpu_controller_receive_pcb : Heap → Bytes → Option ((Pcb × ℕ) × Bytes)
unfolding conexion_recibir_stream
cpu_controller_receive_pcb heap socket = do
  (stream, socket) ← conexion_recibir_stream socket
  stream ← stream
  returned ← receive_pcb_stream heap stream
  some (returned, socket)
