-- ===== src/Kernel/CpuController/Trip.antt =====
-- A process's way to the CPU and back.
use os_sski.Common.{
  ◌+◌, ◌<◌, ◌≡◌, ◌≢◌, refl, sym, ◌∙◌, ap, true, none, some, [], ◌++◌, arith, u32_mod, append-nil,
}
use os_sski.Wire.Word.{Bytes, get_u32-put_u32_small}
use os_sski.Wire.Opcode.{op_int, op_pcb}
use os_sski.Wire.Package.{
  enviar_stream, recibir_operacion, recibir_buffer, recibir_buffer-package_serialize,
}
use os_sski.Wire.Pcb.{Pcb, IsPcb, Heap, pcb_to_stream, pcb_from_stream, pcb_bytes_size}
use os_sski.Wire.Pcb.Stream.{recovered, pcb_from-to_stream}
use os_sski.Wire.Pcb.Sizes.{length-pcb_to_stream}
use os_sski.Cpu.Cycle.{Cpu, receive_pcb, request_handler_int}
use os_sski.Cpu.Cycle.Hand.{IsExclusive}
use os_sski.Cpu.Server.{Handled, handle_pcb, request_handler}
use os_sski.Kernel.CpuController.{cpu_controller_send_pcb, cpu_controller_send_interrupt}

-- The CPU with a process just received.
abbrev pub holding : Cpu → Pcb → Cpu
holding cpu pcb = record cpu { cpu_in_use = 0; pcb = some pcb; pcb_received = cpu.pcb_received + 1 }

pcb_stream-read :
    (heap : Heap) (p : Pcb)
    → IsPcb p
    → pcb_from_stream heap (pcb_to_stream p) ≡ some (recovered heap p)
pcb_stream-read heap p w =
    ap (pcb_from_stream heap) (sym (append-nil (pcb_to_stream p))) ∙ pcb_from-to_stream heap p [] w

handle_pcb-free :
    (heap : Heap) (cpu : Cpu) (p : Pcb) (socket rest : Bytes)
    → IsPcb p
    → cpu.cpu_in_use ≡ 1
    → recibir_buffer socket ≡ some (pcb_to_stream p, rest)
    → handle_pcb heap cpu socket ≡ Handled.served (holding cpu (recovered heap p)) rest
unfolding handle_pcb receive_pcb
handle_pcb-free heap cpu p socket rest w free body =
    rw (free, body, pcb_stream-read heap p w, handle_pcb) (rw (free, receive_pcb) refl)

handle_pcb-busy :
    (heap : Heap) (cpu : Cpu) (socket : Bytes)
    → cpu.cpu_in_use ≡ 0
    → handle_pcb heap cpu socket ≡ Handled.waits
unfolding handle_pcb
handle_pcb-busy heap cpu socket busy = rw (busy, handle_pcb)

-- What a package with the code of a process does to the CPU.
request_handler-pcb :
    (heap : Heap) (cpu : Cpu) (p : Pcb) (rest : Bytes)
    → pcb_bytes_size p < u32_mod
    → (socket : Bytes) × (recibir_buffer socket ≡ some (pcb_to_stream p, rest))
      × (request_handler heap cpu (cpu_controller_send_pcb op_pcb p ++ rest)
          ≡ handle_pcb heap cpu socket)
unfolding cpu_controller_send_pcb enviar_stream request_handler
request_handler-pcb heap cpu p rest fits =
    let (socket, code, body) =
      recibir_buffer-package_serialize (record { opcode = op_pcb; stream = pcb_to_stream p }) rest
        (omega arith, omega (arith, length-pcb_to_stream p)) in
    (socket, body, rw (code, request_handler) refl)

interrupt-read :
    (heap : Heap) (cpu : Cpu) (rest : Bytes)
    → request_handler heap cpu (cpu_controller_send_interrupt ++ rest)
      ≡ Handled.served (request_handler_int cpu) rest
unfolding request_handler recibir_operacion cpu_controller_send_interrupt
interrupt-read heap cpu rest =
    rw (get_u32-put_u32_small op_int rest (omega arith), request_handler) refl

interrupt-held :
    (heap : Heap) (cpu : Cpu) (rest : Bytes)
    → cpu.pcb ≢ none
    → request_handler heap cpu (cpu_controller_send_interrupt ++ rest)
      ≡ Handled.served (record cpu { has_interruption = true }) rest
unfolding request_handler_int
interrupt-held heap cpu rest held = interrupt-read heap cpu rest ∙ ground (arith, held)

interrupt-empty :
    (heap : Heap) (cpu : Cpu) (rest : Bytes)
    → cpu.pcb ≡ none
    → request_handler heap cpu (cpu_controller_send_interrupt ++ rest) ≡ Handled.served cpu rest
unfolding request_handler_int
interrupt-empty heap cpu rest empty = interrupt-read heap cpu rest ∙ ground (arith, empty)

-- For a CPU whose semaphore is up exactly when no process is held, and a process whose fields are words
-- and whose stream's size is one: what the kernel dispatches is held by an empty CPU as it was sent
-- (the upper half of its size, `io` and `real` come from the allocated block instead), and waits
-- while another process is held. The kernel's interruption raises the flag when a process is held,
-- and changes nothing otherwise. What follows on the socket stays there.
pub request_handler-send :
    (heap : Heap) (cpu : Cpu) (p : Pcb) (rest : Bytes)
    → IsPcb p
    → pcb_bytes_size p < u32_mod
    → IsExclusive cpu
    → ((cpu.pcb ≡ none)
        → request_handler heap cpu (cpu_controller_send_pcb op_pcb p ++ rest)
          ≡ Handled.served (holding cpu (recovered heap p)) rest)
      × ((cpu.pcb ≢ none)
          → (request_handler heap cpu (cpu_controller_send_pcb op_pcb p ++ rest) ≡ Handled.waits)
            × (request_handler heap cpu (cpu_controller_send_interrupt ++ rest)
                ≡ Handled.served (record cpu { has_interruption = true }) rest))
      × ((cpu.pcb ≡ none)
          → request_handler heap cpu (cpu_controller_send_interrupt ++ rest)
            ≡ Handled.served cpu rest)
request_handler-send heap cpu p rest w fits ex =
    let (socket, body, e) = request_handler-pcb heap cpu p rest fits in
    (
      λ empty. e ∙ handle_pcb-free heap cpu p socket rest w (ground (arith, ex, empty)) body,
      λ held. (
        e ∙ handle_pcb-busy heap cpu socket (ground (arith, ex, held)),
        interrupt-held heap cpu rest held,
      ),
      interrupt-empty heap cpu rest,
    )
