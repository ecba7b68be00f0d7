-- ===== src/Memory/Link.antt =====
-- The memory module at the other end of the CPU's connection: cpu/src/module/cpu.c's requests reach
-- memory/src/server/request_handler.c, and its answers come back.
pub mod Walk
pub mod Word
pub mod Process
use os_sski.Common.{
  ℕ, ◌<◌, ◌≡◌, ◌≢◌, refl, ◌∙◌, true, Option, none, some, [], ◌++◌, arith, u32_mod, append-nil,
  length,
}
use os_sski.Wire.Word.{Bytes, put_u32, get_u32-put_u32_small}
use os_sski.Wire.Opcode.{op_frame, op_snd_page, op_rd, op_wt}
use os_sski.Wire.Operands.{
  Operands, IsWords, request_stream, operandos_to_stream, operandos_from_stream,
  operandos_from-to_stream, receive_operands-request_stream,
}
use os_sski.Wire.Package.{
  Package, IsPackage, package_serialize, enviar_stream, recibir_operacion, recibir_buffer,
  recibir_buffer-package_serialize,
}
use os_sski.Wire.Pcb.{Heap}
use os_sski.Cpu.Mmu.{MemoryModule}
use os_sski.Cpu.Client.{memory_client}
use os_sski.Memory.Server.{Settings, Server}
use os_sski.Memory.Routine.{Round, takes_stream, receive_stream, handle, routine}
use os_sski.Memory.CpuController.{cpu_controller_send_frame, obtain_frame}

-- What a round leaves of the module; `none`: it has crashed, or closed the connection.
abbrev pub outcome : Round → Bytes × Option Server
outcome (Round.served answers s _) = (answers, some s)
outcome Round.closed = ([], none)
outcome Round.crashed = ([], none)

abbrev pub exchange : Heap → Settings → Option Server → Bytes → Bytes × Option Server
exchange heap c none request = ([], none)
exchange heap c (some s) request = outcome (routine heap c s request)

abbrev pub module_of : Heap → Settings → MemoryModule (Option Server)
module_of heap c = memory_client (exchange heap c)

receive_stream-buffer :
    (opcode : ℕ) (socket stream rest : Bytes)
    → takes_stream opcode ≡ true
    → recibir_buffer socket ≡ some (stream, rest)
    → receive_stream opcode socket ≡ (some stream, rest)
unfolding receive_stream
receive_stream-buffer opcode socket stream rest takes got = rw (takes, receive_stream, got)

-- A request whose handler succeeds is served.
pub exchange-handle :
    (heap : Heap) (c : Settings) (s s' : Server) (opcode : ℕ) (stream answers : Bytes)
    → takes_stream opcode ≡ true
    → opcode ≢ 0
    → opcode < 21
    → length stream < u32_mod
    → handle heap c s opcode (some stream) ≡ some (answers, s')
    → exchange heap c (some s) (enviar_stream opcode stream) ≡ (answers, some s')
unfolding routine enviar_stream
exchange-handle heap c s s' opcode stream answers takes nonzero small fits done =
    let p : Package = record { opcode = opcode; stream = stream } in
    let (socket, code, body) = recibir_buffer-package_serialize p [] (omega arith, fits) in
    let code' : recibir_operacion (package_serialize p) ≡ some (opcode, socket) =
      rw (append-nil (package_serialize p)) at code in
    let got = receive_stream-buffer opcode socket stream [] takes body in
    rw (code', routine) (ground (arith, got))

pub length-request : (pid : ℕ) (o : Operands) → length (request_stream pid o) ≡ 12
unfolding request_stream operandos_to_stream put_u32
length-request pid o = refl
