-- ===== src/Kernel/Routine/Session.antt =====
-- A console's connection: the messages that it sends one after the other, and the loop that takes them.
use os_sski.Common.{
  ℕ, suc, ◌^◌, ◌+◌, ◌*◌, ◌<◌, ◌≡◌, ◌≢◌, refl, ap, ◌∙◌, some, List, [], ◌∷◌, ◌++◌, arith,
  append_assoc, append-nil, u32_mod, length,
}
use os_sski.Wire.Word.{Bytes, put_u32, get_u32, get_u32-put_u32_small}
use os_sski.Wire.Opcode.{op_msg, op_sys, op_cmd}
use os_sski.Wire.Operands.{
  Accion, accion_serializar, accion_from_stream, accion_from_stream-serializar,
}
use os_sski.Wire.Instruction.{
  Instruction, AllInstructions, instructions_fold, instruction_list_from,
  instruction_list_from-fold, length-instructions_fold,
}
use os_sski.Wire.Package.{
  Package, package_serialize, recibir_operacion, recibir_buffer-package_serialize,
}
use os_sski.Kernel.Threads.{KernelState}
use os_sski.Kernel.Threads.Dispatcher.{dispatch_handle_syscall, dispatch_handle_instruction}
use os_sski.Kernel.Routine.{Round, serve, routine, rounds}

pub routine-serve :
    (e : ℕ) (k k' : KernelState) (pid pid' opcode : ℕ) (socket after rest : Bytes)
    → recibir_operacion socket ≡ some (opcode, after)
    → opcode ≢ 0
    → opcode < 2 ^ 31
    → serve e k pid opcode after ≡ some (pid', k', rest)
    → routine e k pid socket ≡ Round.served pid' k' rest
unfolding routine
routine-serve e k k' pid pid' opcode socket after rest got some_code small done =
    rw (got, routine) (ground arith)

routine-text :
    (e : ℕ) (k : KernelState) (pid : ℕ) (stream rest : Bytes)
    → length stream < u32_mod
    → routine e k pid (package_serialize (record { opcode = op_msg; stream = stream }) ++ rest)
      ≡ Round.served pid k rest
unfolding serve
routine-text e k pid stream rest small =
    let p : Package = record { opcode = op_msg; stream = stream } in
    let (socket, code, body) = recibir_buffer-package_serialize p rest (omega arith, small) in
    routine-serve e k _ pid _ op_msg _ socket rest code (λ x. absurd (omega (arith, x)))
      (omega arith) (rw body refl)

pub routine-action :
    (e : ℕ) (k : KernelState) (pid : ℕ) (a : Accion) (rest : Bytes)
    → a.actioncode < u32_mod
    → a.param < u32_mod
    → let (pid', k') = dispatch_handle_syscall e k a pid in
      routine e k pid
        (package_serialize (record { opcode = op_sys; stream = accion_serializar a }) ++ rest)
      ≡ Round.served pid' k' rest
unfolding serve accion_serializar put_u32
routine-action e k pid a rest code_small small =
    let p : Package = record { opcode = op_sys; stream = accion_serializar a } in
    let (socket, code, body) = recibir_buffer-package_serialize p rest (omega arith, omega arith) in
    let whole : accion_from_stream (accion_serializar a) ≡ some a =
      rw (append-nil (accion_serializar a)) at
        (accion_from_stream-serializar a [] code_small small) in
    routine-serve e k _ pid _ op_sys _ socket rest code (λ x. absurd (omega (arith, x)))
      (omega arith) (rw (body, whole) refl)

pub routine-program :
    (e : ℕ) (k : KernelState) (pid : ℕ) (is : List Instruction) (rest : Bytes)
    → AllInstructions is
    → 12 * length is + 4 < u32_mod
    → routine e k pid
        (package_serialize (record { opcode = op_cmd; stream = instructions_fold is }) ++ rest)
      ≡ Round.served pid (dispatch_handle_instruction k is pid) rest
unfolding serve
routine-program e k pid is rest w small =
    let p : Package = record { opcode = op_cmd; stream = instructions_fold is } in
    let (socket, code, body) =
      recibir_buffer-package_serialize p rest
        (omega arith, omega (arith, length-instructions_fold is)) in
    let whole : instruction_list_from (instructions_fold is) ≡ some is =
      rw (append-nil (instructions_fold is)) at
        (instruction_list_from-fold is [] w (omega arith)) in
    routine-serve e k _ pid _ op_cmd _ socket rest code (λ x. absurd (omega (arith, x)))
      (omega arith) (rw (body, whole) refl)

-- What a client says, by the codes that the loop knows, and one that it does not.
pub data ConsoleMessage : Type 0 where
  text : Bytes → ConsoleMessage
  action : Accion → ConsoleMessage
  program : List Instruction → ConsoleMessage
  unknown : (opcode : ℕ) → ConsoleMessage

abbrev pub IsConsoleMessage : ConsoleMessage → Type 0
IsConsoleMessage (ConsoleMessage.text stream) = length stream < u32_mod
IsConsoleMessage (ConsoleMessage.action a) = (a.actioncode < u32_mod) × (a.param < u32_mod)
IsConsoleMessage (ConsoleMessage.program is) = AllInstructions is × (12 * length is + 4 < u32_mod)
IsConsoleMessage (ConsoleMessage.unknown opcode) =
    (opcode ≢ 0) × (opcode < 2 ^ 31) × (opcode ≢ op_msg) × (opcode ≢ op_sys) × (opcode ≢ op_cmd)

-- The bytes of a message; an unknown code comes alone, since the loop reads nothing behind it.
abbrev pub message_bytes : ConsoleMessage → Bytes
message_bytes (ConsoleMessage.text stream) =
    package_serialize (record { opcode = op_msg; stream = stream })
message_bytes (ConsoleMessage.action a) =
    package_serialize (record { opcode = op_sys; stream = accion_serializar a })
message_bytes (ConsoleMessage.program is) =
    package_serialize (record { opcode = op_cmd; stream = instructions_fold is })
message_bytes (ConsoleMessage.unknown opcode) = put_u32 opcode

abbrev pub session_bytes : List ConsoleMessage → Bytes
session_bytes [] = []
session_bytes (m ∷ messages) = message_bytes m ++ session_bytes messages

-- What a message means to the client's identifier and to the kernel.
abbrev pub effect : ℕ → ℕ → KernelState → ConsoleMessage → ℕ × KernelState
effect e pid k (ConsoleMessage.text stream) = (pid, k)
effect e pid k (ConsoleMessage.action a) = dispatch_handle_syscall e k a pid
effect e pid k (ConsoleMessage.program is) = (pid, dispatch_handle_instruction k is pid)
effect e pid k (ConsoleMessage.unknown opcode) = (pid, k)

abbrev pub effects : ℕ → ℕ → KernelState → List ConsoleMessage → ℕ × KernelState
effects e pid k [] = (pid, k)
effects e pid k (m ∷ messages) = let (pid, k) = effect e pid k m in effects e pid k messages

abbrev pub AllConsoleMessages : List ConsoleMessage → Type 0
AllConsoleMessages [] = Unit
AllConsoleMessages (m ∷ messages) = IsConsoleMessage m × AllConsoleMessages messages

routine-unknown :
    (e : ℕ) (k : KernelState) (pid opcode : ℕ) (rest : Bytes)
    → IsConsoleMessage (ConsoleMessage.unknown opcode)
    → routine e k pid (put_u32 opcode ++ rest) ≡ Round.served pid k rest
unfolding serve recibir_operacion
routine-unknown e k pid opcode rest (nonzero, small, no_msg, no_sys, no_cmd) =
    routine-serve e k _ pid _ opcode _ rest rest
      (get_u32-put_u32_small opcode rest (omega (arith, small))) nonzero small
      (ground (arith, no_msg, no_sys, no_cmd))

routine-message :
    (e : ℕ) (k : KernelState) (pid : ℕ) (m : ConsoleMessage) (rest : Bytes)
    → IsConsoleMessage m
    → let (pid', k') = effect e pid k m in
      routine e k pid (message_bytes m ++ rest) ≡ Round.served pid' k' rest
routine-message e k pid (ConsoleMessage.text stream) rest w = routine-text e k pid stream rest w
routine-message e k pid (ConsoleMessage.action a) rest w = routine-action e k pid a rest w.0 w.1
routine-message e k pid (ConsoleMessage.program is) rest w = routine-program e k pid is rest w.0 w.1
routine-message e k pid (ConsoleMessage.unknown opcode) rest w =
    routine-unknown e k pid opcode rest w

rounds-message :
    (n e : ℕ) (k : KernelState) (pid : ℕ) (m : ConsoleMessage) (rest : Bytes)
    → IsConsoleMessage m
    → let (pid', k') = effect e pid k m in
      rounds (suc n) e k pid (message_bytes m ++ rest) ≡ rounds n e k' pid' rest
unfolding rounds
rounds-message n e k pid m rest w = rw (routine-message e k pid m rest w, rounds) refl

rounds-end : (n e : ℕ) (k : KernelState) (pid : ℕ) → rounds (suc n) e k pid [] ≡ Round.closed
unfolding rounds routine recibir_operacion get_u32
rounds-end n e k pid = refl

rounds-served :
    (e : ℕ) (k : KernelState) (pid : ℕ) (messages : List ConsoleMessage) (rest : Bytes)
    → AllConsoleMessages messages
    → let (pid', k') = effects e pid k messages in
      rounds (length messages) e k pid (session_bytes messages ++ rest) ≡ Round.served pid' k' rest
unfolding rounds
rounds-served e k pid [] rest w = refl
rounds-served e k pid (m ∷ messages) rest w =
    let (pid', k') = effect e pid k m in
    ap (rounds (suc (length messages)) e k pid)
      (append_assoc (message_bytes m) (session_bytes messages) rest)
    ∙ rounds-message (length messages) e k pid m (session_bytes messages ++ rest) w.0
    ∙ rounds-served e k' pid' messages rest w.1

rounds-closed :
    (further e : ℕ) (k : KernelState) (pid : ℕ) (messages : List ConsoleMessage)
    → AllConsoleMessages messages
    → rounds (suc (length messages + further)) e k pid (session_bytes messages) ≡ Round.closed
rounds-closed further e k pid [] w = rounds-end (0 + further) e k pid
rounds-closed further e k pid (m ∷ messages) w =
    let (pid', k') = effect e pid k m in
    let next : suc (length messages) + further ≡ suc (length messages + further) = omega arith in
    rounds-message (suc (length messages) + further) e k pid m (session_bytes messages) w.0
    ∙ ap (λ (n : ℕ). rounds n e k' pid' (session_bytes messages)) next
    ∙ rounds-closed further e k' pid' messages w.1

-- The loop over a whole connection: texts, actions and programs in packages, and codes that it does not
-- know, positive ones, are told apart, however they follow one another. After as many rounds as
-- there are messages it has done exactly what they mean, in their order, the identifier that an action
-- gives being the one of the programs behind it, and what follows is left on the socket; when nothing
-- follows, any further round ends the loop.
pub rounds-session_bytes :
    (e : ℕ) (k : KernelState) (pid : ℕ) (messages : List ConsoleMessage) (rest : Bytes)
    (further : ℕ)
    → AllConsoleMessages messages
    → let (pid', k') = effects e pid k messages in
      (rounds (length messages) e k pid (session_bytes messages ++ rest)
        ≡ Round.served pid' k' rest)
      × (rounds (suc (length messages + further)) e k pid (session_bytes messages) ≡ Round.closed)
rounds-session_bytes e k pid messages rest further w =
    (rounds-served e k pid messages rest w, rounds-closed further e k pid messages w)
