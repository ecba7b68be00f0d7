-- ===== src/Console.antt =====
-- console/src/console/semantic.c and the sending of console/src/module/console.c: the parser's actions
-- put the program together, which goes to the kernel behind a request for a process.
pub mod Compile
pub mod Submit
use os_sski.Common.{ℕ, zero, suc, ◌-◌, ◌%◌, ◌^◌, List, [], ◌∷◌, ◌++◌, ltb, if◌then◌else◌, u32_mod}
use os_sski.Wire.Word.{Bytes}
use os_sski.Wire.Operands.{accion_serializar}
use os_sski.Wire.Instruction.{
  Instruction, instructions_fold, c_request_exit, c_request_read, c_request_write, c_request_no_op,
  c_request_io, c_request_copy,
}
use os_sski.Wire.Package.{Package, package_serialize}
use os_sski.Wire.Opcode.{op_sys, op_cmd}
use os_sski.Kernel.Threads.Dispatcher.{new_process}

-- What the grammar recognises; a constant is the number that its digits say, of any size.
pub data Statement : Type 0 where
  exit : Statement
  no_op io read : ℕ → Statement
  write copy : ℕ → ℕ → Statement

-- atoi of a constant, as the word that holds the `int`. The C library's saturates at LONG_MAX before it
-- cuts to 32 bits.
unfoldable pub atoi : ℕ → ℕ
atoi constant = (if ltb constant (2 ^ 63) then constant else 2 ^ 63 - 1) % u32_mod

-- How often a loop from 0 runs below such an `int`.
unfoldable pub times : ℕ → ℕ
times word = if ltb word (2 ^ 31) then word else 0

unfoldable pub request_instruction : ℕ → ℕ → ℕ → List Instruction → List Instruction
request_instruction icode param0 param1 commands =
    commands ++ record { icode = icode; param0 = param0; param1 = param1 } ∷ []

unfoldable pub no_op_loop : ℕ → List Instruction → List Instruction
unfolding request_instruction
no_op_loop zero commands = commands
no_op_loop (suc n) commands = no_op_loop n (request_instruction c_request_no_op 0 0 commands)

unfoldable pub request_no_op : ℕ → List Instruction → List Instruction
unfolding no_op_loop atoi times
request_no_op constant commands = no_op_loop (times (atoi constant)) commands

unfoldable pub request : Statement → List Instruction → List Instruction
unfolding request_no_op
request Statement.exit commands = request_instruction c_request_exit 0 0 commands
request (Statement.no_op n) commands = request_no_op n commands
request (Statement.io n) commands = request_instruction c_request_io (atoi n) 0 commands
request (Statement.read n) commands = request_instruction c_request_read (atoi n) 0 commands
request (Statement.write a b) commands =
    request_instruction c_request_write (atoi a) (atoi b) commands
request (Statement.copy a b) commands =
    request_instruction c_request_copy (atoi a) (atoi b) commands

unfoldable pub requests : List Statement → List Instruction → List Instruction
unfolding request
requests [] commands = commands
requests (s ∷ program) commands = requests program (request s commands)

unfoldable pub on_send_action : ℕ → Bytes
on_send_action process_size = package_serialize (record {
  opcode = op_sys;
  stream = accion_serializar (record { actioncode = new_process; param = process_size });
})

unfoldable pub on_send_instructions : List Instruction → Bytes
on_send_instructions commands =
    package_serialize (record { opcode = op_cmd; stream = instructions_fold commands })

-- What the console sends for a program; without instructions it stops first.
unfoldable pub on_run : ℕ → List Instruction → Bytes
unfolding on_send_action on_send_instructions
on_run process_size [] = []
on_run process_size (i ∷ commands) =
    on_send_action process_size ++ on_send_instructions (i ∷ commands)
