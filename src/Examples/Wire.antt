-- ===== src/Examples/Wire.antt =====
-- Streams of small messages.
use os_sski.Common.{◌≡◌, refl, none, some, List, [], ◌∷◌, ◌++◌, arith, length, if◌then◌else◌, ◌==◌}
use os_sski.Wire.Operands.{
  Operands, request_stream, receive_operands, receive_operands-request_stream,
}
use os_sski.Wire.Instruction.{
  Instruction, IsInstruction, AllInstructions, instructions_fold, instruction_list_from,
  instruction_list_from-fold, c_request_exit, c_request_copy,
}
use os_sski.Wire.Package.{
  Package, package_serialize, conexion_recibir_stream, conexion_recibir_stream-serialize,
}
use os_sski.Wire.Pcb.{Pcb, PcbStatus, IsPcb, Heap, status_code, status_of_code}
use os_sski.Wire.Pcb.Stream.{recovered}
use os_sski.Wire.Pcb.Sizes.{return_stream, receive_pcb_stream, receive_pcb_stream-return}

abbrev copy_7_9 : Instruction
copy_7_9 = record { icode = c_request_copy; param0 = 7; param1 = 9 }

abbrev exit_0 : Instruction
exit_0 = record { icode = c_request_exit; param0 = 0; param1 = 0 }

abbrev program : List Instruction
program = copy_7_9 ∷ exit_0 ∷ []

copy_7_9-IsInstruction : IsInstruction copy_7_9
copy_7_9-IsInstruction = record {
  icode_small = omega arith;
  param0_small = omega arith;
  param1_small = omega arith;
}

exit_0-IsInstruction : IsInstruction exit_0
exit_0-IsInstruction = record {
  icode_small = omega arith;
  param0_small = omega arith;
  param1_small = omega arith;
}

program-AllInstructions : AllInstructions program
program-AllInstructions = (copy_7_9-IsInstruction, (exit_0-IsInstruction, tt))

instruction_list_from-fold_example :
    instruction_list_from (instructions_fold program ++ 1 ∷ 2 ∷ []) ≡ some program
instruction_list_from-fold_example =
    instruction_list_from-fold program (1 ∷ 2 ∷ []) program-AllInstructions (omega arith)

abbrev operands_3_4 : Operands
operands_3_4 = record { op1 = 3; op2 = 4 }

receive_operands-request_stream_example :
    receive_operands (request_stream 5 operands_3_4 ++ []) ≡ some (5, operands_3_4)
receive_operands-request_stream_example =
    receive_operands-request_stream 5 operands_3_4 [] (omega arith)
      (record { op1_small = omega arith; op2_small = omega arith })

abbrev blocked_pcb : Pcb
blocked_pcb = record {
  id = 3;
  status = PcbStatus.pcb_blocked;
  size = 64;
  instructions = program;
  page_table = 2;
  estimation = 1000;
  pc = 1;
  io = 0;
  real = 0;
}

blocked_pcb-IsPcb : IsPcb blocked_pcb
unfolding status_code status_of_code
blocked_pcb-IsPcb = record {
  id_small = omega arith;
  status_fits = (omega arith, refl);
  size_small = omega arith;
  estimation_small = omega arith;
  pc_small = omega arith;
  page_table_small = omega arith;
  count_small = omega arith;
  instructions_fit = program-AllInstructions;
}

abbrev garbage : Heap
garbage = record { size_high = 5; io = 77; real = 88 }

receive_pcb_stream-return_example :
    receive_pcb_stream garbage (return_stream blocked_pcb 500 ++ [])
    ≡ some (recovered garbage blocked_pcb, 500)
receive_pcb_stream-return_example =
    receive_pcb_stream-return garbage blocked_pcb 500 [] blocked_pcb-IsPcb (omega arith)

abbrev empty_package : Package
empty_package = record { opcode = 6; stream = [] }

conexion_recibir_stream-serialize_example :
    conexion_recibir_stream (package_serialize empty_package ++ 9 ∷ [])
    ≡ some (if length empty_package.stream == 0 then none else some empty_package.stream, 9 ∷ [])
conexion_recibir_stream-serialize_example =
    conexion_recibir_stream-serialize empty_package (9 ∷ []) (omega arith, omega arith)
