-- ===== src/Examples/Isolation.antt =====
-- The memory module from its start through two requests: a process is made, and touches its first page.
use os_sski.Common.{
  ℕ, ◌≡◌, refl, true, false, Option, none, some, List, [], ◌∷◌, replicate, ◌==◌, if◌then◌else◌,
}
use os_sski.Wire.Word.{Bytes, put_u32, get_u32}
use os_sski.Wire.Opcode.{op_memory_init, op_frame}
use os_sski.Wire.Operands.{request_stream, operandos_to_stream, operandos_from_stream}
use os_sski.Wire.Package.{package_serialize, enviar_stream, recibir_operacion, recibir_buffer, recv}
use os_sski.Wire.Pcb.{Heap}
use os_sski.Memory.Table.{Row, empty_row, new_page_table_lvl2}
use os_sski.Memory.Store.{overwrite}
use os_sski.Memory.Frames.{find_free_frame, free_from, create_from, create_frame_for_table}
use os_sski.Memory.Process.{
  get_table, null_from, find_id, put_table, create_lvl2_tables, create_table, create_new_process,
}
use os_sski.Memory.Lookup.{big_rows, create_big_table}
use os_sski.Memory.Server.{Settings, Server, on_init_memory}
use os_sski.Memory.Swap.{new_swap_data, ftruncate, store_bytes, put_file, create_file}
use os_sski.Memory.CpuController.{
  lists, table_1_from, get_table_lvl1_number, count_rows, count_present, should_replace_frame,
  make_room, assign_frame, obtain_frame, cpu_controller_send_frame,
}
use os_sski.Memory.KernelController.{print_tables, memory_init, kernel_controller_memory_init}
use os_sski.Memory.Routine.{
  Round, received, answer, handle_cpu, handle, takes_stream, receive_stream, routine,
}
use os_sski.Memory.Isolation.{IsIsolated}
use os_sski.Memory.Isolation.Reach.{started, served, Reach-IsIsolated}

abbrev heap : Heap
heap = record { size_high = 0; io = 0; real = 0 }

abbrev settings : Settings
settings = record {
  tam_memoria = 48;
  tam_pagina = 12;
  entradas_por_tabla = 2;
  marcos_por_proceso = 3;
  algoritmo_is_clock = true;
  opens = λ pid. true;
  maps = λ size. true;
  malloc = λ size. replicate size 7;
}

abbrev nothing : ℕ → Option Bytes
nothing pid = none

abbrev tables : List Row → List (Option (List Row))
tables first = some first ∷ some (empty_row ∷ empty_row ∷ []) ∷ []

abbrev with_process : Server
with_process = record {
  memory = record {
    max_rows = 2;
    max_frames = 3;
    frames = replicate 4 false;
    tables_lvl_1 = some (0 ∷ 1 ∷ []) ∷ [];
    tables_lvl_2 = tables (empty_row ∷ empty_row ∷ []);
  };
  main_memory = replicate 48 7;
  swap_data = record { pid = 3; size = 64; offset = 0 } ∷ [];
  clock = 0;
  files = λ pid. if pid == 3 then some (3 ∷ replicate 63 0) else none;
}

-- The page has frame 0.
abbrev with_page : Server
with_page = record with_process {
  memory = record with_process.memory {
    frames = true ∷ replicate 3 false;
    tables_lvl_2 =
        tables
          (record { frame = 0; present = true; use_bit = true; modified = false } ∷ empty_row ∷ []);
  };
}

abbrev ask_process : Bytes
ask_process = enviar_stream op_memory_init (operandos_to_stream (record { op1 = 3; op2 = 64 }))

abbrev ask_frame : Bytes
ask_frame = enviar_stream op_frame (request_stream 3 (record { op1 = 0; op2 = 0 }))

process_served :
    routine heap settings (on_init_memory settings nothing) ask_process
    ≡ Round.served (answer op_memory_init 0) with_process []
unfolding routine on_init_memory enviar_stream operandos_to_stream put_u32 get_u32 package_serialize
    recibir_operacion recibir_buffer recv receive_stream takes_stream handle received
    kernel_controller_memory_init operandos_from_stream memory_init new_swap_data create_file
    ftruncate store_bytes put_file overwrite create_new_process create_lvl2_tables create_table
    find_id null_from put_table new_page_table_lvl2 print_tables big_rows get_table answer
process_served = refl

frame_served : routine heap settings with_process ask_frame ≡ Round.served (put_u32 0) with_page []
unfolding routine enviar_stream request_stream operandos_to_stream put_u32 get_u32 package_serialize
    recibir_operacion recibir_buffer recv receive_stream takes_stream handle handle_cpu received
    cpu_controller_send_frame operandos_from_stream obtain_frame get_table find_free_frame free_from
    make_room should_replace_frame get_table_lvl1_number table_1_from lists create_big_table
    big_rows count_present count_rows assign_frame create_frame_for_table create_from
frame_served = refl

Reach-IsIsolated_example : IsIsolated with_page.memory
Reach-IsIsolated_example = Reach-IsIsolated {c = settings} {left = nothing} {s = with_page} (
    served heap ask_frame (put_u32 0) []
      (served heap ask_process (answer op_memory_init 0) [] started process_served) frame_served)
