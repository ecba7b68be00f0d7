-- ===== src/Wire/Opcode.antt =====
-- lib/inc/connection/opcode.h and lib/src/connection/opcode.c: the operation codes that head every
-- package, and their names in the logs.
use Prim.Native.String.{String}
use os_sski.Common.{ℕ, List, [], ◌∷◌, ◌==◌, if◌then◌else◌}

abbrev pub op_dc : ℕ
op_dc = 0

abbrev pub op_msg : ℕ
op_msg = 1

abbrev pub op_pkg : ℕ
op_pkg = 2

abbrev pub op_sys : ℕ
op_sys = 3

abbrev pub op_cmd : ℕ
op_cmd = 4

abbrev pub op_inout : ℕ
op_inout = 5

abbrev pub op_op : ℕ
op_op = 6

abbrev pub op_pcb : ℕ
op_pcb = 7

abbrev pub op_rd : ℕ
op_rd = 8

abbrev pub op_wr : ℕ
op_wr = 9

abbrev pub op_swap_pcb : ℕ
op_swap_pcb = 10

abbrev pub op_retrieve_swapped_pcb : ℕ
op_retrieve_swapped_pcb = 11

abbrev pub op_retrieved_pcb : ℕ
op_retrieved_pcb = 12

abbrev pub op_wt : ℕ
op_wt = 13

abbrev pub op_int : ℕ
op_int = 14

abbrev pub op_sz : ℕ
op_sz = 15

abbrev pub op_entries : ℕ
op_entries = 16

abbrev pub op_frame : ℕ
op_frame = 17

abbrev pub op_snd_page : ℕ
op_snd_page = 18

abbrev pub op_memory_init : ℕ
op_memory_init = 19

abbrev pub op_process_terminated : ℕ
op_process_terminated = 20

-- The cases of the switch, in order.
abbrev opcode_names : List (ℕ × String)
opcode_names =
    (op_dc, "Desconectado")
    ∷ (op_msg, "Mensaje")
    ∷ (op_pkg, "Paquete")
    ∷ (op_sys, "Syscall")
    ∷ (op_cmd, "Instrucción")
    ∷ (op_pcb, "PCB")
    ∷ (op_swap_pcb, "Swap PCB")
    ∷ (op_retrieve_swapped_pcb, "Retrieve Swapped PCB")
    ∷ (op_retrieved_pcb, "Retrieve Swapped PCB response")
    ∷ (op_rd, "Memory Read")
    ∷ (op_int, "Interruption")
    ∷ (op_sz, "Page Size")
    ∷ (op_entries, "Entries per Page")
    ∷ (op_frame, "Frame")
    ∷ (op_snd_page, "Second Level Page")
    ∷ (op_wt, "Memory Write")
    ∷ (op_memory_init, "Init Memory for PCB")
    ∷ []

-- The first case that matches, else the default.
unfoldable case_of : ℕ → List (ℕ × String) → String
case_of opcode [] = "Unrecognized"
case_of opcode (c ∷ cases) =
    let later = case_of opcode cases in if opcode == c.0 then c.1 else later

unfoldable pub opcode_to_string : ℕ → String
unfolding case_of
opcode_to_string opcode = case_of opcode opcode_names
