-- ===== src/Wire/Pcb/Stream.antt =====
-- The round trip of a process control block between kernel, CPU and memory.
use os_sski.Common.{◌+◌, ◌*◌, ◌≡◌, some, ◌++◌, u32_mod, append_assoc, length}
use os_sski.Wire.Word.{Bytes, put_u32, get_u32-put_u32_small}
use os_sski.Wire.Instruction.{
  instructions_stream, instructions_fold, instruction_list_from, instruction_list_from-fold,
}
use os_sski.Wire.Pcb.{Pcb, IsPcb, Heap, status_code, pcb_to_stream, pcb_from_stream}

-- The block that a stream is read back as.
abbrev pub recovered : Heap → Pcb → Pcb
recovered heap p = record p {
  size = p.size + u32_mod * heap.size_high;
  io = heap.io;
  real = heap.real;
}

list_from-tail :
    (p : Pcb) (rest : Bytes)
    → IsPcb p
    → instruction_list_from
        (put_u32 (length p.instructions) ++ (instructions_stream p.instructions ++ rest))
      ≡ some p.instructions
unfolding instructions_fold
list_from-tail p rest w =
    rw (← append_assoc (put_u32 (length p.instructions)) (instructions_stream p.instructions) rest)
      (instruction_list_from-fold p.instructions rest w.instructions_fit w.count_small)

-- Every field that the stream carries is recovered, whatever follows in the stream.
pub pcb_from-to_stream :
    (heap : Heap) (p : Pcb) (rest : Bytes)
    → IsPcb p
    → pcb_from_stream heap (pcb_to_stream p ++ rest) ≡ some (recovered heap p)
unfolding pcb_from_stream pcb_to_stream
pcb_from-to_stream heap p rest w = simp append_assoc (
    rw (
      get_u32-put_u32_small p.id _ w.id_small,
      get_u32-put_u32_small (status_code p.status) _ w.status_fits.0,
      get_u32-put_u32_small p.size _ w.size_small,
      get_u32-put_u32_small p.estimation _ w.estimation_small,
      get_u32-put_u32_small p.pc _ w.pc_small,
      get_u32-put_u32_small p.page_table _ w.page_table_small,
      list_from-tail p rest w,
      w.status_fits.1,
    ))
