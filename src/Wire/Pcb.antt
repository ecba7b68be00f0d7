-- ===== src/Wire/Pcb.antt =====
-- lib/src/modules/pcb.c: the process control block, its stream and the stream's size.
pub mod Stream
pub mod Sizes
use os_sski.Common.{
  ℕ, ◌+◌, ◌*◌, ◌<◌, ◌≡◌, refl, Bool, Option, some, List, ◌++◌, [], arith, u32_mod, uint32_max,
  ◌>>=◌, length, leb, ◌==◌, if◌then◌else◌,
}
use os_sski.Wire.Word.{Bytes, put_u32, get_u32}
use os_sski.Wire.Instruction.{
  Instruction, instructions_stream, instruction_list_from, AllInstructions,
}

-- `enum Status`; `corrupted` stands for any other value of the enum's word.
pub data PcbStatus : Type 0 where
  unset pcb_new pcb_ready pcb_executing pcb_suspended_ready : PcbStatus
  pcb_blocked pcb_suspended_blocked pcb_terminated : PcbStatus
  corrupted : ℕ → PcbStatus

unfoldable pub status_code : PcbStatus → ℕ
status_code PcbStatus.unset = uint32_max
status_code PcbStatus.pcb_new = 0
status_code PcbStatus.pcb_ready = 1
status_code PcbStatus.pcb_executing = 2
status_code PcbStatus.pcb_suspended_ready = 3
status_code PcbStatus.pcb_blocked = 4
status_code PcbStatus.pcb_suspended_blocked = 5
status_code PcbStatus.pcb_terminated = 6
status_code (PcbStatus.corrupted n) = n

unfoldable pub status_of_code : ℕ → PcbStatus
status_of_code n =
    if n == 0
    then PcbStatus.pcb_new
    else if n == 1
    then PcbStatus.pcb_ready
    else if n == 2
    then PcbStatus.pcb_executing
    else if n == 3
    then PcbStatus.pcb_suspended_ready
    else if n == 4
    then PcbStatus.pcb_blocked
    else if n == 5
    then PcbStatus.pcb_suspended_blocked
    else if n == 6
    then PcbStatus.pcb_terminated
    else if n == uint32_max
    then PcbStatus.unset
    else PcbStatus.corrupted n

pub record Pcb : Type 0 where
  pub id : ℕ
  pub status : PcbStatus
  pub size : ℕ
  pub instructions : List Instruction
  pub page_table : ℕ
  pub estimation : ℕ
  pub pc : ℕ
  pub io : ℕ
  pub real : ℕ

unfoldable pub new_pcb : ℕ → ℕ → ℕ → Pcb
new_pcb id size estimation = record {
  id = id;
  status = PcbStatus.unset;
  size = size;
  instructions = [];
  page_table = uint32_max;
  estimation = estimation;
  pc = 0;
  io = 0;
  real = 0;
}

-- The comparator of the shortest-remaining-time order.
unfoldable pub pcb_sort_by_estimation : Pcb → Pcb → Bool
pcb_sort_by_estimation e1 e2 = leb e1.estimation e2.estimation

unfoldable pub pcb_bytes_size : Pcb → ℕ
pcb_bytes_size pcb = 4 * 5 + 4 + 4 + 12 * length pcb.instructions

-- ID | STATUS | SIZE | ESTIMATION | PC | LVL1 table | count | instructions. Of the eight bytes of
-- `size` the first four are copied.
unfoldable pub pcb_to_stream : Pcb → Bytes
pcb_to_stream pcb =
    put_u32 pcb.id
    ++ (put_u32 (status_code pcb.status)
        ++ (put_u32 pcb.size
            ++ (put_u32 pcb.estimation
                ++ (put_u32 pcb.pc
                    ++ (put_u32 pcb.page_table
                        ++ (put_u32 (length pcb.instructions)
                            ++ instructions_stream pcb.instructions))))))

-- What `malloc` leaves in the fields that `pcb_from_stream` does not write: the upper half of
-- `size`, `io` and `real`.
pub record Heap : Type 0 where
  pub size_high : ℕ
  pub io : ℕ
  pub real : ℕ

unfoldable pub pcb_from_stream : Heap → Bytes → Option Pcb
pcb_from_stream heap stream = do
  (id, stream) ← get_u32 stream
  (status, stream) ← get_u32 stream
  (size, stream) ← get_u32 stream
  (estimation, stream) ← get_u32 stream
  (pc, stream) ← get_u32 stream
  (page_table, stream) ← get_u32 stream
  instructions ← instruction_list_from stream
  some (record {
    id = id;
    status = status_of_code status;
    size = size + u32_mod * heap.size_high;
    instructions = instructions;
    page_table = page_table;
    estimation = estimation;
    pc = pc;
    io = heap.io;
    real = heap.real;
  })

-- The fields are words, and `corrupted` names no enumerator.
pub record IsPcb (p : Pcb) : Type 0 where
  pub id_small : p.id < u32_mod
  pub status_fits :
      (status_code p.status < u32_mod) × (status_of_code (status_code p.status) ≡ p.status)
  pub size_small : p.size < u32_mod
  pub estimation_small : p.estimation < u32_mod
  pub pc_small : p.pc < u32_mod
  pub page_table_small : p.page_table < u32_mod
  pub count_small : length p.instructions < u32_mod
  pub instructions_fit : AllInstructions p.instructions
