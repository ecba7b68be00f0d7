-- ===== src/Wire/Instruction.antt =====
-- lib/src/instruction/: one instruction in twelve bytes, and a counted list of them.
use os_sski.Common.{
  ℕ, zero, suc, ◌+◌, ◌*◌, ◌<◌, ◌≡◌, refl, Option, some, List, [], ◌∷◌, ◌++◌, arith, u32_mod, ◌>>=◌,
  append_assoc, length, length-append,
}
use os_sski.Wire.Word.{Bytes, put_u32, get_u32, get_u32-put_u32_small, length-put_u32}

-- `enum InstructionCode`: a code is the word that the enumerator stands for.
abbrev pub c_request_exit : ℕ
c_request_exit = 0

abbrev pub c_request_read : ℕ
c_request_read = 1

abbrev pub c_request_write : ℕ
c_request_write = 2

abbrev pub c_request_no_op : ℕ
c_request_no_op = 3

abbrev pub c_request_io : ℕ
c_request_io = 4

abbrev pub c_request_copy : ℕ
c_request_copy = 5

pub record Instruction : Type 0 where
  pub icode : ℕ
  pub param0 : ℕ
  pub param1 : ℕ

pub record IsInstruction (i : Instruction) : Type 0 where
  pub icode_small : i.icode < u32_mod
  pub param0_small : i.param0 < u32_mod
  pub param1_small : i.param1 < u32_mod

abbrev pub AllInstructions : List Instruction → Type 0
AllInstructions [] = Unit
AllInstructions (i ∷ is) = IsInstruction i × AllInstructions is

unfoldable pub instruction_to_stream : Instruction → Bytes
instruction_to_stream i = put_u32 i.icode ++ (put_u32 i.param0 ++ put_u32 i.param1)

-- The instruction and what stands behind it.
unfoldable pub instruction_from_stream : Bytes → Option (Instruction × Bytes)
instruction_from_stream stream = do
  (icode, stream) ← get_u32 stream
  (param0, stream) ← get_u32 stream
  (param1, stream) ← get_u32 stream
  some (record { icode = icode; param0 = param0; param1 = param1 }, stream)

pub instruction_from-to_stream :
    (i : Instruction) (rest : Bytes)
    → IsInstruction i
    → instruction_from_stream (instruction_to_stream i ++ rest) ≡ some (i, rest)
unfolding instruction_from_stream instruction_to_stream
instruction_from-to_stream i rest w = rw (
  append_assoc (put_u32 i.icode) (put_u32 i.param0 ++ put_u32 i.param1) rest,
  append_assoc (put_u32 i.param0) (put_u32 i.param1) rest,
  get_u32-put_u32_small i.icode _ w.icode_small,
  get_u32-put_u32_small i.param0 _ w.param0_small,
  get_u32-put_u32_small i.param1 _ w.param1_small,
)

pub length-instruction_to_stream : (i : Instruction) → length (instruction_to_stream i) ≡ 12
unfolding instruction_to_stream put_u32
length-instruction_to_stream i = refl

-- The instructions one after the other, as the loop and the reducer copy them.
unfoldable pub instructions_stream : List Instruction → Bytes
instructions_stream [] = []
instructions_stream (i ∷ is) = instruction_to_stream i ++ instructions_stream is

-- The count, then the instructions.
unfoldable pub instructions_fold : List Instruction → Bytes
instructions_fold is = put_u32 (length is) ++ instructions_stream is

-- for (i = 0; i < size; i++)
unfoldable pub read_instructions : ℕ → Bytes → Option (List Instruction)
read_instructions zero stream = some []
read_instructions (suc n) stream = do
  (i, stream) ← instruction_from_stream stream
  is ← read_instructions n stream
  some (i ∷ is)

unfoldable pub instruction_list_from : Bytes → Option (List Instruction)
instruction_list_from stream = do (size, stream) ← get_u32 stream; read_instructions size stream

read_instructions-stream :
    (is : List Instruction) (rest : Bytes)
    → AllInstructions is
    → read_instructions (length is) (instructions_stream is ++ rest) ≡ some is
unfolding read_instructions instructions_stream
read_instructions-stream [] rest w = refl
read_instructions-stream (i ∷ is) rest w = rw (
  append_assoc (instruction_to_stream i) (instructions_stream is) rest,
  instruction_from-to_stream i (instructions_stream is ++ rest) w.0,
  read_instructions-stream is rest w.1,
)

-- A program that the console folds into a stream is the program that the kernel reads, whatever
-- follows, when its fields and its length are words.
pub instruction_list_from-fold :
    (is : List Instruction) (rest : Bytes)
    → AllInstructions is
    → length is < u32_mod
    → instruction_list_from (instructions_fold is ++ rest) ≡ some is
unfolding instruction_list_from instructions_fold
instruction_list_from-fold is rest w small = rw (
  append_assoc (put_u32 (length is)) (instructions_stream is) rest,
  get_u32-put_u32_small (length is) _ small,
  read_instructions-stream is rest w,
)

length-instructions_stream :
    (is : List Instruction) → length (instructions_stream is) ≡ 12 * length is
unfolding instructions_stream
length-instructions_stream [] = refl
length-instructions_stream (i ∷ is) = omega (
  arith,
  length-append (instruction_to_stream i) (instructions_stream is),
  length-instruction_to_stream i,
  length-instructions_stream is,
)

-- The stream takes four bytes, and twelve for each instruction.
pub length-instructions_fold :
    (is : List Instruction) → length (instructions_fold is) ≡ 4 + 12 * length is
unfolding instructions_fold
length-instructions_fold is = omega (
  arith,
  length-append (put_u32 (length is)) (instructions_stream is),
  length-put_u32 (length is),
  length-instructions_stream is,
)
