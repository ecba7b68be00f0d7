-- ===== src/Wire/Operands.antt =====
-- lib/src/connection/operands.c and accion.c: two-word messages; and the three-word requests that
-- cpu/src/module/cpu.c puts together and memory/src/server/cpu_controller.c takes apart.
use os_sski.Common.{ℕ, ◌<◌, ◌≡◌, Option, some, ◌++◌, u32_mod, ◌>>=◌, append_assoc}
use os_sski.Wire.Word.{Bytes, put_u32, get_u32, get_u32-put_u32_small}

pub record Operands : Type 0 where
  pub op1 : ℕ
  pub op2 : ℕ

pub record IsWords (o : Operands) : Type 0 where
  pub op1_small : o.op1 < u32_mod
  pub op2_small : o.op2 < u32_mod

unfoldable pub operandos_to_stream : Operands → Bytes
operandos_to_stream o = put_u32 o.op1 ++ put_u32 o.op2

unfoldable pub operandos_from_stream : Bytes → Option Operands
operandos_from_stream stream = do
  (op1, stream) ← get_u32 stream
  (op2, _) ← get_u32 stream
  some (record { op1 = op1; op2 = op2 })

-- What follows in the stream is not read.
pub operandos_from-to_stream :
    (o : Operands) (rest : Bytes)
    → IsWords o
    → operandos_from_stream (operandos_to_stream o ++ rest) ≡ some o
unfolding operandos_from_stream operandos_to_stream
operandos_from-to_stream o rest w = rw (
  append_assoc (put_u32 o.op1) (put_u32 o.op2) rest,
  get_u32-put_u32_small o.op1 _ w.op1_small,
  get_u32-put_u32_small o.op2 _ w.op2_small,
)

pub record Accion : Type 0 where
  pub actioncode : ℕ
  pub param : ℕ

unfoldable pub accion_serializar : Accion → Bytes
accion_serializar a = put_u32 a.actioncode ++ put_u32 a.param

unfoldable pub accion_from_stream : Bytes → Option Accion
accion_from_stream stream = do
  (code, stream) ← get_u32 stream
  (param, _) ← get_u32 stream
  some (record { actioncode = code; param = param })

-- An action that is serialized is recovered.
pub accion_from_stream-serializar :
    (a : Accion) (rest : Bytes)
    → a.actioncode < u32_mod
    → a.param < u32_mod
    → accion_from_stream (accion_serializar a ++ rest) ≡ some a
unfolding accion_from_stream accion_serializar
accion_from_stream-serializar a rest c p = rw (
  append_assoc (put_u32 a.actioncode) (put_u32 a.param) rest,
  get_u32-put_u32_small a.actioncode _ c,
  get_u32-put_u32_small a.param _ p,
)

-- The stream of a READ, WRITE or FRAME request: the process, then the operands.
unfoldable pub request_stream : ℕ → Operands → Bytes
request_stream pid o = put_u32 pid ++ operandos_to_stream o

unfoldable pub receive_operands : Bytes → Option (ℕ × Operands)
receive_operands stream = do
  (pid, stream) ← get_u32 stream
  operands ← operandos_from_stream stream
  some (pid, operands)

-- The memory server finds in a request the process and the operands that the CPU put in, when they
-- are words.
pub receive_operands-request_stream :
    (pid : ℕ) (o : Operands) (rest : Bytes)
    → pid < u32_mod
    → IsWords o
    → receive_operands (request_stream pid o ++ rest) ≡ some (pid, o)
unfolding receive_operands request_stream
receive_operands-request_stream pid o rest small w = rw (
  append_assoc (put_u32 pid) (operandos_to_stream o) rest,
  get_u32-put_u32_small pid _ small,
  operandos_from-to_stream o rest w,
)
