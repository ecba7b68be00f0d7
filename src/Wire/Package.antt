-- ===== src/Wire/Package.antt =====
-- lib/src/connection/package.c, and the two receivers: server.c's, after the operation code has been
-- read, and conexion.c's. A socket is the list of bytes that will still arrive; `recv` with
-- MSG_WAITALL waits for all, and a connection that ends too early is `none`.
use os_sski.Common.{
  ℕ, zero, suc, ◌+◌, ◌<◌, ◌≡◌, refl, Option, none, some, [], ◌∷◌, ◌++◌, arith, u32_mod, ◌>>=◌,
  append_assoc, length, length-append, if◌then◌else◌, ◌==◌,
}
use os_sski.Wire.Word.{Bytes, put_u32, get_u32, get_u32-put_u32_small, length-put_u32}

pub record Package : Type 0 where
  pub opcode : ℕ
  pub stream : Bytes

abbrev pub IsPackage : Package → Type 0
IsPackage p = (p.opcode < u32_mod) × (length p.stream < u32_mod)

unfoldable pub package_get_real_size : Package → ℕ
package_get_real_size p = length p.stream + 4 + 4

unfoldable pub package_serialize : Package → Bytes
package_serialize p = put_u32 p.opcode ++ (put_u32 (length p.stream) ++ p.stream)

-- conexion_enviar_stream, servidor_enviar_stream
unfoldable pub enviar_stream : ℕ → Bytes → Bytes
unfolding package_serialize
enviar_stream opcode stream = package_serialize (record { opcode = opcode; stream = stream })

-- recv(socket, buffer, n, MSG_WAITALL)
unfoldable pub recv : ℕ → Bytes → Option (Bytes × Bytes)
recv zero socket = some ([], socket)
recv (suc n) [] = none
recv (suc n) (b ∷ socket) = do (got, socket) ← recv n socket; some (b ∷ got, socket)

unfoldable pub recibir_operacion : Bytes → Option (ℕ × Bytes)
recibir_operacion socket = get_u32 socket

unfoldable pub recibir_buffer : Bytes → Option (Bytes × Bytes)
recibir_buffer socket = do (size, socket) ← get_u32 socket; recv size socket

-- The outcome of the client's receiver: the payload, or `null` for an empty one.
unfoldable pub conexion_recibir_stream : Bytes → Option (Option Bytes × Bytes)
conexion_recibir_stream socket = do
  (opcode, socket) ← get_u32 socket
  (size, socket) ← get_u32 socket
  if size == 0
      then some (none, socket)
      else do (got, socket) ← recv size socket; some (some got, socket)

recv-append : (xs rest : Bytes) → recv (length xs) (xs ++ rest) ≡ some (xs, rest)
unfolding recv
recv-append [] rest = refl
recv-append (x ∷ xs) rest = rw (recv-append xs rest)

-- The bytes sent are as many as are claimed.
pub length-package_serialize :
    (p : Package) → length (package_serialize p) ≡ package_get_real_size p
unfolding package_serialize package_get_real_size
length-package_serialize p = omega (
  arith,
  length-append (put_u32 p.opcode) (put_u32 (length p.stream) ++ p.stream),
  length-append (put_u32 (length p.stream)) p.stream,
  length-put_u32 p.opcode,
  length-put_u32 (length p.stream),
)

-- A client receives the payload of a package whose code and size are words, and leaves what follows
-- on the socket; for an empty payload it gets the null pointer.
pub conexion_recibir_stream-serialize :
    (p : Package) (rest : Bytes)
    → IsPackage p
    → conexion_recibir_stream (package_serialize p ++ rest)
      ≡ some (if length p.stream == 0 then none else some p.stream, rest)
unfolding conexion_recibir_stream package_serialize
conexion_recibir_stream-serialize p rest w =
    rw
      (
        append_assoc (put_u32 p.opcode) (put_u32 (length p.stream) ++ p.stream) rest,
        append_assoc (put_u32 (length p.stream)) p.stream rest,
        get_u32-put_u32_small p.opcode _ w.0,
        get_u32-put_u32_small (length p.stream) _ w.1,
      )
      (nonempty p.stream rest)
  where
    nonempty :
        (xs rest : Bytes)
        → ◌≡◌ {A = Option (Option Bytes × Bytes)}
            (if length xs == 0
              then some (none, xs ++ rest)
              else do (got, socket) ← recv (length xs) (xs ++ rest); some (some got, socket))
            (some (if length xs == 0 then none else some xs, rest))
    nonempty [] rest = refl
    nonempty (x ∷ xs) rest = rw (recv-append (x ∷ xs) rest) (ground arith)

-- The two reads of a server, one after the other: the operation code, then the buffer.
pub recibir_buffer-package_serialize :
    (p : Package) (rest : Bytes)
    → IsPackage p
    → (socket : Bytes) × (recibir_operacion (package_serialize p ++ rest) ≡ some (p.opcode, socket))
      × (recibir_buffer socket ≡ some (p.stream, rest))
unfolding package_serialize recibir_operacion recibir_buffer
recibir_buffer-package_serialize p rest w = (
  put_u32 (length p.stream) ++ (p.stream ++ rest),
  rw (
    append_assoc (put_u32 p.opcode) (put_u32 (length p.stream) ++ p.stream) rest,
    append_assoc (put_u32 (length p.stream)) p.stream rest,
    get_u32-put_u32_small p.opcode _ w.0,
  ),
  rw (get_u32-put_u32_small (length p.stream) (p.stream ++ rest) w.1, recv-append p.stream rest),
)
