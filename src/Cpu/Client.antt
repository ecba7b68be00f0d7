-- ===== src/Cpu/Client.antt =====
-- The CPU as a client of the memory module: the requests of cpu/src/module/cpu.c and the handshake of
-- cpu/src/client/conexion_memoria.c, over a link that takes the bytes sent and gives the bytes that
-- come back.
use os_sski.Common.{ℕ, Option, none, some, uint32_max, ◌>>=◌}
use os_sski.Wire.Word.{Bytes, put_u32, get_u32}
use os_sski.Wire.Opcode.{op_sz, op_entries, op_frame, op_snd_page, op_rd, op_wt}
use os_sski.Wire.Operands.{operandos_to_stream, request_stream}
use os_sski.Wire.Package.{enviar_stream, conexion_recibir_stream}
use os_sski.Cpu.Mmu.{MemoryModule, Geometry}

-- connection_receive_value of a word; `none` is the null pointer.
unfoldable pub connection_receive_value : Bytes → Option ℕ
unfolding get_u32
connection_receive_value answers = do (value, _) ← get_u32 answers; some value

abbrev pub valor_invalido : ℕ
valor_invalido = uint32_max

unfoldable pub or_invalid : Option ℕ → ℕ
or_invalid none = valor_invalido
or_invalid (some value) = value

module _ {S : Type 0} (link : S → Bytes → Bytes × S) where
  unfoldable pub request_table_2_entry : S → ℕ → ℕ → ℕ × S
  unfolding enviar_stream operandos_to_stream connection_receive_value or_invalid
  request_table_2_entry s id_lvl_1_table row_index =
      let stream = operandos_to_stream (record { op1 = id_lvl_1_table; op2 = row_index }) in
      let (answers, s) = link s (enviar_stream op_snd_page stream) in
      (or_invalid (connection_receive_value answers), s)

  unfoldable pub request_frame : S → ℕ → ℕ → ℕ → ℕ × S
  unfolding enviar_stream request_stream connection_receive_value or_invalid
  request_frame s pid tabla_segundo_nivel offset =
      let stream = request_stream pid (record { op1 = tabla_segundo_nivel; op2 = offset }) in
      let (answers, s) = link s (enviar_stream op_frame stream) in
      (or_invalid (connection_receive_value answers), s)

  -- The second operand repeats the process. `none`: the null pointer is read.
  unfoldable pub request_read : S → ℕ → ℕ → Option ℕ × S
  unfolding enviar_stream request_stream conexion_recibir_stream get_u32
  request_read s pid physical_address =
      let stream = request_stream pid (record { op1 = physical_address; op2 = pid }) in
      let (answers, s) = link s (enviar_stream op_rd stream) in
      (
        (do
          (received, _) ← conexion_recibir_stream answers
          stream ← received
          (value, _) ← get_u32 stream
          some value),
        s,
      )

  unfoldable pub request_write : S → ℕ → ℕ → ℕ → S
  unfolding enviar_stream request_stream
  request_write s pid physical_address value =
      let stream = request_stream pid (record { op1 = physical_address; op2 = value }) in
      let (answers, s) = link s (enviar_stream op_wt stream) in s

  -- The memory module as the MMU and the instructions use it. A read that is not answered, at which the
  -- CPU crashes, counts as the invalid value.
  unfoldable pub memory_client : MemoryModule S
  unfolding request_table_2_entry request_frame request_read request_write or_invalid
  memory_client = record {
    request_table_2_entry = request_table_2_entry;
    request_frame = request_frame;
    read = λ s pid address. let (value, s) = request_read s pid address in (or_invalid value, s);
    write = request_write;
  }

  -- `some none`: nothing came back for the size, and the CPU goes on without a geometry. `none`: the
  -- null answer for the entries is read.
  unfoldable pub handshake : S → Option (Option Geometry × S)
  unfolding connection_receive_value
  handshake s =
      let (answers, s) = link s (put_u32 op_sz) in
      elim (connection_receive_value answers) [
        | none ↦ some (none, s)
        | some page_size ↦
            let (answers, s) = link s (put_u32 op_entries) in
            do
              entries ← connection_receive_value answers
              some (some (record { page_size = page_size; page_amount_entries = entries }), s)
      ]
