-- ===== src/Memory/Link/Word.antt =====
-- A word that the CPU writes through the link and reads back.
use os_sski.Common.{
  ℕ, ◌+◌, ◌<◌, ◌≤◌, ◌≡◌, ◌≢◌, ◌⊎◌, refl, Bool, ap, ◌∙◌, true, false, Option, some, [], arith,
  u32_mod, uint32_max, ◌>>=◌, append-nil, length, ◌==◌,
}
use os_sski.Wire.Word.{Bytes, put_u32, get_u32, get_u32-put_u32_small, length-put_u32}
use os_sski.Wire.Opcode.{op_rd, op_wt}
use os_sski.Wire.Operands.{
  Operands, IsWords, request_stream, receive_operands, receive_operands-request_stream,
}
use os_sski.Wire.Package.{
  Package, package_serialize, conexion_recibir_stream, conexion_recibir_stream-serialize,
}
use os_sski.Wire.Pcb.{Heap}
use os_sski.Cpu.Client.{request_read, request_write}
use os_sski.Memory.Process.{Memory}
use os_sski.Memory.Store.{
  read_from_memory, write_in_memory, read_from_memory-write_in_memory, length-write_in_memory,
}
use os_sski.Memory.Lookup.{get_table_lvl2_number, get_frame_ref, update_row}
use os_sski.Memory.Lookup.Found.{IsAt, get_frame_ref-IsAt, get_table_lvl2_number-update_row}
use os_sski.Memory.Server.{Settings, Server}
use os_sski.Memory.CpuController.{
  get_frame, with_modified, mark, read_word, write_word, cpu_controller_read, cpu_controller_write,
}
use os_sski.Memory.Routine.{takes_stream, handle, handle_cpu, answer}
use os_sski.Memory.Link.{exchange, exchange-handle, length-request}

-- The address lies in a frame that a table holds, and its word in the main memory.
pub record IsMapped (c : Settings) (s : Server) (address : ℕ) : Type 0 where
  pub in_table : get_table_lvl2_number s.memory (get_frame c address) ≢ uint32_max
  pub in_memory : address + 4 ≤ length s.main_memory
  pub word : address < u32_mod

mark-IsAt :
    (m : Memory) (frame : ℕ) (b : Bool) (ref : ℕ × ℕ)
    → IsAt m frame ref
    → mark m frame b ≡ some (update_row m ref (with_modified b))
unfolding mark
mark-IsAt m frame b ref at = rw at.found

receive_request :
    (pid : ℕ) (o : Operands)
    → pid < u32_mod
    → IsWords o
    → receive_operands (request_stream pid o) ≡ some (pid, o)
receive_request pid o small w =
    rw (append-nil (request_stream pid o)) at (receive_operands-request_stream pid o [] small w)

-- The word of an answer, as the CPU's receiver takes it out.
pub receive-answer :
    (opcode value : ℕ)
    → opcode < u32_mod
    → value < u32_mod
    → (do
      (received, _) ← conexion_recibir_stream (answer opcode value)
      stream ← received
      (value, _) ← get_u32 stream
      some value)
      ≡ some value
unfolding answer put_u32
receive-answer opcode value fits small =
    let p : Package = record { opcode = opcode; stream = put_u32 value } in
    let got : conexion_recibir_stream (package_serialize p) ≡ some (some (put_u32 value), []) =
      rw (append-nil (package_serialize p)) at
        (conexion_recibir_stream-serialize p [] (fits, omega (arith, length-put_u32 value))) in
    let word : get_u32 (put_u32 value) ≡ some (value, []) =
      rw (append-nil (put_u32 value)) at (get_u32-put_u32_small value [] small) in
    rw (got, word)

module _ (c : Settings) (s : Server) (address : ℕ) (mapped : IsMapped c s address) where
  abbrev frame : ℕ
  frame = get_frame c address

  abbrev ref : ℕ × ℕ
  ref = (get_frame_ref-IsAt s.memory frame mapped.in_table).0

  abbrev at : IsAt s.memory frame ref
  at = (get_frame_ref-IsAt s.memory frame mapped.in_table).1

  abbrev with_mark : Bool → Server
  with_mark b = record s { memory = update_row s.memory ref (with_modified b) }

  read_word-mapped :
      (value : ℕ)
      → read_from_memory s.main_memory address ≡ some value
      → read_word c s address ≡ some (value, with_mark false)
  unfolding read_word
  read_word-mapped value read =
      let inside : (get_table_lvl2_number s.memory frame == uint32_max) ≡ false =
        ground (arith, mapped.in_table) in
      rw (inside, mark-IsAt s.memory frame false ref at, read)

  write_word-mapped :
      (value : ℕ) (main : Bytes)
      → write_in_memory s.main_memory address value ≡ some main
      → write_word c s address value ≡ some (record (with_mark true) { main_memory = main })
  unfolding write_word
  write_word-mapped value main wrote =
      let inside : (get_table_lvl2_number s.memory frame == uint32_max) ≡ false =
        ground (arith, mapped.in_table) in
      rw (inside, mark-IsAt s.memory frame true ref at, wrote)

IsMapped-write :
    (c : Settings) (s : Server) (address other : ℕ) (mapped : IsMapped c s address) (main : Bytes)
    → length main ≡ length s.main_memory
    → IsMapped c s other
    → IsMapped c (record (with_mark c s address mapped true) { main_memory = main }) other
IsMapped-write c s address other mapped main same there = record {
  in_table =
      rw
        (get_table_lvl2_number-update_row s.memory (frame c s address mapped)
          (ref c s address mapped) (at c s address mapped) (with_modified true) (get_frame c other)
          refl)
        there.in_table;
  in_memory = omega (arith, there.in_memory, same);
  word = there.word;
}

module _ (heap : Heap) (c : Settings) where
  request_write-mapped :
      (s : Server) (pid address value : ℕ) (main : Bytes) (mapped : IsMapped c s address)
      → pid < u32_mod
      → value < u32_mod
      → write_in_memory s.main_memory address value ≡ some main
      → request_write (exchange heap c) (some s) pid address value
        ≡ some (record (with_mark c s address mapped true) { main_memory = main })
  unfolding request_write handle handle_cpu cpu_controller_write takes_stream
  request_write-mapped s pid address value main mapped pid_small small wrote =
      let o : Operands = record { op1 = address; op2 = value } in
      let s' : Server = record (with_mark c s address mapped true) { main_memory = main } in
      let whole =
        receive_request pid o pid_small (record { op1_small = mapped.word; op2_small = small }) in
      let done : handle heap c s op_wt (some (request_stream pid o)) ≡ some ([], s') =
        rw (whole, write_word-mapped c s address mapped value main wrote) in
      ap (λ (x : Bytes × Option Server). x.1)
        (exchange-handle heap c s s' op_wt (request_stream pid o) [] refl
          (λ e. absurd (omega (arith, e))) (omega arith) (omega (arith, length-request pid o)) done)

  request_read-mapped :
      (s : Server) (pid address value : ℕ) (mapped : IsMapped c s address)
      → pid < u32_mod
      → value < u32_mod
      → read_from_memory s.main_memory address ≡ some value
      → request_read (exchange heap c) (some s) pid address
        ≡ (some value, some (with_mark c s address mapped false))
  unfolding request_read handle handle_cpu cpu_controller_read takes_stream
  request_read-mapped s pid address value mapped pid_small small read =
      let o : Operands = record { op1 = address; op2 = pid } in
      let s' : Server = with_mark c s address mapped false in
      let whole =
        receive_request pid o pid_small
          (record { op1_small = mapped.word; op2_small = pid_small }) in
      let done : handle heap c s op_rd (some (request_stream pid o))
          ≡ some (answer op_rd value, s') =
        rw (whole, read_word-mapped c s address mapped value read) in
      rw (
        exchange-handle heap c s s' op_rd (request_stream pid o) (answer op_rd value) refl
            (λ e. absurd (omega (arith, e))) (omega arith) (omega (arith, length-request pid o))
            done,
        receive-answer op_rd value (omega arith) small,
      )

  -- A word that the CPU writes through its connection, at an address that lies in the main memory and in
  -- a frame that some table holds, marks the frame's page modified and comes back when the CPU reads that
  -- address; any other such address that does not overlap it reads the word it had. A read clears the
  -- mark again.
  pub request_read-request_write :
      (s : Server) (pid address value : ℕ) (mapped : IsMapped c s address)
      → pid < u32_mod
      → value < u32_mod
      → (s' : Server) × (request_write (exchange heap c) (some s) pid address value ≡ some s')
        × ((at : ℕ × ℕ) × (get_frame_ref s.memory (get_frame c address) ≡ some (some at))
            × (s'.memory ≡ update_row s.memory at (with_modified true)))
        × ((s'' : Server) × (request_read (exchange heap c) (some s') pid address
              ≡ (some value, some s''))
            × (at' : ℕ × ℕ) × (s''.memory ≡ update_row s'.memory at' (with_modified false))
            × (get_frame_ref s'.memory (get_frame c address) ≡ some (some at')))
        × ((other word : ℕ)
            → IsMapped c s other
            → (other + 4 ≤ address) ⊎ (address + 4 ≤ other)
            → read_from_memory s.main_memory other ≡ some word
            → word < u32_mod
            → (request_read (exchange heap c) (some s') pid other).0 ≡ some word)
  request_read-request_write s pid address value mapped pid_small small =
      let (main, wrote, back, apart) =
        read_from_memory-write_in_memory s.main_memory address value mapped.in_memory small in
      let s' : Server = record (with_mark c s address mapped true) { main_memory = main } in
      let same = length-write_in_memory s.main_memory main address value wrote in
      let mapped' = IsMapped-write c s address address mapped main same mapped in
      (
        s',
        request_write-mapped s pid address value main mapped pid_small small wrote,
        (ref c s address mapped, (at c s address mapped).found, refl),
        (
          with_mark c s' address mapped' false,
          request_read-mapped s' pid address value mapped' pid_small small back,
          ref c s' address mapped',
          refl,
          (at c s' address mapped').found,
        ),
        λ other word there clear had fits.
            ap (λ (x : Option ℕ × Option Server). x.0)
              (request_read-mapped s' pid other word
                (IsMapped-write c s address other mapped main same there) pid_small fits
                (apart other clear ∙ had)),
      )
