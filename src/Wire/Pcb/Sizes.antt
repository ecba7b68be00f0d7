-- ===== src/Wire/Pcb/Sizes.antt =====
-- The stream of a block has the size that `pcb_bytes_size` tells the sender, so what the CPU puts
-- behind it is found again by the kernel.
use os_sski.Common.{
  ℕ, ◌+◌, ◌≡◌, ◌<◌, refl, Option, some, ◌++◌, arith, u32_mod, ◌>>=◌, append_assoc, [], ◌∷◌, length,
  length-append, drop,
}
use os_sski.Wire.Word.{Bytes, put_u32, get_u32, length-put_u32, get_u32-put_u32_small}
use os_sski.Wire.Instruction.{instructions_fold, length-instructions_fold}
use os_sski.Wire.Pcb.{Pcb, IsPcb, Heap, status_code, pcb_to_stream, pcb_from_stream, pcb_bytes_size}
use os_sski.Wire.Pcb.Stream.{recovered, pcb_from-to_stream}

length-put_u32-append : (n : ℕ) (s : Bytes) → length (put_u32 n ++ s) ≡ 4 + length s
length-put_u32-append n s = omega (arith, length-append (put_u32 n) s, length-put_u32 n)

-- A process's stream has exactly as many bytes as `pcb_bytes_size` allocates and announces.
pub length-pcb_to_stream : (p : Pcb) → length (pcb_to_stream p) ≡ pcb_bytes_size p
unfolding pcb_to_stream pcb_bytes_size instructions_fold
length-pcb_to_stream p =
    rw
      (
        length-put_u32-append p.id _,
        length-put_u32-append (status_code p.status) _,
        length-put_u32-append p.size _,
        length-put_u32-append p.estimation _,
        length-put_u32-append p.pc _,
        length-put_u32-append p.page_table _,
      )
      (omega (arith, length-instructions_fold p.instructions))

-- cpu: the body of `return_pcb`, the block with its I/O time behind it.
unfoldable pub return_stream : Pcb → ℕ → Bytes
return_stream p time = pcb_to_stream p ++ put_u32 time

-- kernel: the body of `cpu_controller_receive_pcb`, which looks for the time where the block ends.
unfoldable pub receive_pcb_stream : Heap → Bytes → Option (Pcb × ℕ)
receive_pcb_stream heap stream = do
  pcb ← pcb_from_stream heap stream
  (io_time, _) ← get_u32 (drop (pcb_bytes_size pcb) stream)
  some (pcb, io_time)

drop-append : (xs ys : Bytes) → drop (length xs) (xs ++ ys) ≡ ys
drop-append [] ys = refl
drop-append (x ∷ xs) ys = drop-append xs ys

drop-append_of_length : {n : ℕ} (xs ys : Bytes) → length xs ≡ n → drop n (xs ++ ys) ≡ ys
drop-append_of_length xs ys e = rw (← e) (drop-append xs ys)

-- The kernel recovers from what the CPU returns the process and its I/O time, whatever follows in the
-- stream, for a process whose fields are words; the upper half of the size, `io` and `real` come from
-- the allocated block instead.
pub receive_pcb_stream-return :
    (heap : Heap) (p : Pcb) (time : ℕ) (rest : Bytes)
    → IsPcb p
    → time < u32_mod
    → receive_pcb_stream heap (return_stream p time ++ rest) ≡ some (recovered heap p, time)
unfolding receive_pcb_stream return_stream pcb_bytes_size
receive_pcb_stream-return heap p time rest w small = rw (
  append_assoc (pcb_to_stream p) (put_u32 time) rest,
  pcb_from-to_stream heap p (put_u32 time ++ rest) w,
  drop-append_of_length (pcb_to_stream p) (put_u32 time ++ rest) (length-pcb_to_stream p),
  get_u32-put_u32_small time rest small,
)
