-- ===== src/Memory/Isolation/Reach.antt =====
-- The memory module from its start on, one request of some client after the other.
use os_sski.Common.{
  ℕ, ◌^◌, ◌≡◌, inl, inr, Option, none, some, arith, >>=-eq-some, leb, ◌==◌, ◌||◌, Option-cases,
  Bool-cases,
}
use os_sski.Wire.Word.{Bytes, get_u32}
use os_sski.Wire.Opcode.{
  op_rd, op_swap_pcb, op_retrieve_swapped_pcb, op_wt, op_sz, op_entries, op_frame, op_snd_page,
  op_memory_init, op_process_terminated,
}
use os_sski.Wire.Operands.{operandos_from_stream, receive_operands}
use os_sski.Wire.Package.{recibir_operacion}
use os_sski.Wire.Pcb.{Heap}
use os_sski.Memory.Process.{get_table}
use os_sski.Memory.Server.{Settings, Server, on_init_memory}
use os_sski.Memory.CpuController.{
  cpu_controller_read, cpu_controller_write, cpu_controller_send_frame,
  cpu_controller_send_page_second_level,
}
use os_sski.Memory.KernelController.{
  kernel_controller_swap, kernel_controller_read_swap, kernel_controller_destroy_process_file,
  memory_init, kernel_controller_memory_init,
}
use os_sski.Memory.Routine.{Round, received, handle_cpu, handle, receive_stream, routine}
use os_sski.Memory.Isolation.{IsIsolated, IsIsolated-IsKept}
use os_sski.Memory.Isolation.Keeps.{unswap_pcb-IsKept}
use os_sski.Memory.Isolation.Requests.{
  same_memory, read_word-IsIsolated, write_word-IsIsolated, memory_init-IsIsolated, swap-IsIsolated,
  destroy-IsIsolated, send_frame-IsIsolated,
}
use os_sski.Memory.Isolation.{frame_at}

-- The states that rounds of clients lead to; between two rounds any client may be next. A stream may be
-- recovered with any contents of the fields that it does not carry.
pub data Reach (c : Settings) (left : ℕ → Option Bytes) : Server → Type 0 where
  started : Reach c left (on_init_memory c left)
  served :
      {s s' : Server} (heap : Heap) (socket answers rest : Bytes)
      → Reach c left s
      → routine heap c s socket ≡ Round.served answers s' rest
      → Reach c left s'

module _ (heap : Heap) (c : Settings) (s : Server) (w : IsIsolated s.memory) where
  same_answer :
      (answers answers' : Bytes) (s1 s' : Server)
      → IsIsolated s1.memory
      → ◌≡◌ {A = Option (Bytes × Server)} (some (answers, s1)) (some (answers', s'))
      → IsIsolated s'.memory
  same_answer answers answers' s1 s' w1 h = let same : s1 ≡ s' = ground (arith, h) in rw same at w1

  cpu-IsIsolated :
      (opcode : ℕ) (stream : Option Bytes) (answers : Bytes) (s' : Server)
      → handle_cpu c s opcode stream ≡ some (answers, s')
      → IsIsolated s'.memory
  unfolding handle_cpu cpu_controller_read cpu_controller_write
  cpu-IsIsolated opcode stream answers s' h = elim (Bool-cases (opcode == op_rd)) [
    | inl is_rd ↦
        let (bytes, _, h) = >>=-eq-some stream _ (rw is_rd at h) in
        let ((value, s1), done, h) = >>=-eq-some (cpu_controller_read c s bytes) _ h in
        let ((pid, o), _, done) = >>=-eq-some (receive_operands bytes) _ done in
        same_answer _ answers s1 s' (read_word-IsIsolated c s w o.op1 value s1 done) h
    | inr not_rd ↦ elim (Bool-cases (opcode == op_wt)) [
      | inl is_wt ↦
          let (bytes, _, h) = >>=-eq-some stream _ (rw (not_rd, is_wt) at h) in
          let (s1, done, h) = >>=-eq-some (cpu_controller_write c s bytes) _ h in
          let ((pid, o), _, done) = >>=-eq-some (receive_operands bytes) _ done in
          same_answer _ answers s1 s' (write_word-IsIsolated c s w o.op1 o.op2 s1 done) h
      | inr not_wt ↦ elim (Bool-cases (opcode == op_sz)) [
        | inl is_sz ↦ same_answer _ answers s s' w (rw (not_rd, not_wt, is_sz) at h)
        | inr not_sz ↦ elim (Bool-cases (opcode == op_entries)) [
          | inl is_entries ↦
              same_answer _ answers s s' w (rw (not_rd, not_wt, not_sz, is_entries) at h)
          | inr not_entries ↦ elim (Bool-cases (opcode == op_frame)) [
            | inl is_frame ↦
                let ((frame, s1), done, h) =
                  >>=-eq-some (cpu_controller_send_frame c s (received stream)) _
                    (rw (not_rd, not_wt, not_sz, not_entries, is_frame) at h) in
                same_answer _ answers s1 s'
                  (send_frame-IsIsolated c s w (received stream) frame s1 done) h
            | inr not_frame ↦ elim (Bool-cases (opcode == op_snd_page)) [
              | inl is_page ↦
                  let (id, _, h) =
                    >>=-eq-some (cpu_controller_send_page_second_level s (received stream)) _
                      (rw (not_rd, not_wt, not_sz, not_entries, not_frame, is_page) at h) in
                  same_answer _ answers s s' w h
              | inr not_page ↦
                  same_answer _ answers s s' w
                    (rw (not_rd, not_wt, not_sz, not_entries, not_frame, not_page) at h)
            ]
          ]
        ]
      ]
    ]
  ]

  init-IsIsolated :
      (stream : Option Bytes) (id : Option ℕ) (s' : Server)
      → kernel_controller_memory_init c s stream ≡ some (id, s')
      → IsIsolated s'.memory
  unfolding kernel_controller_memory_init
  init-IsIsolated none id s' h = same_memory s s' w (ground (arith, h))
  init-IsIsolated (some stream) id s' h =
      let (o, _, h) = >>=-eq-some (operandos_from_stream stream) _ h in
      let ((table, s1), done, h) = >>=-eq-some (memory_init c s o.op1 o.op2) _ h in
      same_memory s1 s' (memory_init-IsIsolated c s w o.op1 o.op2 table s1 done) (ground (arith, h))

  handle-IsIsolated :
      (opcode : ℕ) (stream : Option Bytes) (answers : Bytes) (s' : Server)
      → handle heap c s opcode stream ≡ some (answers, s')
      → IsIsolated s'.memory
  unfolding handle kernel_controller_read_swap
  handle-IsIsolated opcode stream answers s' h = elim (Bool-cases (opcode == op_memory_init)) [
    | inl is_init ↦
        let ((id, s1), done, h) =
          >>=-eq-some (kernel_controller_memory_init c s (received stream)) _ (rw is_init at h) in
        same_answer _ answers s1 s' (init-IsIsolated (received stream) id s1 done) h
    | inr not_init ↦ elim (Bool-cases (opcode == op_process_terminated)) [
      | inl is_end ↦
          let (bytes, _, h) = >>=-eq-some stream _ (rw (not_init, is_end) at h) in
          let (s1, done, h) = >>=-eq-some (kernel_controller_destroy_process_file s bytes) _ h in
          same_answer _ answers s1 s' (destroy-IsIsolated c s w bytes s1 done) h
      | inr not_end ↦ elim (Bool-cases (opcode == op_swap_pcb)) [
        | inl is_swap ↦
            let (bytes, _, h) = >>=-eq-some stream _ (rw (not_init, not_end, is_swap) at h) in
            let (s1, done, h) = >>=-eq-some (kernel_controller_swap heap c s bytes) _ h in
            same_answer _ answers s1 s' (swap-IsIsolated c s w heap bytes s1 done) h
        | inr not_swap ↦ elim (Bool-cases (opcode == op_retrieve_swapped_pcb)) [
          | inl is_back ↦
              let (bytes, _, h) =
                >>=-eq-some stream _ (rw (not_init, not_end, not_swap, is_back) at h) in
              let (s1, done, h) = >>=-eq-some (kernel_controller_read_swap c s bytes) _ h in
              let ((pid, rest), _, done) = >>=-eq-some (get_u32 bytes) _ done in
              same_answer _ answers s1 s'
                (IsIsolated-IsKept s.memory s1.memory (unswap_pcb-IsKept c s s1 pid done) w) h
          | inr not_back ↦
              cpu-IsIsolated opcode stream answers s'
                (rw (not_init, not_end, not_swap, not_back) at h)
        ]
      ]
    ]
  ]

  served-IsIsolated :
      (answers answers' : Bytes) (s1 s' : Server) (rest rest' : Bytes)
      → IsIsolated s1.memory
      → Round.served answers s1 rest ≡ Round.served answers' s' rest'
      → IsIsolated s'.memory
  served-IsIsolated answers answers' s1 s' rest rest' w1 h =
      let same : s1 ≡ s' = ground (arith, h) in rw same at w1

  routine-IsIsolated :
      (socket answers rest : Bytes) (s' : Server)
      → routine heap c s socket ≡ Round.served answers s' rest
      → IsIsolated s'.memory
  unfolding routine
  routine-IsIsolated socket answers rest s' h = elim (Option-cases (recibir_operacion socket)) [
    | inl ended ↦ absurd (ground (arith, rw (ended, routine) at h))
    | inr ((opcode, after), got) ↦
        let h = rw (got, routine) at h in
        elim (Bool-cases (opcode == 0 || leb (2 ^ 31) opcode)) [
          | inl closed ↦ absurd (ground (arith, rw closed at h))
          | inr going ↦
              let h = rw going at h in
              let (stream, socket') = receive_stream opcode after in
              elim (Option-cases (handle heap c s opcode stream)) [
                | inl crashed ↦ absurd (ground (arith, rw crashed at h))
                | inr ((bytes, s1), done) ↦
                    served-IsIsolated bytes answers s1 s' socket' rest
                      (handle-IsIsolated opcode stream bytes s1 done) (rw done at h)
              ]
        ]
  ]

on_init_memory-IsIsolated :
    (c : Settings) (left : ℕ → Option Bytes) → IsIsolated (on_init_memory c left).memory
unfolding on_init_memory frame_at get_table
on_init_memory-IsIsolated c left = record {
  full = λ i fs h. absurd (ground (arith, h));
  taken = λ i j f h ne. absurd (ground (arith, h));
  distinct = λ i j i' j' f h h' ne. absurd (ground (arith, h));
}

-- In every state that the memory module comes to from its start, by requests of any clients in any order,
-- with any streams: every frame that a page has is marked as taken, no two pages of any processes have the
-- same frame, swapped out or not, and every table that is not null has all its rows.
pub Reach-IsIsolated :
    {c : Settings} {left : ℕ → Option Bytes} {s : Server} → Reach c left s → IsIsolated s.memory
Reach-IsIsolated {c = c} {left = left} started = on_init_memory-IsIsolated c left
Reach-IsIsolated {c = c} (served {s = s} {s' = s'} heap socket answers rest before round) =
    routine-IsIsolated heap c s (Reach-IsIsolated before) socket answers rest s' round
