-- ===== src/Memory/Isolation/Requests.antt =====
-- Every request keeps the frames of the pages apart, whoever sends it.
use os_sski.Common.{
  ℕ, ◌≡◌, inl, inr, true, false, Option, none, some, [], ◌∷◌, ◌++◌, arith, >>=-eq-some, uint32_max,
  ◌==◌, Option-cases, Bool-cases,
}
use os_sski.Wire.Word.{Bytes, put_u32, get_u32}
use os_sski.Wire.Operands.{operandos_from_stream}
use os_sski.Wire.Pcb.{Heap, pcb_from_stream, pcb_bytes_size}
use os_sski.Memory.Store.{write_in_memory, read_from_memory}
use os_sski.Memory.Process.{create_new_process, delete_related_tables}
use os_sski.Memory.Lookup.{get_table_lvl2_number}
use os_sski.Memory.Server.{Settings, Server}
use os_sski.Memory.Swap.{
  new_swap_data, ftruncate, put_file, open_file, create_file, store_bytes, load_bytes,
  delete_swap_file,
}
use os_sski.Memory.CpuController.{get_frame, mark, read_word, write_word, cpu_controller_send_frame}
use os_sski.Memory.KernelController.{
  swap_pcb_stream, kernel_controller_swap, print_tables, delete_swapped_pcb,
  kernel_controller_destroy_process_file, memory_init,
}
use os_sski.Memory.Isolation.{IsIsolated, IsIsolated-IsKept}
use os_sski.Memory.Isolation.Keeps.{mark-IsKept}
use os_sski.Memory.Isolation.Fault.{obtain_frame-IsIsolated}
use os_sski.Memory.Isolation.Processes.{
  create_new_process-IsIsolated, delete_related_tables-IsIsolated,
}

pub same_memory :
    (s s' : Server)
    → IsIsolated s.memory
    → ◌≡◌ {A = Option Server} (some s) (some s')
    → IsIsolated s'.memory
same_memory s s' w h = let same : s ≡ s' = ground (arith, h) in rw same at w

module _ (c : Settings) (s : Server) (w : IsIsolated s.memory) where
  pub read_word-IsIsolated :
      (address value : ℕ) (s' : Server)
      → read_word c s address ≡ some (value, s')
      → IsIsolated s'.memory
  unfolding read_word
  read_word-IsIsolated address value s' h =
      elim (Bool-cases (get_table_lvl2_number s.memory (get_frame c address) == uint32_max)) [
        | inl nowhere ↦ same_memory s s' w (ground (arith, rw nowhere at h))
        | inr there ↦
            let h = rw there at h in
            let (memory, marked, h) = >>=-eq-some (mark s.memory (get_frame c address) false) _ h in
            let (value', _, h) = >>=-eq-some (read_from_memory s.main_memory address) _ h in
            same_memory (record s { memory = memory }) s'
              (IsIsolated-IsKept s.memory memory (mark-IsKept s.memory memory _ false marked) w)
              (ground (arith, h))
      ]

  pub write_word-IsIsolated :
      (address value : ℕ) (s' : Server)
      → write_word c s address value ≡ some s'
      → IsIsolated s'.memory
  unfolding write_word
  write_word-IsIsolated address value s' h =
      elim (Bool-cases (get_table_lvl2_number s.memory (get_frame c address) == uint32_max)) [
        | inl nowhere ↦ same_memory s s' w (rw nowhere at h)
        | inr there ↦
            let h = rw there at h in
            let (memory, marked, h) = >>=-eq-some (mark s.memory (get_frame c address) true) _ h in
            let (main, _, h) = >>=-eq-some (write_in_memory s.main_memory address value) _ h in
            same_memory (record s { memory = memory; main_memory = main }) s'
              (IsIsolated-IsKept s.memory memory (mark-IsKept s.memory memory _ true marked) w) h
      ]

  create_file-IsIsolated :
      (s1 s' : Server) (pid size : ℕ)
      → IsIsolated s1.memory
      → create_file c s1 pid size ≡ some s'
      → IsIsolated s'.memory
  unfolding create_file put_file
  create_file-IsIsolated s1 s' pid size w h = elim (Bool-cases (c.opens pid)) [
    | inr closed ↦ same_memory (put_file s1 pid none) s' w (rw (closed, create_file) at h)
    | inl opens ↦ elim (Bool-cases (c.maps size)) [
      | inr fails ↦
          same_memory (put_file s1 pid (some (ftruncate size []))) s' w
            (rw (opens, fails, create_file) at h)
      | inl maps ↦
          let (file, _, h) =
            >>=-eq-some (store_bytes 0 (put_u32 pid) (ftruncate size [])) _
              (rw (opens, maps, create_file) at h) in
          same_memory (put_file s1 pid (some file)) s' w h
    ]
  ]

  pub memory_init-IsIsolated :
      (pid size id : ℕ) (s' : Server)
      → memory_init c s pid size ≡ some (id, s')
      → IsIsolated s'.memory
  unfolding memory_init
  memory_init-IsIsolated pid size id s' h =
      let s1 = record s { swap_data = s.swap_data ++ new_swap_data pid size ∷ [] } in
      let (s2, made, h) = >>=-eq-some (create_file c s1 pid size) _ h in
      let memory = (create_new_process s2.memory).1 in
      let (printed, _, h) =
        >>=-eq-some (print_tables memory.tables_lvl_2 memory.tables_lvl_1) _ h in
      same_memory (record s2 { memory = memory }) s'
        (create_new_process-IsIsolated s2.memory (create_file-IsIsolated s1 s2 pid size w made))
        (ground (arith, h))

  pub swap-IsIsolated :
      (heap : Heap) (stream : Bytes) (s' : Server)
      → kernel_controller_swap heap c s stream ≡ some s'
      → IsIsolated s'.memory
  unfolding kernel_controller_swap swap_pcb_stream put_file
  swap-IsIsolated heap stream s' h =
      let ((saved, s2), swapped, h) = >>=-eq-some (swap_pcb_stream heap c s stream) _ h in
      let (pcb, _, swapped) = >>=-eq-some (pcb_from_stream heap stream) _ swapped in
      let size = pcb_bytes_size pcb in
      same_memory s2 s'
        (elim (Option-cases (open_file c s pcb.id)) [
          | inl closed ↦ same_memory s s2 w (ground (arith, rw closed at swapped))
          | inr (opened, is_open) ↦
              let swapped = rw is_open at swapped in
              let file = ftruncate size opened in
              elim (Bool-cases (c.maps size)) [
                | inr fails ↦
                    same_memory (put_file s pcb.id (some file)) s2 w
                      (ground (arith, rw fails at swapped))
                | inl maps ↦
                    let swapped = rw maps at swapped in
                    let (image, _, swapped) = >>=-eq-some (load_bytes 0 size stream) _ swapped in
                    let (file', _, swapped) = >>=-eq-some (store_bytes 0 image file) _ swapped in
                    same_memory (put_file s pcb.id (some file')) s2 w (ground (arith, swapped))
              ]
        ])
        h

  pub destroy-IsIsolated :
      (stream : Bytes) (s' : Server)
      → kernel_controller_destroy_process_file s stream ≡ some s'
      → IsIsolated s'.memory
  unfolding kernel_controller_destroy_process_file delete_swapped_pcb delete_swap_file put_file
  destroy-IsIsolated stream s' h =
      let ((pcb_id, rest), _, h) = >>=-eq-some (get_u32 stream) _ h in
      let ((table_id, rest'), _, h) = >>=-eq-some (get_u32 rest) _ h in
      let (memory, deleted, h) = >>=-eq-some (delete_related_tables s.memory table_id) _ h in
      let (printed, _, h) =
        >>=-eq-some (print_tables memory.tables_lvl_2 memory.tables_lvl_1) _ h in
      same_memory (delete_swapped_pcb (record s { memory = memory }) pcb_id) s'
        (delete_related_tables-IsIsolated s.memory memory table_id w deleted) h

  pub send_frame-IsIsolated :
      (stream : Option Bytes) (frame : ℕ) (s' : Server)
      → cpu_controller_send_frame c s stream ≡ some (frame, s')
      → IsIsolated s'.memory
  unfolding cpu_controller_send_frame
  send_frame-IsIsolated none frame s' h = same_memory s s' w (ground (arith, h))
  send_frame-IsIsolated (some stream) frame s' h =
      let ((pid, rest), _, h) = >>=-eq-some (get_u32 stream) _ h in
      let (values, _, h) = >>=-eq-some (operandos_from_stream rest) _ h in
      obtain_frame-IsIsolated c s s' values.op1 values.op2 pid frame w h
