-- ===== src/Memory/Isolation/Fault.antt =====
-- A page fault gives a page a frame that no other page has.
pub mod Claim
use os_sski.Common.{
  ℕ, zero, suc, ◌+◌, ◌<◌, ◌≤◌, ◌≡◌, ◌≢◌, ◌⊎◌, refl, sym, ap, ◌∙◌, inl, inr, Bool, true, false,
  Option, none, some, List, [], ◌∷◌, map, arith, ◌>>=◌, >>=-eq-some, uint32_max, length, get_elem?,
  set, length-set, get_elem?-set_self, get_elem?-set_ne, get_elem?_lt, Option-cases, Bool-cases,
  if◌then◌else◌, ltb, ◌==◌,
}
use os_sski.Memory.Table.{Row, invalid_frame}
use os_sski.Memory.Frames.{
  find_free_frame, delete_frame, create_frame_for_table, delete_frame-find_free_frame,
}
use os_sski.Memory.Process.{Memory, get_table}
use os_sski.Memory.Lookup.{update_row}
use os_sski.Memory.Server.{Settings, Server}
use os_sski.Memory.Swap.{unswap_frame_for_pcb}
use os_sski.Memory.CpuController.{with_frames, make_room, assign_frame, obtain_frame}
use os_sski.Memory.CpuController.Fault.{filled, IsFirstEmpty, create_from-first}
use os_sski.Memory.Isolation.{
  View, frame_of, frames_of, view, frame_at, IsIsolated, IsIsolated-IsKept, IsKept, IsKept-self,
  IsKept-twice, view-set,
}
use os_sski.Memory.Isolation.Keeps.{get_table-eq, update_row-IsKept, unswap_frame_for_pcb-IsKept}
use os_sski.Memory.Isolation.Keeps.Select.{get_table-view, make_room-IsKept}
use os_sski.Memory.Isolation.Fault.Claim.{
  IsUnheld, found-IsIsolated, deleted-IsIsolated, claimed-IsIsolated,
}

map-set_frame :
    (rows : List Row) (k : ℕ) (r : Row)
    → map frame_of (set rows k r) ≡ set (map frame_of rows) k r.frame
map-set_frame [] k r = refl
map-set_frame (x ∷ rows) zero r = refl
map-set_frame (x ∷ rows) (suc k) r = ap (λ (fs : List ℕ). x.frame ∷ fs) (map-set_frame rows k r)

IsIsolated-some :
    (s s' : Server)
    → ◌≡◌ {A = Option Server} (some s) (some s')
    → IsIsolated s.memory
    → IsIsolated s'.memory
IsIsolated-some s s' h w = let same : s ≡ s' = ground (arith, h) in rw same at w

-- Whether the page is new or was swapped out.
assign_frame-IsIsolated :
    (c : Settings) (s s' : Server) (second index pid n : ℕ)
    → IsIsolated s.memory
    → IsUnheld (view s.memory) n
    → (n ≢ invalid_frame → get_elem? s.memory.frames n ≡ some true)
    → assign_frame c s second index pid n ≡ some s'
    → IsIsolated s'.memory
unfolding assign_frame create_frame_for_table
assign_frame-IsIsolated c s s' second index pid n w unheld marked h =
    let (table, there, h) = >>=-eq-some (get_table s.memory.tables_lvl_2 second) _ h in
    let (r, row, h) = >>=-eq-some (get_elem? table index) _ h in
    elim (Bool-cases (r.frame == invalid_frame)) [
      | inl new ↦
          let (k, q, _, made) = create_from-first n 0 table index r row (ground (arith, new)) in
          let tables = set s.memory.tables_lvl_2 second (some (set table k (filled n q))) in
          let pages : map frames_of tables
              ≡ set (view s.memory) second (some (set (map frame_of table) k n)) =
            view-set s.memory.tables_lvl_2 second (some (set table k (filled n q)))
            ∙ ap (λ (fs : List ℕ). set (view s.memory) second (some fs))
                (map-set_frame table k (filled n q)) in
          IsIsolated-some (record s { memory = record s.memory { tables_lvl_2 = tables } }) s'
            (rw (new, made) at h)
            (claimed-IsIsolated s.memory second k n (map frame_of table) tables w
              (get_table-view s.memory.tables_lvl_2 second table there) unheld marked pages)
      | inr old ↦
          let h = rw old at h in
          let (frames, given, h) = >>=-eq-some (delete_frame s.memory.frames n) _ h in
          let (s'', unswapped, h) =
            >>=-eq-some (unswap_frame_for_pcb c (with_frames s frames) pid r.frame) _ h in
          let restored =
            IsIsolated-IsKept (with_frames s frames).memory s''.memory
              (unswap_frame_for_pcb-IsKept c (with_frames s frames) s'' pid r.frame unswapped)
              (deleted-IsIsolated s.memory n frames w unheld given) in
          let used = update_row s''.memory (second, index) (λ r. record r { use_bit = true }) in
          IsIsolated-some (record s'' { memory = used }) s' h
            (IsIsolated-IsKept s''.memory used
              (update_row-IsKept s''.memory (second, index) (λ r. record r { use_bit = true })
                (λ r. refl))
              restored)
    ]

IsUnheld-IsKept : (m m' : Memory) (n : ℕ) → IsKept m m' → IsUnheld (view m) n → IsUnheld (view m') n
IsUnheld-IsKept m m' n k unheld = λ i j f h ne. unheld i j f (rw k.pages at h) ne

-- In every case of `obtain_frame`.
pub obtain_frame-IsIsolated :
    (c : Settings) (s s' : Server) (second index pid frame : ℕ)
    → IsIsolated s.memory
    → obtain_frame c s second index pid ≡ some (frame, s')
    → IsIsolated s'.memory
unfolding obtain_frame
obtain_frame-IsIsolated c s s' second index pid frame w h =
    elim (Bool-cases (ltb s.memory.max_rows index)) [
      | inl outside ↦ IsIsolated-some s s' (ground (arith, rw outside at h)) w
      | inr inside ↦
          let h = rw inside at h in
          let (table, there, h) = >>=-eq-some (get_table s.memory.tables_lvl_2 second) _ h in
          let (r, row, h) = >>=-eq-some (get_elem? table index) _ h in
          elim (Bool-cases r.present) [
            | inl present ↦ IsIsolated-some s s' (ground (arith, rw present at h)) w
            | inr absent ↦
                let h = rw absent at h in
                let n = (find_free_frame s.memory.frames).0 in
                let s1 = with_frames s (find_free_frame s.memory.frames).1 in
                let (w1, unheld, marked) = found-IsIsolated s.memory w in
                let (s2, roomed, h) = >>=-eq-some (make_room c s1 second pid) _ h in
                let (s3, assigned, h) = >>=-eq-some (assign_frame c s2 second index pid n) _ h in
                let kept = make_room-IsKept c s1 w1 second pid s2 roomed in
                IsIsolated-some s3 s' (ground (arith, h)) (
                  assign_frame-IsIsolated c s2 s3 second index pid n
                    (IsIsolated-IsKept s1.memory s2.memory kept w1)
                    (IsUnheld-IsKept s1.memory s2.memory n kept unheld)
                    (λ ne. rw kept.frames (marked ne)) assigned)
          ]
    ]
