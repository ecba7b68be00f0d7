-- ===== src/Memory/Isolation/Keeps/Select.antt =====
-- The victim's selection writes use bits through the big table, and a page fault may make room.
use os_sski.Common.{
  ℕ, zero, suc, ◌≡◌, refl, sym, ap, ◌∙◌, inl, inr, Option, some, List, [], ◌∷◌, ◌++◌, map, arith,
  ◌>>=◌, >>=-eq-some, length, set, take, drop, Bool-cases,
}
use os_sski.Memory.Table.{Row}
use os_sski.Memory.Process.{get_table}
use os_sski.Memory.Lookup.{big_rows, put_rows}
use os_sski.Memory.Swap.Copies.{take-append}
use os_sski.Memory.Server.{Settings, Server, frame_selector}
use os_sski.Memory.CpuController.{
  should_replace_frame, get_table_lvl1_number, select_frame, make_room,
}
use os_sski.Memory.Isolation.{
  frame_of, frames_of, View, view, IsIsolated, IsKept, IsKept-twice, view-set, set-same,
  get_elem?-view,
}
use os_sski.Memory.Isolation.Keeps.Shape.{frame_selector-shape, frames-shape}
use os_sski.Memory.Isolation.Keeps.{get_table-eq, IsKept-eq, IsKept-eq_memory, replace_frame-IsKept}

-- The frames of the tables that a first-level table lists.
big_frames : View → List ℕ → Option (List ℕ)
big_frames v [] = some []
big_frames v (id ∷ ids) = do fs ← get_table v id; rest ← big_frames v ids; some (fs ++ rest)

pub get_table-view :
    (tables : List (Option (List Row))) (i : ℕ) (rows : List Row)
    → get_table tables i ≡ some rows
    → get_table (map frames_of tables) i ≡ some (map frame_of rows)
unfolding get_table
get_table-view tables i rows h =
    rw (get_elem?-view tables i (some rows) (get_table-eq tables i rows h))

map-append : (xs ys : List Row) → map frame_of (xs ++ ys) ≡ map frame_of xs ++ map frame_of ys
map-append [] ys = refl
map-append (x ∷ xs) ys = ap (λ (fs : List ℕ). x.frame ∷ fs) (map-append xs ys)

map-take : (n : ℕ) (xs : List Row) → map frame_of (take n xs) ≡ take n (map frame_of xs)
map-take zero xs = refl
map-take (suc n) [] = refl
map-take (suc n) (x ∷ xs) = ap (λ (fs : List ℕ). x.frame ∷ fs) (map-take n xs)

map-drop : (n : ℕ) (xs : List Row) → map frame_of (drop n xs) ≡ drop n (map frame_of xs)
map-drop zero xs = refl
map-drop (suc n) [] = refl
map-drop (suc n) (x ∷ xs) = map-drop n xs

drop-append : (xs ys : List ℕ) → drop (length xs) (xs ++ ys) ≡ ys
drop-append [] ys = refl
drop-append (x ∷ xs) ys = drop-append xs ys

big_frames-big_rows :
    (tables : List (Option (List Row))) (ids : List ℕ) (line : List Row)
    → big_rows tables ids ≡ some line
    → big_frames (map frames_of tables) ids ≡ some (map frame_of line)
unfolding big_rows big_frames
big_frames-big_rows tables [] line h = ground (arith, h)
big_frames-big_rows tables (id ∷ ids) line h =
    let (rows, there, h) = >>=-eq-some (get_table tables id) _ h in
    let (rest, below, h) = >>=-eq-some (big_rows tables ids) _ h in
    let same : rows ++ rest ≡ line = ground (arith, h) in
    rw (get_table-view tables id rows there, big_frames-big_rows tables ids rest below)
      (ap (λ (fs : List ℕ). some fs)
        (sym (map-append rows rest) ∙ ap (λ (rs : List Row). map frame_of rs) same))

-- Rows with the frames that were there are put in place, table by table.
put_rows-view :
    (n : ℕ) (v : View) (ids : List ℕ) (line : List Row) (tables : List (Option (List Row)))
    → map frames_of tables ≡ v
    → ((i : ℕ) (fs : List ℕ) → get_table v i ≡ some fs → length fs ≡ n)
    → big_frames v ids ≡ some (map frame_of line)
    → map frames_of (put_rows n ids line tables) ≡ v
unfolding put_rows big_frames
put_rows-view n v [] line tables e full h = e
put_rows-view n v (id ∷ ids) line tables e full h =
    let (fs, there, h) = >>=-eq-some (get_table v id) _ h in
    let (rest, below, h) = >>=-eq-some (big_frames v ids) _ h in
    let whole : fs ++ rest ≡ map frame_of line = ground (arith, h) in
    let size : length fs ≡ n = full id fs there in
    let first : map frame_of (take n line) ≡ fs =
      map-take n line
      ∙ ap (λ (xs : List ℕ). take n xs) (sym whole)
      ∙ ap (λ (k : ℕ). take k (fs ++ rest)) (sym size)
      ∙ take-append fs rest in
    let others : map frame_of (drop n line) ≡ rest =
      map-drop n line
      ∙ ap (λ (xs : List ℕ). drop n xs) (sym whole)
      ∙ ap (λ (k : ℕ). drop k (fs ++ rest)) (sym size)
      ∙ drop-append fs rest in
    let placed : map frames_of (set tables id (some (take n line))) ≡ v =
      view-set tables id (some (take n line))
      ∙ ap (λ (w : View). set w id (some (map frame_of (take n line)))) e
      ∙ ap (λ (xs : List ℕ). set v id (some xs)) first
      ∙ set-same v id (some fs) (get_table-eq v id fs there) in
    put_rows-view n v ids (drop n line) (set tables id (some (take n line))) placed full
      (below ∙ ap (λ (xs : List ℕ). some xs) (sym others))

module _ (c : Settings) (s : Server) (w : IsIsolated s.memory) where
  select_frame-IsKept :
      (id_table_1 frame : ℕ) (s' : Server)
      → select_frame c s id_table_1 ≡ some (frame, s')
      → IsKept s.memory s'.memory
  unfolding select_frame
  select_frame-IsKept id_table_1 frame s' h =
      let (ids, _, h) = >>=-eq-some (get_table s.memory.tables_lvl_1 id_table_1) _ h in
      let (line, whole, h) = >>=-eq-some (big_rows s.memory.tables_lvl_2 ids) _ h in
      let ((victim, clock, line'), chosen, h) = >>=-eq-some (frame_selector c s.clock line) _ h in
      let tables = put_rows s.memory.max_rows ids line' s.memory.tables_lvl_2 in
      let same : map frame_of line' ≡ map frame_of line =
        frames-shape line line'
          (frame_selector-shape c s.clock line (victim, clock, line') chosen) in
      let seen = record s { memory = record s.memory { tables_lvl_2 = tables }; clock = clock } in
      let kept : IsKept s.memory seen.memory = record {
        pages =
            put_rows-view s.memory.max_rows (view s.memory) ids line' s.memory.tables_lvl_2 refl
              w.full
              (big_frames-big_rows s.memory.tables_lvl_2 ids line whole
                ∙ ap (λ (xs : List ℕ). some xs) (sym same));
        frames = refl;
        rows = refl;
      } in
      IsKept-eq_memory seen s' (ground (arith, h)) kept

  pub make_room-IsKept :
      (id_table_2 pid : ℕ) (s' : Server)
      → make_room c s id_table_2 pid ≡ some s'
      → IsKept s.memory s'.memory
  unfolding make_room
  make_room-IsKept id_table_2 pid s' h =
      let (full, _, h) = >>=-eq-some (should_replace_frame c s.memory id_table_2) _ h in
      elim (Bool-cases full) [
        | inr room ↦ IsKept-eq s s' (rw room at h)
        | inl full ↦
            let h = rw full at h in
            let ((frame, seen), chosen, h) =
              >>=-eq-some (select_frame c s (get_table_lvl1_number s.memory id_table_2)) _ h in
            IsKept-twice s.memory seen.memory s'.memory
              (select_frame-IsKept (get_table_lvl1_number s.memory id_table_2) frame seen chosen)
              (replace_frame-IsKept c seen s' pid frame h)
      ]
