-- ===== src/Memory/CpuController/Fault.antt =====
-- Page faults: `obtain_frame` for a page that never had a frame, and for one that was swapped out.
use os_sski.Common.{
  ℕ, zero, suc, ◌+◌, ◌<◌, ◌≤◌, ◌≡◌, ◌≢◌, ◌⊎◌, inl, inr, refl, ap, Bool, true, false, some, List, [],
  ◌∷◌, arith, uint32_max, >>=-eq-some, get_elem?, set, length, ltb, ◌==◌, Bool-cases, get_elem?_lt,
}
use os_sski.Memory.Table.{Row, invalid_frame}
use os_sski.Memory.Frames.{
  find_free_frame, find_free_frame-le, delete_frame, create_from, create_frame_for_table,
  delete_frame-find_free_frame,
}
use os_sski.Memory.Process.{get_table}
use os_sski.Memory.Server.{Settings, Server}
use os_sski.Memory.Swap.{unswap_frame_for_pcb}
use os_sski.Memory.Swap.Frames.{update_row-frames, unswap_frame_for_pcb-frames}
use os_sski.Memory.CpuController.{
  should_replace_frame, make_room, with_frames, assign_frame, obtain_frame,
}

abbrev pub filled : ℕ → Row → Row
filled frame r = record r { present = true; frame = frame; use_bit = true }

-- The first row of a table without a frame, at or before row `j`.
pub record IsFirstEmpty (rows : List Row) (k j : ℕ) (q : Row) : Type 0 where
  pub bound : k ≤ j
  pub row : get_elem? rows k ≡ some q
  pub empty : q.frame ≡ invalid_frame
  pub before : (l : ℕ) (p : Row) → l < k → get_elem? rows l ≡ some p → p.frame ≢ invalid_frame

IsFirstEmpty-here :
    (x : Row) (rows : List Row) (j : ℕ) → x.frame ≡ invalid_frame → IsFirstEmpty (x ∷ rows) 0 j x
IsFirstEmpty-here x rows j e = record {
  bound = omega arith;
  row = refl;
  empty = e;
  before = λ l p lt _. absurd (omega (arith, lt));
}

IsFirstEmpty-later :
    (x : Row) (rows : List Row) (k j : ℕ) (q : Row)
    → x.frame ≢ invalid_frame
    → IsFirstEmpty rows k j q
    → IsFirstEmpty (x ∷ rows) (suc k) (suc j) q
IsFirstEmpty-later x rows k j q other first = record {
  bound = omega (arith, first.bound);
  row = first.row;
  empty = first.empty;
  before = before;
}
  where
    before :
        (l : ℕ) (p : Row) → l < suc k → get_elem? (x ∷ rows) l ≡ some p → p.frame ≢ invalid_frame
    before zero p lt there = ground (arith, there, other)
    before (suc l) p lt there = first.before l p (omega (arith, lt)) there

create_from-here :
    (frame i : ℕ) (x : Row) (rows : List Row)
    → x.frame ≡ invalid_frame
    → create_from frame i (x ∷ rows) ≡ (i + 0, filled frame x ∷ rows)
unfolding create_from
create_from-here frame i x rows e = ground (arith, e)

pub create_from-first :
    (frame i : ℕ) (rows : List Row) (j : ℕ) (r : Row)
    → get_elem? rows j ≡ some r
    → r.frame ≡ invalid_frame
    → (k : ℕ) × (q : Row) × IsFirstEmpty rows k j q
      × (create_from frame i rows ≡ (i + k, set rows k (filled frame q)))
unfolding create_from
create_from-first frame i [] j r h e = absurd (ground arith)
create_from-first frame i (x ∷ rows) zero r h e =
    let e' : x.frame ≡ invalid_frame = ground (arith, h, e) in
    (0, x, IsFirstEmpty-here x rows 0 e', create_from-here frame i x rows e')
create_from-first frame i (x ∷ rows) (suc j) r h e = elim (Bool-cases (x.frame == invalid_frame)) [
  | inl here ↦
      let e' : x.frame ≡ invalid_frame = ground (arith, here) in
      (0, x, IsFirstEmpty-here x rows (suc j) e', create_from-here frame i x rows e')
  | inr other ↦
      let (k, q, first, made) = create_from-first frame (i + 1) rows j r h e in
      (
        suc k,
        q,
        IsFirstEmpty-later x rows k j q (ground (arith, other)) first,
        rw (other, made, create_from)
            (ap (λ (n : ℕ). (n, x ∷ set rows k (filled frame q))) (omega arith)),
      )
]

find_free_frame-free :
    (frames : List Bool) (f : ℕ)
    → get_elem? frames f ≡ some false
    → length frames ≤ uint32_max
    → (n : ℕ) × (n ≤ f)
      × (get_elem? frames n ≡ some false)
      × (find_free_frame frames ≡ (n, set frames n true))
find_free_frame-free frames f h small =
    let lowest = find_free_frame-le frames f h in
    let inside = get_elem?_lt frames f false h in
    elim (delete_frame-find_free_frame frames) [
      | inl (free, taken, _) ↦ (
        (find_free_frame frames).0,
        lowest,
        free,
        ap (λ (taken : List Bool). ((find_free_frame frames).0, taken)) taken,
      )
      | inr none_free ↦
          let answer : (find_free_frame frames).0 ≡ uint32_max =
            ap (λ (x : ℕ × List Bool). x.0) none_free in
          absurd (omega (arith, answer, lowest, inside))
    ]

delete_frame-invalid :
    (taken frames : List Bool) (n : ℕ)
    → taken ≡ frames
    → n ≡ uint32_max
    → length frames < uint32_max
    → delete_frame taken n ≡ some frames
unfolding delete_frame
delete_frame-invalid taken frames n all mark small = rw (all, mark) (ground (arith, small))

module _ (c : Settings) (s : Server) (second j pid : ℕ) where
  -- What holds when row `j` of a table is not present and the process may have another frame.
  pub record IsFault (rows : List Row) (r : Row) : Type 0 where
    pub bound : j < s.memory.max_rows
    pub table : get_table s.memory.tables_lvl_2 second ≡ some rows
    pub row : get_elem? rows j ≡ some r
    pub absent : r.present ≡ false
    pub room : should_replace_frame c s.memory second ≡ some false

  -- The state when a frame has been taken for a row.
  abbrev pub assigned : ℕ → List Row → Server
  assigned n rows = record s {
    memory = record s.memory {
      frames = set s.memory.frames n true;
      tables_lvl_2 = set s.memory.tables_lvl_2 second (some rows);
    };
  }

  make_room-room :
      (frames : List Bool)
      → should_replace_frame c s.memory second ≡ some false
      → make_room c (with_frames s frames) second pid ≡ some (with_frames s frames)
  unfolding make_room should_replace_frame
  make_room-room frames room = rw room

  assign_frame-new :
      (rows : List Row) (r : Row) (n : ℕ)
      → IsFault rows r
      → r.frame ≡ invalid_frame
      → assign_frame c (with_frames s (set s.memory.frames n true)) second j pid n
        ≡ some (assigned n (create_frame_for_table rows n).1)
  unfolding assign_frame
  assign_frame-new rows r n fault new = rw (fault.table, fault.row, new)

  -- A page fault on a page that never had a frame, in a process below its limit, while a frame is free: the
  -- lowest free frame is taken and answered, and stands, present and used, in the first row of the table
  -- that has no frame, at or before the one asked for; nothing else of the state changes.
  pub obtain_frame-new :
      (rows : List Row) (r : Row) (f : ℕ)
      → IsFault rows r
      → r.frame ≡ invalid_frame
      → get_elem? s.memory.frames f ≡ some false
      → length s.memory.frames ≤ uint32_max
      → (n k : ℕ) × (q : Row) × (n ≤ f)
        × (get_elem? s.memory.frames n ≡ some false)
        × IsFirstEmpty rows k j q
        × (obtain_frame c s second j pid ≡ some (n, assigned n (set rows k (filled n q))))
  unfolding obtain_frame create_frame_for_table
  obtain_frame-new rows r f fault new free small =
      let (n, lowest, free, found) = find_free_frame-free s.memory.frames f free small in
      let (k, q, first, made) = create_from-first n 0 rows j r fault.row new in
      let inside : ltb s.memory.max_rows j ≡ false = ground (arith, fault.bound) in
      (
        n,
        k,
        q,
        lowest,
        free,
        first,
        rw (
          inside,
          fault.table,
          fault.row,
          fault.absent,
          found,
          make_room-room (set s.memory.frames n true) fault.room,
          assign_frame-new rows r n fault new,
          made,
        ),
      )

  assign_frame-swapped :
      (taken frames : List Bool) (rows : List Row) (r : Row) (n : ℕ) (s' : Server)
      → IsFault rows r
      → r.frame ≢ invalid_frame
      → delete_frame taken n ≡ some frames
      → assign_frame c (with_frames s taken) second j pid n ≡ some s'
      → s'.memory.frames ≡ frames
  unfolding assign_frame
  assign_frame-swapped taken frames rows r n s' fault old given h =
      let other : (r.frame == invalid_frame) ≡ false = ground (arith, old) in
      let h = rw (fault.table, fault.row, other, given) at h in
      let (s'', unswapped, h) =
        >>=-eq-some (unswap_frame_for_pcb c (with_frames s frames) pid r.frame) _ h in
      ground (
        arith,
        h,
        unswap_frame_for_pcb-frames c (with_frames s frames) s'' pid r.frame unswapped,
        update_row-frames s''.memory (second, j) (λ r. record r { use_bit = true }),
      )

  -- A page fault on a page that already has a frame, as a swapped page does, in a process below its
  -- limit: when the page's own frame is still marked as taken and the handler answers at all, the
  -- frames are taken as before, and the frame that is answered is not the page's own but a free one,
  -- or invalid.
  pub obtain_frame-swapped :
      (rows : List Row) (r : Row) (n : ℕ) (s' : Server)
      → IsFault rows r
      → get_elem? s.memory.frames r.frame ≡ some true
      → length s.memory.frames < uint32_max
      → obtain_frame c s second j pid ≡ some (n, s')
      → (s'.memory.frames ≡ s.memory.frames)
        × (n ≢ r.frame)
        × ((get_elem? s'.memory.frames n ≡ some false) ⊎ (n ≡ uint32_max))
  unfolding obtain_frame
  obtain_frame-swapped rows r n s' fault own small h =
      let inside : ltb s.memory.max_rows j ≡ false = ground (arith, fault.bound) in
      let kept = get_elem?_lt s.memory.frames r.frame true own in
      let old : r.frame ≢ invalid_frame = λ e. absurd (omega (arith, e, kept, small)) in
      let found = find_free_frame s.memory.frames in
      let h =
        rw (inside, fault.table, fault.row, fault.absent, make_room-room found.1 fault.room) at h in
      let (s'', done, h) =
        >>=-eq-some (assign_frame c (with_frames s found.1) second j pid found.0) _ h in
      let same : s'' ≡ s' = ground (arith, h) in
      let answer : found.0 ≡ n = ground (arith, h) in
      elim (delete_frame-find_free_frame s.memory.frames) [
        | inl (free, _, given) ↦
            let frames =
              assign_frame-swapped found.1 s.memory.frames rows r found.0 s'' fault old given
                done in
            let still : get_elem? s.memory.frames n ≡ some false = rw (← answer) free in
            (
              rw (← same) frames,
              λ e. absurd (ground (arith, own, rw e at still)),
              inl (rw (← same, frames) still),
            )
        | inr none_free ↦
            let all : found.1 ≡ s.memory.frames = ap (λ (x : ℕ × List Bool). x.1) none_free in
            let mark : found.0 ≡ uint32_max = ap (λ (x : ℕ × List Bool). x.0) none_free in
            let frames =
              assign_frame-swapped found.1 s.memory.frames rows r found.0 s'' fault old
                (delete_frame-invalid found.1 s.memory.frames found.0 all mark small) done in
            (
              rw (← same) frames,
              λ e. absurd (omega (arith, e, kept, mark, answer, small)),
              inr (omega (arith, answer, mark)),
            )
      ]
