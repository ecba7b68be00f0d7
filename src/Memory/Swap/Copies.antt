-- ===== src/Memory/Swap/Copies.antt =====
-- Copies within bounds, the rounds of a loop over one entry, and the references that a swap writes through.
use native.Mathlib.Nat.{div-add-mod', mod-lt}
use os_sski.Common.{
  ℕ, zero, suc, ◌+◌, ◌-◌, ◌*◌, ◌/◌, ◌%◌, ◌<◌, ◌≤◌, ◌≡◌, ◌≢◌, refl, ap, Bool, some, List, [], ◌∷◌,
  ◌++◌, arith, uint32_max, length, length-append, length-take, length-replicate, take, drop,
  replicate,
}
use os_sski.Wire.Word.{Bytes}
use os_sski.Memory.Store.{overwrite}
use os_sski.Memory.Lookup.{get_table_lvl2_number, update_row}
use os_sski.Memory.Lookup.Found.{get_frame_ref-IsAt}
use os_sski.Memory.Server.{SwapData, Server}
use os_sski.Memory.Swap.{
  get_swap_data_for_pcb, update_swap_data, ftruncate, store_bytes, load_bytes, with_present,
  set_present, with_offset, rounds,
}

-- What is in bounds is copied.
pub store_bytes-fits :
    (at : ℕ) (src dst : Bytes)
    → at + length src ≤ length dst
    → store_bytes at src dst ≡ some (overwrite at src dst)
unfolding store_bytes
store_bytes-fits at src dst h = ground arith

pub load_bytes-fits :
    (at size : ℕ) (src : Bytes)
    → at + size ≤ length src
    → load_bytes at size src ≡ some (take size (drop at src))
unfolding load_bytes
load_bytes-fits at size src h = ground arith

pub length-ftruncate : (size : ℕ) (file : Bytes) → length (ftruncate size file) ≡ size
unfolding ftruncate
length-ftruncate size file = omega (
  arith,
  length-append (take size file) (replicate (size - length file) 0),
  length-take size file,
  length-replicate {A = ℕ} (size - length file) 0,
)

quotient_one : (q y r x : ℕ) → q * y + r ≡ x → r < y → y ≤ x → x < y + y → q ≡ 1
quotient_one zero y r x e lt le small = absurd (omega arith)
quotient_one (suc zero) y r x e lt le small = refl
quotient_one (suc (suc q)) y r x e lt le small = absurd (omega arith)

-- One entry is one round of the loops.
pub rounds-one : (tam : ℕ) → rounds tam (4 + tam) ≡ 1
unfolding rounds
rounds-one tam =
    let x = (4 + tam) + (tam + 3) in
    quotient_one (x / (tam + 4)) (tam + 4) (x % (tam + 4)) x (div-add-mod' x (tam + 4))
      (mod-lt x (omega arith)) (omega arith) (omega arith)

pub get_swap_data-update :
    (infos : List SwapData) (pid offset : ℕ) (info : SwapData)
    → get_swap_data_for_pcb infos pid ≡ some info
    → get_swap_data_for_pcb (update_swap_data infos pid (with_offset offset)) pid
      ≡ some (with_offset offset info)
unfolding get_swap_data_for_pcb update_swap_data
get_swap_data-update [] pid offset info h = absurd (ground arith)
get_swap_data-update (d ∷ infos) pid offset info h =
    ground (arith, get_swap_data-update infos pid offset info)

module _ {ℓ} {A : Type ℓ} where
  pub take-append : (xs ys : List A) → take (length xs) (xs ++ ys) ≡ xs
  take-append [] ys = refl
  take-append (x ∷ xs) ys = ap (λ (zs : List A). x ∷ zs) (take-append xs ys)

  pub take-append_le : (n : ℕ) (xs ys : List A) → n ≤ length xs → take n (xs ++ ys) ≡ take n xs
  take-append_le zero xs ys h = refl
  take-append_le (suc n) [] ys h = absurd (omega arith)
  take-append_le (suc n) (x ∷ xs) ys h =
      ap (λ (zs : List A). x ∷ zs) (take-append_le n xs ys (omega arith))

pub set_present-found :
    (s : Server) (frame : ℕ) (b : Bool) (ne : get_table_lvl2_number s.memory frame ≢ uint32_max)
    → set_present s frame b
      ≡ some (record s {
        memory = update_row s.memory (get_frame_ref-IsAt s.memory frame ne).0 (with_present b);
      })
unfolding set_present
set_present-found s frame b ne = rw (get_frame_ref-IsAt s.memory frame ne).1.found
