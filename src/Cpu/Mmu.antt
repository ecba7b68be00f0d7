-- ===== src/Cpu/Mmu.antt =====
-- The MMU of cpu/src/module/cpu.c: a logical address is split, its page is looked up in the TLB or
-- asked of the memory module, and the frame is put together with the offset.
pub mod Address
pub mod Walk
use Prim.Native.String.{String}
use os_sski.Common.{ℕ, ◌+◌, ◌-◌, ◌*◌, ◌/◌, ◌%◌, Option, none, some, u32_mod, ◌>>=◌}
use os_sski.Wire.Pcb.{Pcb}
use os_sski.Cpu.Tlb.{Tlb, page_in_tlb, replace}

unfoldable pub get_page_number : ℕ → ℕ → ℕ
get_page_number logical_address page_size = logical_address / page_size

-- The product and the difference are taken modulo 2^32.
unfoldable pub get_offset : ℕ → ℕ → ℕ
unfolding get_page_number
get_offset logical_address page_size =
    (logical_address + u32_mod - page_size * get_page_number logical_address page_size % u32_mod)
    % u32_mod

unfoldable pub get_entry_lvl_1 : ℕ → ℕ → ℕ
get_entry_lvl_1 page_number entries_per_table = page_number / entries_per_table

unfoldable pub get_entry_lvl_2 : ℕ → ℕ → ℕ → ℕ
unfolding get_page_number
get_entry_lvl_2 logical_address page_size entries_per_table =
    get_page_number logical_address page_size % entries_per_table

unfoldable pub physical : ℕ → ℕ → ℕ → ℕ
unfolding get_offset
physical frame page_size logical_address =
    (frame * page_size + get_offset logical_address page_size) % u32_mod

-- The memory module as the CPU reaches it: each request answers and may change the state `S`.
pub record MemoryModule (S : Type 0) : Type 0 where
  pub request_table_2_entry : S → ℕ → ℕ → ℕ × S
  pub request_frame : S → (pid : ℕ) → ℕ → ℕ → ℕ × S
  pub read : S → (pid physical_address : ℕ) → ℕ × S
  pub write : S → (pid physical_address value : ℕ) → S

-- The geometry that the handshake learns, which stays.
pub record Geometry : Type 0 where
  pub page_size : ℕ
  pub page_amount_entries : ℕ

module _ {S : Type 0} (memory : MemoryModule S) where
  -- The page-table walk of a TLB miss.
  unfoldable pub walk : Geometry → Pcb → ℕ → S → ℕ × S
  unfolding get_entry_lvl_1 get_entry_lvl_2
  walk g pcb logical_address s =
      let page = get_page_number logical_address g.page_size in
      let (second_page, s) =
        memory.request_table_2_entry s pcb.page_table
          (get_entry_lvl_1 page g.page_amount_entries) in
      memory.request_frame s pcb.id second_page
        (get_entry_lvl_2 logical_address g.page_size g.page_amount_entries)

  -- `none`: the TLB's replacement goes wrong.
  unfoldable pub req_physical_address : Geometry → Pcb → ℕ → Tlb → S → Option (ℕ × Tlb × S)
  unfolding walk physical
  req_physical_address g pcb logical_address tlb s =
      let page = get_page_number logical_address g.page_size in
      let (marco, tlb) = page_in_tlb tlb page in
      elim marco [
        | some frame ↦ some (physical frame g.page_size logical_address, tlb, s)
        | none ↦ do
          let (frame, s) = walk g pcb logical_address s
          tlb ← replace tlb page frame
          some (physical frame g.page_size logical_address, tlb, s)
      ]
