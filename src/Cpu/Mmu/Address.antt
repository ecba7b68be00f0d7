-- ===== src/Cpu/Mmu/Address.antt =====
-- The arithmetic of addresses, at 32-bit words.
use native.Mathlib.Nat.{
  mod-eq_of_lt, mod-lt, div-add-mod, div-add-mod', mul-add-div_right, div-eq_of_lt,
  mul-add-mod_self_right, mod-mod,
}
use os_sski.Common.{ℕ, ◌+◌, ◌*◌, ◌/◌, ◌%◌, ◌<◌, ◌≤◌, ◌≡◌, sym, ◌∙◌, arith, u32_mod}
use os_sski.Cpu.Mmu.{get_page_number, get_offset, get_entry_lvl_1, get_entry_lvl_2, physical}

-- The word arithmetic of `get_offset` is the remainder.
pub get_offset-mod :
    (address page_size : ℕ)
    → address < u32_mod
    → 0 < page_size
    → get_offset address page_size ≡ address % page_size
unfolding get_offset
get_offset-mod a p ha hp = omega (arith, div-add-mod a p, mod-lt a hp)

-- For positive page and table sizes, a 32-bit address is put together from its first-level entry, its
-- second-level entry and its offset; the second-level entry lies below the entries of a table and the
-- offset below the page size.
pub address_parts :
    (address page_size entries : ℕ)
    → address < u32_mod
    → 0 < page_size
    → 0 < entries
    → (get_entry_lvl_2 address page_size entries < entries)
      × (get_offset address page_size < page_size)
      × (address
          ≡ (get_entry_lvl_1 (get_page_number address page_size) entries * entries
                + get_entry_lvl_2 address page_size entries)
              * page_size
            + get_offset address page_size)
unfolding get_entry_lvl_1 get_entry_lvl_2 get_page_number
address_parts a p n ha hp hn =
    rw (get_offset-mod a p ha hp)
      (mod-lt (a / p) hn, mod-lt a hp, rw (div-add-mod' (a / p) n) (sym (div-add-mod' a p)))

-- For a 32-bit address, a positive page size and a frame that ends at or below 2^32, the physical
-- address lies in the frame, at the offset of the logical one in its page.
pub physical_parts :
    (frame page_size address : ℕ)
    → address < u32_mod
    → 0 < page_size
    → (frame + 1) * page_size ≤ u32_mod
    → (physical frame page_size address / page_size ≡ frame)
      × (physical frame page_size address % page_size ≡ address % page_size)
unfolding physical
physical_parts f p a ha hp fits =
    let small : f * p + a % p < u32_mod = omega (arith, mod-lt a hp) in
    rw (get_offset-mod a p ha hp, mod-eq_of_lt small)
      (
        mul-add-div_right hp f (a % p) ∙ rw (div-eq_of_lt (mod-lt a hp)) (omega arith),
        mul-add-mod_self_right f p (a % p) ∙ mod-mod a p,
      )
