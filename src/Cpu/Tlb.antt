-- ===== src/Cpu/Tlb.antt =====
-- cpu/src/module/tlb.c: the translation cache and its two replacement policies.
pub mod Lookup
pub mod Lru
pub mod Fifo
pub mod Replace
use Prim.Native.String.{String}
use text.Mathlib.Text.{◌==◌ as str_eq}
use os_sski.Common.{
  ℕ, zero, suc, ◌+◌, ◌-◌, ◌%◌, ◌<◌, ◌≡◌, refl, Bool, true, false, Option, none, some, List, [], ◌∷◌,
  u32_mod, uint32_max, ◌>>=◌, length, set, get_elem?, replicate, ltb, ◌==◌, if◌then◌else◌,
}

pub record Entry : Type 0 where
  pub pagina : ℕ
  pub frame : ℕ
  pub tiempo_ult_acceso : ℕ

abbrev pub pagina_vacia : ℕ
pagina_vacia = uint32_max

pub data Policy : Type 0 where
  replace_lru replace_fifo : Policy

-- `next` is the static index of `replace_fifo`, which outlives a reset.
pub record Tlb : Type 0 where
  pub entries : List Entry
  pub policy : Policy
  pub next : ℕ

abbrev pub empty_entry : Entry
empty_entry = record { pagina = pagina_vacia; frame = pagina_vacia; tiempo_ult_acceso = 0 }

-- `entradas` and `algorithm` are the configured number of entries and policy.
unfoldable pub tlb_init : ℕ → String → ℕ → Tlb
tlb_init entradas algorithm next = record {
  entries = replicate entradas empty_entry;
  policy = if str_eq algorithm "LRU" then Policy.replace_lru else Policy.replace_fifo;
  next = next;
}

unfoldable pub tlb_reset : Tlb → ℕ → String → Tlb
tlb_reset tlb entradas algorithm = tlb_init entradas algorithm tlb.next

abbrev pub older : Entry → Entry
older e = record e { tiempo_ult_acceso = (e.tiempo_ult_acceso + 1) % u32_mod }

-- The loop stops at the first match, so the entries behind it do not age.
unfoldable pub find_page : ℕ → List Entry → Option ℕ × List Entry
find_page page [] = (none, [])
find_page page (e ∷ es) =
    let (marco, rest) = find_page page es in
    if e.pagina == page
    then (some e.frame, record e { tiempo_ult_acceso = 0 } ∷ es)
    else (marco, older e ∷ rest)

-- The frame of the page, and `none` where the function returns false.
unfoldable pub page_in_tlb : Tlb → ℕ → Option ℕ × Tlb
page_in_tlb tlb page =
    let (marco, entries) = find_page page tlb.entries in (marco, record tlb { entries = entries })

-- The first loop of `replace_lru`: whether an empty entry was filled.
unfoldable pub fill_empty : ℕ → ℕ → List Entry → Bool × List Entry
fill_empty page frame [] = (false, [])
fill_empty page frame (e ∷ es) =
    let (filled, rest) = fill_empty page frame es in
    if e.pagina == pagina_vacia
    then (true, record { pagina = page; frame = frame; tiempo_ult_acceso = 0 } ∷ es)
    else (filled, older e ∷ rest)

-- The second loop: `best` is `pag_index_max`, `none` as long as it is not initialised.
unfoldable pub find_oldest : ℕ → Option ℕ → ℕ → List Entry → Option ℕ
find_oldest i best oldest [] = best
find_oldest i best oldest (e ∷ es) =
    let older_here = ltb oldest e.tiempo_ult_acceso in
    find_oldest (i + 1) (if older_here then some i else best)
      (if older_here then e.tiempo_ult_acceso else oldest) es

-- `none`: an index that was never assigned, or out of the table, is written to.
unfoldable pub lru : Tlb → ℕ → ℕ → Option Tlb
unfolding fill_empty find_oldest
lru tlb page frame =
    let (filled, aged) = fill_empty page frame tlb.entries in
    if filled then some (record tlb { entries = aged }) else do
      i ← find_oldest 0 none 0 aged
      some (record tlb {
        entries = set aged i (record { pagina = page; frame = frame; tiempo_ult_acceso = 0 });
      })

unfoldable pub fifo : Tlb → ℕ → ℕ → Option Tlb
fifo tlb page frame = do
  e ← get_elem? tlb.entries tlb.next
  some (record tlb {
    entries = set tlb.entries tlb.next (record e { pagina = page; frame = frame });
    next = if ltb (tlb.next + 1) (length tlb.entries) then tlb.next + 1 else 0;
  })

-- tlb->replace(tlb, page, frame)
unfoldable pub replace : Tlb → ℕ → ℕ → Option Tlb
replace tlb page frame = elim tlb.policy [
  | replace_lru ↦ lru tlb page frame
  | replace_fifo ↦ fifo tlb page frame
]
