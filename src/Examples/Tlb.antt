-- ===== src/Examples/Tlb.antt =====
-- Small translation tables.
use os_sski.Common.{ℕ, ◌+◌, ◌%◌, ◌≡◌, refl, some, [], ◌∷◌, map, arith, length, get_elem?, set}
use os_sski.Cpu.Tlb.{Entry, Tlb, Policy, older, page_in_tlb, lru, replace}
use os_sski.Cpu.Tlb.Lookup.{Distinct}
use os_sski.Cpu.Tlb.Lru.{AllAtMost, AllCounting, AllFull, lru-evicts-oldest, lru_evicts_most_recent}
use os_sski.Cpu.Tlb.Fifo.{fifo_run, fifo_run-next}
use os_sski.Cpu.Tlb.Replace.{IsTlb, Refines, replace-Refines}

abbrev page_1 : Entry
page_1 = record { pagina = 1; frame = 10; tiempo_ult_acceso = 4 }

abbrev page_2 : Entry
page_2 = record { pagina = 2; frame = 20; tiempo_ult_acceso = 6 }

abbrev table : Policy → Tlb
table p = record { entries = page_1 ∷ page_2 ∷ []; policy = p; next = 1 }

table-Distinct : Distinct (page_1 ∷ page_2 ∷ [])
table-Distinct = ground arith

table-AllCounting : AllCounting (page_1 ∷ page_2 ∷ [])
table-AllCounting = (omega arith, (omega arith, tt))

table-AllFull : AllFull (page_1 ∷ page_2 ∷ [])
table-AllFull = ground arith

table-IsTlb : IsTlb (table Policy.replace_lru)
table-IsTlb = record {
  cursor = omega arith;
  distinct = table-Distinct;
  counting = table-AllCounting;
}

replace-Refines_example :
    (u : Tlb) × (victim : ℕ) × (replace (table Policy.replace_lru) 3 30 ≡ some u)
    × Refines 3 30 victim (page_1 ∷ page_2 ∷ []) u.entries
replace-Refines_example =
    replace-Refines (table Policy.replace_lru) 3 30 table-IsTlb (ground arith) refl

lru-evicts-oldest_example :
    (j : ℕ) × (old : Entry) × (get_elem? (page_1 ∷ page_2 ∷ []) j ≡ some old)
    × AllAtMost old.tiempo_ult_acceso (page_1 ∷ page_2 ∷ [])
    × (lru (table Policy.replace_lru) 3 30
        ≡ some (record (table Policy.replace_lru) {
          entries =
              set
                (map older (page_1 ∷ page_2 ∷ []))
                j
                (record { pagina = 3; frame = 30; tiempo_ult_acceso = 0 });
        }))
lru-evicts-oldest_example =
    lru-evicts-oldest (table Policy.replace_lru) 3 30 page_1 (page_2 ∷ []) refl table-AllFull
      table-AllCounting

lru_evicts_most_recent_example :
    lru (page_in_tlb (page_in_tlb (table Policy.replace_lru) 2).1 1).1 3 30
    ≡ some (record (table Policy.replace_lru) {
      entries =
          record { pagina = 3; frame = 30; tiempo_ult_acceso = 0 }
          ∷ record page_2 { tiempo_ult_acceso = 1 }
          ∷ [];
    })
lru_evicts_most_recent_example =
    lru_evicts_most_recent page_1 page_2 3 30 (table Policy.replace_lru) refl table-AllFull
      (ground arith)

fifo_run-next_example :
    (u : Tlb) × (fifo_run (table Policy.replace_fifo) ((5, 50) ∷ (6, 60) ∷ (7, 70) ∷ []) ≡ some u)
    × (length u.entries ≡ 2)
    × (u.next ≡ (1 + 3) % 2)
fifo_run-next_example =
    fifo_run-next ((5, 50) ∷ (6, 60) ∷ (7, 70) ∷ []) (table Policy.replace_fifo) (omega arith)
