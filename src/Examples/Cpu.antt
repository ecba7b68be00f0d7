-- ===== src/Examples/Cpu.antt =====
-- A CPU beside a memory module whose frame numbers are the page numbers and whose store is a function.
use os_sski.Common.{
  ℕ, ◌+◌, ◌*◌, ◌/◌, ◌%◌, ◌<◌, ◌≡◌, ◌≢◌, refl, Bool, true, false, Option, none, some, List, [], ◌∷◌,
  inl, arith, ◌==◌, if◌then◌else◌,
}
use os_sski.Wire.Instruction.{Instruction, c_request_exit, c_request_no_op, c_request_copy}
use os_sski.Wire.Pcb.{Pcb, PcbStatus}
use os_sski.Cpu.Tlb.{Tlb, Policy, pagina_vacia, page_in_tlb, find_page}
use os_sski.Cpu.Tlb.Lookup.{frame_of}
use os_sski.Cpu.Tlb.Replace.{IsTlb}
use os_sski.Cpu.Mmu.{
  MemoryModule, Geometry, get_page_number, get_offset, get_entry_lvl_1, get_entry_lvl_2, physical,
  walk, req_physical_address,
}
use os_sski.Cpu.Mmu.Address.{address_parts, physical_parts}
use os_sski.Cpu.Mmu.Walk.{Coherent, req_physical_address-Coherent}
use os_sski.Cpu.Cycle.{Cpu, cycle, run}
use os_sski.Cpu.Cycle.Hand.{IsExclusive, cycle-IsExclusive}
use os_sski.Cpu.Cycle.Copy.{redirected, cycle-redirected}
use os_sski.Cpu.Cycle.Program.{at_pc, run-exit, run_past_end}

abbrev pub Store : Type 0
Store = ℕ → ℕ

-- The first-level reply is the entry, and the second-level reply joins both: with four entries a
-- table the frame is the page.
abbrev pub memory : MemoryModule Store
memory = record {
  request_table_2_entry = λ s table row. (row, s);
  request_frame = λ s pid second row. (second * 4 + row, s);
  read = λ s pid address. (s address, s);
  write = λ s pid address value. λ (a : ℕ). if a == address then value else s a;
}

abbrev pub store : Store
store = λ a. a + 100

abbrev pub program : List Instruction
program =
    record { icode = c_request_no_op; param0 = 0; param1 = 0 }
    ∷ record { icode = c_request_exit; param0 = 0; param1 = 0 }
    ∷ []

abbrev copies : List Instruction
copies = record { icode = c_request_copy; param0 = 40; param1 = 8 } ∷ []

abbrev pub pcb_of : List Instruction → ℕ → Pcb
pcb_of is pc = record {
  id = 3;
  status = PcbStatus.pcb_executing;
  size = 64;
  instructions = is;
  page_table = 2;
  estimation = 1000;
  pc = pc;
  io = 0;
  real = 0;
}

abbrev pub tlb : Tlb
tlb = record {
  entries =
      record { pagina = 2; frame = 2; tiempo_ult_acceso = 3 }
      ∷ record { pagina = pagina_vacia; frame = pagina_vacia; tiempo_ult_acceso = 1 }
      ∷ [];
  policy = Policy.replace_lru;
  next = 0;
}

abbrev pub cpu_with : Option Pcb → Bool → Cpu
cpu_with pcb interruption = record {
  pcb = pcb;
  has_interruption = interruption;
  tlb = tlb;
  geometry = record { page_size = 16; page_amount_entries = 4 };
  entradas_tlb = 2;
  reemplazo_tlb = "LRU";
  client = true;
  cpu_in_use = elim pcb [ none ↦ 1 | some p ↦ 0 ];
  pcb_received = 1;
  returned = [];
}

abbrev geometry : Geometry
geometry = record { page_size = 16; page_amount_entries = 4 }

address_parts_example :
    (get_entry_lvl_2 100 16 4 < 4)
    × (get_offset 100 16 < 16)
    × (100
        ≡ (get_entry_lvl_1 (get_page_number 100 16) 4 * 4 + get_entry_lvl_2 100 16 4) * 16
          + get_offset 100 16)
address_parts_example = address_parts 100 16 4 (omega arith) (omega arith) (omega arith)

physical_parts_example : (physical 9 16 100 / 16 ≡ 9) × (physical 9 16 100 % 16 ≡ 100 % 16)
physical_parts_example = physical_parts 9 16 100 (omega arith) (omega arith) (omega arith)

tlb-Coherent : Coherent (λ page. page) tlb
tlb-Coherent q f ne e = ground arith

page_6-IsTlb : IsTlb (page_in_tlb tlb (get_page_number 100 16)).1
unfolding page_in_tlb get_page_number find_page
page_6-IsTlb = record { cursor = omega arith; distinct = ground arith; counting = ground arith }

page_6_some : get_page_number 100 16 ≢ pagina_vacia
unfolding get_page_number
page_6_some = ground arith

walk_6 : (walk memory geometry (pcb_of program 0) 100 store).0 ≡ get_page_number 100 16
unfolding walk
walk_6 = refl

req_physical_address-Coherent_example :
    (u : Tlb) × (s' : Store) × (req_physical_address memory geometry
        (pcb_of program 0)
        100
        tlb
        store
      ≡ some (physical (get_page_number 100 16) 16 100, u, s'))
    × Coherent (λ page. page) u
    × (frame_of (get_page_number 100 16) u.entries ≡ some (get_page_number 100 16))
    × ((frame_of (get_page_number 100 16) tlb.entries ≢ none) → s' ≡ store)
req_physical_address-Coherent_example =
    req_physical_address-Coherent memory (λ page. page) geometry (pcb_of program 0) 100 tlb store
      page_6_some page_6-IsTlb tlb-Coherent walk_6

abbrev busy : Cpu
busy = cpu_with (some (pcb_of program 0)) false

busy-cycle : cycle memory busy store ≡ some (record busy { pcb = some (pcb_of program 1) }, store)
unfolding cycle
busy-cycle = refl

cycle-IsExclusive_example : IsExclusive (record busy { pcb = some (pcb_of program 1) })
cycle-IsExclusive_example =
    cycle-IsExclusive memory busy (record busy { pcb = some (pcb_of program 1) }) store store refl
      busy-cycle

run-exit_example :
    (cpu' : Cpu) × (run memory 5 busy store ≡ some (cpu', store))
    × (cpu'.pcb ≡ none)
    × (cpu'.returned
        ≡ (record (pcb_of program 0) { status = PcbStatus.pcb_terminated; pc = 0 + 1 + 1 }, 0) ∷ [])
run-exit_example =
    run-exit memory 1 5 busy (pcb_of program 0)
      (record { icode = c_request_exit; param0 = 0; param1 = 0 }) store (omega arith) refl refl refl
      ((record { icode = c_request_no_op; param0 = 0; param1 = 0 }, refl, inl refl), tt) refl refl
      (omega arith)

run_past_end_example :
    run memory 7 (cpu_with (some (pcb_of copies 1)) false) store
    ≡ some (
      record (cpu_with (some (pcb_of copies 1)) false) {
        pcb = some (at_pc (pcb_of copies 1) (1 + 7));
      },
      store,
    )
run_past_end_example =
    run_past_end memory 7 (cpu_with (some (pcb_of copies 1)) false) (pcb_of copies 1) store refl
      refl (omega arith) (omega arith)

abbrev copy_40_8 : Instruction
copy_40_8 = record { icode = c_request_copy; param0 = 40; param1 = 8 }

abbrev copying : Cpu
copying = cpu_with (some (pcb_of copies 0)) false

cycle-redirected_example :
    cycle memory (record copying { pcb = some (redirected (pcb_of copies 0) copy_40_8 52) }) store
    ≡ cycle memory copying store
cycle-redirected_example =
    cycle-redirected memory copying (pcb_of copies 0) copy_40_8 52 store refl refl refl refl
