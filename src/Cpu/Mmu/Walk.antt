-- ===== src/Cpu/Mmu/Walk.antt =====
-- Translation through the TLB against translation by the page tables alone.
use os_sski.Common.{
  ℕ, ◌≡◌, ◌≢◌, refl, sym, ap, List, ◌∙◌, inl, inr, none, some, arith, Option-cases,
}
use os_sski.Wire.Pcb.{Pcb}
use os_sski.Cpu.Tlb.{Entry, Tlb, pagina_vacia, page_in_tlb, replace}
use os_sski.Cpu.Tlb.Lookup.{frame_of, find_page-frame_of, frame_of-find_page}
use os_sski.Cpu.Tlb.Replace.{IsTlb, Refines, replace-Refines}
use os_sski.Cpu.Mmu.{MemoryModule, Geometry, get_page_number, physical, walk, req_physical_address}

-- Every cached page has the frame that the page tables give it.
abbrev pub Coherent : (ℕ → ℕ) → Tlb → Type 0
Coherent table tlb = (q f : ℕ) → q ≢ pagina_vacia → frame_of q tlb.entries ≡ some f → f ≡ table q

page_in_tlb-frame_of : (t : Tlb) (p : ℕ) → (page_in_tlb t p).0 ≡ frame_of p t.entries
unfolding page_in_tlb
page_in_tlb-frame_of t p = find_page-frame_of p t.entries

frame_of-page_in_tlb :
    (t : Tlb) (p q : ℕ) → frame_of q (page_in_tlb t p).1.entries ≡ frame_of q t.entries
unfolding page_in_tlb
frame_of-page_in_tlb t p q = frame_of-find_page p q t.entries

Coherent-page_in_tlb :
    (table : ℕ → ℕ) (t : Tlb) (p : ℕ) → Coherent table t → Coherent table (page_in_tlb t p).1
Coherent-page_in_tlb table t p c q f ne e = c q f ne (sym (frame_of-page_in_tlb t p q) ∙ e)

Coherent-Refines :
    (table : ℕ → ℕ) (t u : Tlb) (p victim : ℕ)
    → Refines p (table p) victim t.entries u.entries
    → Coherent table t
    → Coherent table u
Coherent-Refines table t u p victim r c q f ne e = ground (arith, r.view q ne, c q f ne)

view_self :
    (p f victim : ℕ) (es fs : List Entry)
    → Refines p f victim es fs
    → p ≢ pagina_vacia
    → frame_of p fs ≡ some f
view_self p f victim es fs r np = ground (arith, r.view p np)

module _ {S : Type 0} (memory : MemoryModule S) where
  req_hit :
      (g : Geometry) (pcb : Pcb) (address f : ℕ) (tlb : Tlb) (s : S)
      → let page = get_page_number address g.page_size in
        (page_in_tlb tlb page).0 ≡ some f
        → req_physical_address memory g pcb address tlb s
          ≡ some (physical f g.page_size address, (page_in_tlb tlb page).1, s)
  unfolding req_physical_address
  req_hit g pcb address f tlb s hit = rw (hit, req_physical_address)

  req_miss :
      (g : Geometry) (pcb : Pcb) (address f : ℕ) (tlb u : Tlb) (s : S)
      → let page = get_page_number address g.page_size in
        (page_in_tlb tlb page).0 ≡ none
        → (walk memory g pcb address s).0 ≡ f
        → replace (page_in_tlb tlb page).1 page f ≡ some u
        → req_physical_address memory g pcb address tlb s
          ≡ some (physical f g.page_size address, u, (walk memory g pcb address s).1)
  unfolding req_physical_address
  req_miss g pcb address f tlb u s miss served step = rw (miss, served, step, req_physical_address)

  -- With a coherent TLB that is well formed after the lookup, a page number that is not the mark
  -- of an empty entry, and a memory module that answers the walk by the page table, an address is
  -- translated by the page table whether its page is cached or not; the page is cached afterwards
  -- and the TLB stays coherent. A hit leaves the memory module's state alone.
  pub req_physical_address-Coherent :
      (table : ℕ → ℕ) (g : Geometry) (pcb : Pcb) (address : ℕ) (tlb : Tlb) (s : S)
      → let page = get_page_number address g.page_size in
        page ≢ pagina_vacia
        → IsTlb (page_in_tlb tlb page).1
        → Coherent table tlb
        → (walk memory g pcb address s).0 ≡ table page
        → (u : Tlb) × (s' : S) × (req_physical_address memory g pcb address tlb s
            ≡ some (physical (table page) g.page_size address, u, s'))
          × Coherent table u
          × (frame_of page u.entries ≡ some (table page))
          × ((frame_of page tlb.entries ≢ none) → s' ≡ s)
  req_physical_address-Coherent table g pcb address tlb s np v c served =
      elim (Option-cases (page_in_tlb tlb page).0) [
        | inl miss ↦
            let absent : frame_of page tlb.entries ≡ none =
              sym (page_in_tlb-frame_of tlb page) ∙ miss in
            let (u, victim, step, r) =
              replace-Refines (page_in_tlb tlb page).1 page (table page) v np
                (frame_of-page_in_tlb tlb page page ∙ absent) in
            (
              u,
              (walk memory g pcb address s).1,
              req_miss g pcb address (table page) tlb u s miss served step,
              Coherent-Refines table (page_in_tlb tlb page).1 u page victim r
                  (Coherent-page_in_tlb table tlb page c),
              view_self page (table page) victim _ _ r np,
              λ present. absurd (present absent),
            )
        | inr (f, hit) ↦
            let there : frame_of page tlb.entries ≡ some f =
              sym (page_in_tlb-frame_of tlb page) ∙ hit in
            let e : f ≡ table page = c page f np there in
            (
              (page_in_tlb tlb page).1,
              s,
              rw (← e) (req_hit g pcb address f tlb s hit),
              Coherent-page_in_tlb table tlb page c,
              frame_of-page_in_tlb tlb page page ∙ there ∙ ap (λ (x : ℕ). some x) e,
              λ _. refl,
            )
      ]
    where
      page : ℕ
      page = get_page_number address g.page_size
