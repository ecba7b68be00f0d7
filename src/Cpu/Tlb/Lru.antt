-- ===== src/Cpu/Tlb/Lru.antt =====
-- `replace_lru`: which entry goes.
use os_sski.Common.{
  ℕ, zero, suc, ◌+◌, ◌<◌, ◌≤◌, ◌≡◌, ◌≢◌, refl, ap, ◌∙◌, ◌⊎◌, inl, inr, false, Option, none, some,
  List, [], ◌∷◌, map, arith, uint32_max, get_elem?, set, ltb, Bool-cases,
}
use os_sski.Cpu.Tlb.{
  Entry, Tlb, older, pagina_vacia, find_page, page_in_tlb, fill_empty, find_oldest, lru,
}

abbrev pub AllAtMost : ℕ → List Entry → Type 0
AllAtMost t [] = Unit
AllAtMost t (e ∷ es) = (e.tiempo_ult_acceso ≤ t) × AllAtMost t es

-- No counter is about to wrap.
abbrev pub AllCounting : List Entry → Type 0
AllCounting [] = Unit
AllCounting (e ∷ es) = (e.tiempo_ult_acceso < uint32_max) × AllCounting es

abbrev pub AllFull : List Entry → Type 0
AllFull [] = Unit
AllFull (e ∷ es) = (e.pagina ≢ pagina_vacia) × AllFull es

-- The entry `j` of `es` is a first oldest one, and older than `m`.
pub record IsOldest (m : ℕ) (es : List Entry) (j : ℕ) (e : Entry) : Type 0 where
  pub there : get_elem? es j ≡ some e
  pub beats : m < e.tiempo_ult_acceso
  pub oldest : AllAtMost e.tiempo_ult_acceso es

AllAtMost-mono : (s t : ℕ) (es : List Entry) → s ≤ t → AllAtMost s es → AllAtMost t es
AllAtMost-mono s t [] h a = tt
AllAtMost-mono s t (e ∷ es) h a = (omega arith, AllAtMost-mono s t es h a.1)

abbrev Found : ℕ → Option ℕ → ℕ → List Entry → Option ℕ → Type 0
Found i best m es r =
    ((r ≡ best) × AllAtMost m es) ⊎ ((j : ℕ) × (e : Entry) × (r ≡ some (i + j)) × IsOldest m es j e)

Found-newer :
    (i : ℕ) (best : Option ℕ) (m : ℕ) (e : Entry) (es : List Entry) (r : Option ℕ)
    → m < e.tiempo_ult_acceso
    → Found (i + 1) (some i) e.tiempo_ult_acceso es r
    → Found i best m (e ∷ es) r
Found-newer i best m e es r h (inl (eq, all)) =
    inr (0, e, ground arith, record { there = refl; beats = h; oldest = (omega arith, all) })
Found-newer i best m e es r h (inr (j, f, eq, o)) = inr (
  suc j,
  f,
  ground arith,
  record {
    there = o.there;
    beats = omega (arith, o.beats);
    oldest = (omega (arith, o.beats), o.oldest);
  },
)

Found-kept :
    (i : ℕ) (best : Option ℕ) (m : ℕ) (e : Entry) (es : List Entry) (r : Option ℕ)
    → e.tiempo_ult_acceso ≤ m
    → Found (i + 1) best m es r
    → Found i best m (e ∷ es) r
Found-kept i best m e es r h (inl (eq, all)) = inl (eq, (h, all))
Found-kept i best m e es r h (inr (j, f, eq, o)) = inr (
  suc j,
  f,
  ground arith,
  record { there = o.there; beats = o.beats; oldest = (omega (arith, o.beats), o.oldest) },
)

find_oldest-Found :
    (i : ℕ) (best : Option ℕ) (m : ℕ) (es : List Entry)
    → Found i best m es (find_oldest i best m es)
unfolding find_oldest
find_oldest-Found i best m [] = inl (refl, tt)
find_oldest-Found i best m (e ∷ es) = elim (Bool-cases (ltb m e.tiempo_ult_acceso)) [
  | inl newer ↦ rw newer (
      Found-newer i best m e es _ (ground arith)
        (find_oldest-Found (i + 1) (some i) e.tiempo_ult_acceso es))
  | inr kept ↦
      rw kept (Found-kept i best m e es _ (ground arith) (find_oldest-Found (i + 1) best m es))
]

pub fill_empty_full :
    (p f : ℕ) (es : List Entry) → AllFull es → fill_empty p f es ≡ (false, map older es)
unfolding fill_empty
fill_empty_full p f [] full = refl
fill_empty_full p f (e ∷ es) full = ground (arith, fill_empty_full p f es full.1)

-- Aging keeps the order of the counters.
get_elem-older :
    (es : List Entry) (j : ℕ) (a : Entry)
    → get_elem? (map older es) j ≡ some a
    → (e : Entry) × (get_elem? es j ≡ some e) × (a ≡ older e)
get_elem-older [] j a h = absurd (ground arith)
get_elem-older (e ∷ es) zero a h = (e, refl, ground arith)
get_elem-older (e ∷ es) (suc j) a h = get_elem-older es j a h

AllCounting-get :
    (es : List Entry) (j : ℕ) (e : Entry)
    → AllCounting es
    → get_elem? es j ≡ some e
    → e.tiempo_ult_acceso < uint32_max
AllCounting-get [] j e c h = absurd (ground arith)
AllCounting-get (x ∷ es) zero e c h = ground arith
AllCounting-get (x ∷ es) (suc j) e c h = AllCounting-get es j e c.1 h

AllAtMost-older :
    (t : ℕ) (es : List Entry) → AllCounting es → AllAtMost (t + 1) (map older es) → AllAtMost t es
AllAtMost-older t [] c a = tt
AllAtMost-older t (e ∷ es) c a = (omega (arith, a.0, c.0), AllAtMost-older t es c.1 a.1)

oldest_of :
    (e : Entry) (es : List Entry)
    → AllCounting (e ∷ es)
    → (j : ℕ) × (old : Entry) × (get_elem? (e ∷ es) j ≡ some old)
      × AllAtMost old.tiempo_ult_acceso (e ∷ es)
      × (find_oldest 0 none 0 (map older (e ∷ es)) ≡ some j)
oldest_of e es c = pick (find_oldest-Found 0 none 0 (map older (e ∷ es)))
  where
    pick :
        Found 0 none 0 (map older (e ∷ es)) (find_oldest 0 none 0 (map older (e ∷ es)))
        → (j : ℕ) × (old : Entry) × (get_elem? (e ∷ es) j ≡ some old)
          × AllAtMost old.tiempo_ult_acceso (e ∷ es)
          × (find_oldest 0 none 0 (map older (e ∷ es)) ≡ some j)
    pick (inl (_, all)) = absurd (omega (arith, all.0, c.0))
    pick (inr (j, a, found, o)) =
        let (old, there, same) = get_elem-older (e ∷ es) j a o.there in
        let small = AllCounting-get (e ∷ es) j old c there in
        let time : a.tiempo_ult_acceso ≡ old.tiempo_ult_acceso + 1 = ground arith in
        (
          j,
          old,
          there,
          AllAtMost-older old.tiempo_ult_acceso (e ∷ es) c (
              AllAtMost-mono a.tiempo_ult_acceso (old.tiempo_ult_acceso + 1) (map older (e ∷ es))
                (omega (arith, time)) o.oldest),
          found ∙ ap (λ (k : ℕ). some k) (omega arith),
        )

-- In a table that is not empty, has no free entry and no counter about to wrap, `replace_lru`
-- overwrites an entry with the largest access counter and ages the others; it never assigns through
-- an index that was not set.
pub lru-evicts-oldest :
    (t : Tlb) (p f : ℕ) (e : Entry) (es : List Entry)
    → t.entries ≡ e ∷ es
    → AllFull t.entries
    → AllCounting t.entries
    → (j : ℕ) × (old : Entry) × (get_elem? t.entries j ≡ some old)
      × AllAtMost old.tiempo_ult_acceso t.entries
      × (lru t p f
          ≡ some (record t {
            entries =
                set
                  (map older t.entries)
                  j
                  (record { pagina = p; frame = f; tiempo_ult_acceso = 0 });
          }))
unfolding lru
lru-evicts-oldest t p f e es eq full c =
    let (j, old, there, most, found) = oldest_of e es (rw eq at c) in
    (j, old, rw eq there, rw eq most, rw (lru, fill_empty_full p f t.entries full, eq, found))

-- A hit does not age the entries behind it: of a full table of two pages, after looking up the second
-- and then the first, `replace_lru` replaces the first, the most recently used.
pub lru_evicts_most_recent :
    (a b : Entry) (c f : ℕ) (t : Tlb)
    → t.entries ≡ a ∷ b ∷ []
    → AllFull t.entries
    → a.pagina ≢ b.pagina
    → let used = (page_in_tlb (page_in_tlb t b.pagina).1 a.pagina).1 in
      lru used c f
      ≡ some (record t {
        entries =
            record { pagina = c; frame = f; tiempo_ult_acceso = 0 }
            ∷ record b { tiempo_ult_acceso = 1 }
            ∷ [];
      })
unfolding lru page_in_tlb find_page fill_empty find_oldest
lru_evicts_most_recent a b c f t eq full ne = rw eq (ground arith)
