-- ===== src/Cpu/Tlb/Replace.antt =====
-- Both policies refine one map operation: the new page is bound, one old page is forgotten, and
-- every other page keeps its frame.
use os_sski.Common.{
  ℕ, zero, suc, ◌<◌, ◌≡◌, ◌≢◌, refl, ap, ◌∙◌, inl, inr, true, false, Option, none, some, List, [],
  ◌∷◌, map, arith, length, length-set, length-map, get_elem?, set, ◌==◌, if◌then◌else◌, Bool-cases,
}
use os_sski.Cpu.Tlb.{Entry, Tlb, Policy, older, pagina_vacia, fill_empty, lru, fifo, replace}
use os_sski.Cpu.Tlb.Lookup.{frame_of, Distinct, frame_of-set, set-Distinct}
use os_sski.Cpu.Tlb.Lru.{AllFull, AllCounting, lru-evicts-oldest}
use os_sski.Cpu.Tlb.Fifo.{fifo_total, fifo_result}

pub record IsTlb (t : Tlb) : Type 0 where
  pub cursor : t.next < length t.entries
  pub distinct : Distinct t.entries
  pub counting : AllCounting t.entries

-- The table `es` after `p` was bound to `f` and `victim` forgotten.
pub record Refines (p f victim : ℕ) (es fs : List Entry) : Type 0 where
  pub size : length fs ≡ length es
  pub distinct : Distinct fs
  pub view :
      (q : ℕ)
      → q ≢ pagina_vacia
      → frame_of q fs ≡ (if q == p then some f else if q == victim then none else frame_of q es)

set-Refines :
    (es : List Entry) (i : ℕ) (old new : Entry)
    → get_elem? es i ≡ some old
    → Distinct es
    → frame_of new.pagina es ≡ none
    → Refines new.pagina new.frame old.pagina es (set es i new)
set-Refines es i old new there d absent = record {
  size = length-set es i new;
  distinct = set-Distinct es i old new there d absent;
  view = λ q ne. frame_of-set q es i old new there d absent ne;
}

frame_of-older : (q : ℕ) (es : List Entry) → frame_of q (map older es) ≡ frame_of q es
frame_of-older q [] = refl
frame_of-older q (e ∷ es) = ground (arith, frame_of-older q es)

older-Distinct : (es : List Entry) → Distinct es → Distinct (map older es)
older-Distinct [] d = tt
older-Distinct (e ∷ es) d = ground (arith, older-Distinct es d.1, frame_of-older e.pagina es)

get_elem?-older :
    (es : List Entry) (i : ℕ) (e : Entry)
    → get_elem? es i ≡ some e
    → get_elem? (map older es) i ≡ some (older e)
get_elem?-older [] i e h = cc
get_elem?-older (x ∷ es) zero e h = ground arith
get_elem?-older (x ∷ es) (suc i) e h = get_elem?-older es i e h

full_of : (p f : ℕ) (es : List Entry) → (fill_empty p f es).0 ≡ false → AllFull es
unfolding fill_empty
full_of p f [] h = tt
full_of p f (e ∷ es) h = ground (arith, full_of p f es)

frame_of-fill :
    (p f q : ℕ) (es : List Entry)
    → frame_of p es ≡ none
    → p ≢ pagina_vacia
    → q ≢ pagina_vacia
    → frame_of q (fill_empty p f es).1 ≡ (
        if (fill_empty p f es).0 then (if q == p then some f else frame_of q es) else frame_of q es)
unfolding fill_empty
frame_of-fill p f q [] absent np nq = refl
frame_of-fill p f q (e ∷ es) absent np nq = ground (arith, frame_of-fill p f q es)

fill-Distinct :
    (p f : ℕ) (es : List Entry)
    → frame_of p es ≡ none
    → p ≢ pagina_vacia
    → Distinct es
    → Distinct (fill_empty p f es).1
unfolding fill_empty
fill-Distinct p f [] absent np d = tt
fill-Distinct p f (e ∷ es) absent np d =
    ground (arith, fill-Distinct p f es, frame_of-fill p f e.pagina es)

length-fill : (p f : ℕ) (es : List Entry) → length (fill_empty p f es).1 ≡ length es
unfolding fill_empty
length-fill p f [] = refl
length-fill p f (e ∷ es) = ground (arith, length-fill p f es)

abbrev Replaced : Tlb → ℕ → ℕ → Option Tlb → Type 0
Replaced t p f r = (u : Tlb) × (victim : ℕ) × (r ≡ some u) × Refines p f victim t.entries u.entries

fifo-Refines :
    (t : Tlb) (p f : ℕ) → IsTlb t → frame_of p t.entries ≡ none → Replaced t p f (fifo t p f)
fifo-Refines t p f v absent =
    let (e, there, step) = fifo_total t p f v.cursor in
    (
      fifo_result t p f e,
      e.pagina,
      step,
      set-Refines t.entries t.next e (record e { pagina = p; frame = f }) there v.distinct absent,
    )

lru_full-Refines :
    (t : Tlb) (p f : ℕ)
    → IsTlb t
    → frame_of p t.entries ≡ none
    → AllFull t.entries
    → (e : Entry) (es : List Entry) → t.entries ≡ e ∷ es
    → Replaced t p f (lru t p f)
lru_full-Refines t p f v absent full e es eq =
    let (j, old, there, _, step) = lru-evicts-oldest t p f e es eq full v.counting in
    let new : Entry = record { pagina = p; frame = f; tiempo_ult_acceso = 0 } in
    let r =
      set-Refines (map older t.entries) j (older old) new (get_elem?-older t.entries j old there)
        (older-Distinct t.entries v.distinct) (frame_of-older p t.entries ∙ absent) in
    (
      record t { entries = set (map older t.entries) j new },
      old.pagina,
      step,
      record {
        size = r.size ∙ length-map t.entries older;
        distinct = r.distinct;
        view = λ q ne. ground (arith, r.view q ne, frame_of-older q t.entries);
      },
    )

lru_filled-Refines :
    (t : Tlb) (p f : ℕ)
    → IsTlb t
    → p ≢ pagina_vacia
    → frame_of p t.entries ≡ none
    → (fill_empty p f t.entries).0 ≡ true
    → Replaced t p f (lru t p f)
unfolding lru
lru_filled-Refines t p f v np absent filled = (
  record t { entries = (fill_empty p f t.entries).1 },
  pagina_vacia,
  rw (filled, lru),
  record {
    size = length-fill p f t.entries;
    distinct = fill-Distinct p f t.entries absent np v.distinct;
    view = λ q ne. ground (arith, frame_of-fill p f q t.entries absent np ne);
  },
)

lru-Refines :
    (t : Tlb) (p f : ℕ) (es : List Entry)
    → t.entries ≡ es
    → IsTlb t
    → p ≢ pagina_vacia
    → frame_of p t.entries ≡ none
    → Replaced t p f (lru t p f)
lru-Refines t p f [] eq v np absent = absurd (omega (arith, v.cursor, ap length eq))
lru-Refines t p f (e ∷ es) eq v np absent = elim (Bool-cases (fill_empty p f t.entries).0) [
  | inl filled ↦ lru_filled-Refines t p f v np absent filled
  | inr full ↦ lru_full-Refines t p f v absent (full_of p f t.entries full) e es eq
]

-- Of a table that holds no page twice, has a cursor inside and counters that do not wrap:
-- putting in a page that misses and is not the mark of an empty entry succeeds under either
-- policy, binds the page to its frame, forgets at most one other page (`victim`), keeps every
-- other page's frame, and again holds no page twice.
pub replace-Refines :
    (t : Tlb) (p f : ℕ)
    → IsTlb t
    → p ≢ pagina_vacia
    → frame_of p t.entries ≡ none
    → (u : Tlb) × (victim : ℕ) × (replace t p f ≡ some u) × Refines p f victim t.entries u.entries
unfolding replace
replace-Refines t p f v np absent = split t.policy refl
  where
    split : (k : Policy) → t.policy ≡ k → Replaced t p f (replace t p f)
    split Policy.replace_lru e = rw (e, replace) (lru-Refines t p f t.entries refl v np absent)
    split Policy.replace_fifo e = rw (e, replace) (fifo-Refines t p f v absent)
