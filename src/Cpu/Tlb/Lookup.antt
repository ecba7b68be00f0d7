-- ===== src/Cpu/Tlb/Lookup.antt =====
-- The TLB seen as a partial map from pages to frames, and what looking a page up does to it.
use os_sski.Common.{
  ℕ, zero, suc, ◌≡◌, ◌≢◌, refl, Option, none, some, List, [], ◌∷◌, ◌++◌, map, arith, get_elem?, set,
  ◌==◌, if◌then◌else◌,
}
use os_sski.Cpu.Tlb.{Entry, older, pagina_vacia, find_page}

abbrev pub frame_of : ℕ → List Entry → Option ℕ
frame_of q [] = none
frame_of q (e ∷ es) = if e.pagina == q then some e.frame else frame_of q es

-- No page stands in two entries.
abbrev pub Distinct : List Entry → Type 0
Distinct [] = Unit
Distinct (e ∷ es) = (e.pagina ≢ pagina_vacia → frame_of e.pagina es ≡ none) × Distinct es

pub find_page-frame_of : (p : ℕ) (es : List Entry) → (find_page p es).0 ≡ frame_of p es
unfolding find_page
find_page-frame_of p [] = refl
find_page-frame_of p (e ∷ es) = ground (arith, find_page-frame_of p es)

pub frame_of-find_page : (p q : ℕ) (es : List Entry) → frame_of q (find_page p es).1 ≡ frame_of q es
unfolding find_page
frame_of-find_page p q [] = refl
frame_of-find_page p q (e ∷ es) = ground (arith, frame_of-find_page p q es)

pub find_page-Distinct : (p : ℕ) (es : List Entry) → Distinct es → Distinct (find_page p es).1
unfolding find_page
find_page-Distinct p [] d = tt
find_page-Distinct p (e ∷ es) d =
    ground (arith, find_page-Distinct p es d.1, frame_of-find_page p e.pagina es, d.0)

-- A hit returns the entry's frame and resets its age, ages the entries before it, and leaves those
-- behind it alone.
pub find_page_hit :
    (p : ℕ) (xs : List Entry) (e : Entry) (ys : List Entry)
    → frame_of p xs ≡ none
    → e.pagina ≡ p
    → find_page p (xs ++ e ∷ ys)
      ≡ (some e.frame, map older xs ++ record e { tiempo_ult_acceso = 0 } ∷ ys)
unfolding find_page
find_page_hit p [] e ys absent same = ground arith
find_page_hit p (x ∷ xs) e ys absent same = ground (arith, find_page_hit p xs e ys)

-- A miss ages every entry.
pub find_page_miss :
    (p : ℕ) (es : List Entry) → frame_of p es ≡ none → find_page p es ≡ (none, map older es)
unfolding find_page
find_page_miss p [] absent = refl
find_page_miss p (e ∷ es) absent = ground (arith, find_page_miss p es)

-- An entry that stands in the table makes its page present.
frame_of-get_elem :
    (es : List Entry) (i : ℕ) (e : Entry) → get_elem? es i ≡ some e → frame_of e.pagina es ≢ none
frame_of-get_elem [] i e h = cc
frame_of-get_elem (x ∷ es) zero e h = ground arith
frame_of-get_elem (x ∷ es) (suc i) e h = ground (arith, frame_of-get_elem es i e h)

-- What an overwritten entry does to the map.
pub frame_of-set :
    (q : ℕ) (es : List Entry) (i : ℕ) (old new : Entry)
    → get_elem? es i ≡ some old
    → Distinct es
    → frame_of new.pagina es ≡ none
    → q ≢ pagina_vacia
    → frame_of q (set es i new) ≡ (
        if q == new.pagina then some new.frame else if q == old.pagina then none else frame_of q es)
frame_of-set q [] i old new h d absent ne = cc
frame_of-set q (x ∷ es) zero old new h d absent ne = ground arith
frame_of-set q (x ∷ es) (suc i) old new h d absent ne =
    ground (arith, frame_of-set q es i old new h d.1, frame_of-get_elem es i old h)

pub set-Distinct :
    (es : List Entry) (i : ℕ) (old new : Entry)
    → get_elem? es i ≡ some old
    → Distinct es
    → frame_of new.pagina es ≡ none
    → Distinct (set es i new)
set-Distinct [] i old new h d absent = tt
set-Distinct (x ∷ es) zero old new h d absent = ground arith
set-Distinct (x ∷ es) (suc i) old new h d absent = ground (
  arith,
  set-Distinct es i old new h d.1,
  frame_of-set x.pagina es i old new h d.1,
  frame_of-get_elem es i old h,
)
