-- ===== src/Cpu/Tlb/Fifo.antt =====
-- `replace_fifo`: a cursor that goes round the table.
use os_sski.Common.{
  ℕ, zero, suc, ◌+◌, ◌%◌, ◌<◌, ◌≡◌, refl, ap, ◌∙◌, inl, inr, Bool-cases, Option, some, List, [],
  ◌∷◌, arith, ◌>>=◌, length, length-set, get_elem?, set, ltb, if◌then◌else◌,
}
use os_sski.Cpu.Tlb.{Entry, Tlb, fifo}

pub get_elem?_of_lt {ℓ} :
    {A : Type ℓ} (xs : List A) (i : ℕ) → i < length xs → (a : A) × (get_elem? xs i ≡ some a)
get_elem?_of_lt [] i h = elim h [ ]
get_elem?_of_lt (x ∷ xs) zero h = (x, refl)
get_elem?_of_lt (x ∷ xs) (suc i) h = get_elem?_of_lt xs i (omega arith)

abbrev pub fifo_result : Tlb → ℕ → ℕ → Entry → Tlb
fifo_result t p f e = record t {
  entries = set t.entries t.next (record e { pagina = p; frame = f });
  next = if ltb (t.next + 1) (length t.entries) then t.next + 1 else 0;
}

pub fifo_total :
    (t : Tlb) (p f : ℕ)
    → t.next < length t.entries
    → (e : Entry) × (get_elem? t.entries t.next ≡ some e)
      × (fifo t p f ≡ some (fifo_result t p f e))
unfolding fifo
fifo_total t p f h =
    let (e, there) = get_elem?_of_lt t.entries t.next h in (e, there, rw (there, fifo))

wrap_next : (n m k : ℕ) → n < k → ((if ltb (n + 1) k then n + 1 else 0) + m) % k ≡ (n + suc m) % k
wrap_next n m k h = elim (Bool-cases (ltb (n + 1) k)) [
  | inl inside ↦ rw inside (ap (λ (x : ℕ). x % k) (omega arith))
  | inr wraps ↦ let e : n + suc m ≡ m + k = ground arith in rw (wraps, e) (grind arith)
]

-- `tlb->replace` of a list of misses.
unfoldable pub fifo_run : Tlb → List (ℕ × ℕ) → Option Tlb
fifo_run t [] = some t
fifo_run t ((p, f) ∷ misses) = do t ← fifo t p f; fifo_run t misses

-- From a cursor inside the table, any number of replacements succeeds; the table keeps its size and
-- the cursor has gone on by that many slots, round the table.
pub fifo_run-next :
    (misses : List (ℕ × ℕ)) (t : Tlb)
    → t.next < length t.entries
    → (u : Tlb) × (fifo_run t misses ≡ some u)
      × (length u.entries ≡ length t.entries)
      × (u.next ≡ (t.next + length misses) % length t.entries)
unfolding fifo_run
fifo_run-next [] t h = (t, refl, refl, grind arith)
fifo_run-next ((p, f) ∷ misses) t h =
    let (e, there, step) = fifo_total t p f h in
    let size = length-set t.entries t.next (record e { pagina = p; frame = f }) in
    let (u, run, same, cursor) =
      fifo_run-next misses (fifo_result t p f e) (ground (arith, size)) in
    (
      u,
      rw step run,
      same ∙ size,
      cursor ∙ rw size (wrap_next t.next (length misses) (length t.entries) h),
    )
