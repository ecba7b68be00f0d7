-- ===== src/Memory/Store.antt =====
-- The words of the main memory: write_in_memory and read_from_memory of
-- memory/src/module/os_memory.c. `none` is an access outside the memory.
use os_sski.Common.{
  ℕ, zero, suc, ◌+◌, ◌≤◌, ◌<◌, ◌≡◌, refl, ◌⊎◌, inl, inr, Option, none, some, [], ◌∷◌, ◌++◌, arith,
  u32_mod, ◌>>=◌, length, length-append, length-drop, drop, leb, if◌then◌else◌,
}
use os_sski.Wire.Word.{Bytes, put_u32, get_u32, get_u32-put_u32_small, length-put_u32}

-- memcpy(memory + address, src, size), inside the memory
unfoldable pub overwrite : ℕ → Bytes → Bytes → Bytes
overwrite zero src dst = src ++ drop (length src) dst
overwrite (suc a) src [] = []
overwrite (suc a) src (d ∷ dst) = d ∷ overwrite a src dst

unfoldable pub write_in_memory : Bytes → ℕ → ℕ → Option Bytes
unfolding overwrite
write_in_memory memory address value =
    if leb (address + 4) (length memory)
    then some (overwrite address (put_u32 value) memory)
    else none

unfoldable pub read_from_memory : Bytes → ℕ → Option ℕ
read_from_memory memory address = do (value, _) ← get_u32 (drop address memory); some value

drop-overwrite :
    (a : ℕ) (src dst : Bytes)
    → a ≤ length dst
    → drop a (overwrite a src dst) ≡ src ++ drop (length src) (drop a dst)
unfolding overwrite
drop-overwrite zero src dst h = refl
drop-overwrite (suc a) src [] h = absurd (omega arith)
drop-overwrite (suc a) src (d ∷ dst) h = drop-overwrite a src dst (omega arith)

pub length-overwrite :
    (a : ℕ) (src dst : Bytes)
    → a + length src ≤ length dst
    → length (overwrite a src dst) ≡ length dst
unfolding overwrite
length-overwrite zero src dst h =
    omega (arith, length-append src (drop (length src) dst), length-drop (length src) dst)
length-overwrite (suc a) src [] h = absurd (omega arith)
length-overwrite (suc a) src (d ∷ dst) h = omega (arith, length-overwrite a src dst)

pub length-write_in_memory :
    (memory memory' : Bytes) (address value : ℕ)
    → write_in_memory memory address value ≡ some memory'
    → length memory' ≡ length memory
unfolding write_in_memory
length-write_in_memory memory memory' address value h =
    ground (arith, length-overwrite address (put_u32 value) memory, length-put_u32 value)

-- Behind what is overwritten.
drop_behind :
    (b a v : ℕ) (dst : Bytes)
    → a + 4 ≤ b
    → a + 4 ≤ length dst
    → drop b (overwrite a (put_u32 v) dst) ≡ drop b dst
unfolding overwrite put_u32
drop_behind (suc (suc (suc (suc b)))) zero v (w ∷ x ∷ y ∷ z ∷ dst) h k = refl
drop_behind (suc b) (suc a) v (d ∷ dst) h k = drop_behind b a v dst (omega arith) (omega arith)
drop_behind b a v dst h k = absurd (omega arith)

-- Before what is overwritten.
read_before :
    (b a v : ℕ) (dst : Bytes)
    → b + 4 ≤ a
    → a + 4 ≤ length dst
    → read_from_memory (overwrite a (put_u32 v) dst) b ≡ read_from_memory dst b
unfolding overwrite read_from_memory get_u32
read_before zero (suc (suc (suc (suc a)))) v (w ∷ x ∷ y ∷ z ∷ dst) h k = refl
read_before (suc b) (suc a) v (d ∷ dst) h k = read_before b a v dst (omega arith) (omega arith)
read_before b a v dst h k = absurd (omega arith)

-- Writing a word inside the memory succeeds; the word is read back at its address, and every word
-- that does not overlap it is read as before.
pub read_from_memory-write_in_memory :
    (memory : Bytes) (address value : ℕ)
    → address + 4 ≤ length memory
    → value < u32_mod
    → (memory' : Bytes) × (write_in_memory memory address value ≡ some memory')
      × (read_from_memory memory' address ≡ some value)
      × ((other : ℕ)
          → (other + 4 ≤ address) ⊎ (address + 4 ≤ other)
          → read_from_memory memory' other ≡ read_from_memory memory other)
unfolding write_in_memory read_from_memory
read_from_memory-write_in_memory memory a v h small = (
  overwrite a (put_u32 v) memory,
  ground arith,
  rw (
    drop-overwrite a (put_u32 v) memory (omega arith),
    get_u32-put_u32_small v (drop (length (put_u32 v)) (drop a memory)) small,
  ),
  λ other apart. elim apart [
    | inl before ↦ read_before other a v memory before h
    | inr behind ↦ rw (drop_behind other a v memory behind h)
  ],
)
