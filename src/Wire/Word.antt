-- ===== src/Wire/Word.antt =====
-- The `memcpy` of a four-byte word into and out of a stream, used by all of lib's serializers.
use os_sski.Common.{
  ℕ, ◌+◌, ◌*◌, ◌/◌, ◌%◌, ◌<◌, ◌≡◌, refl, ap, Option, none, some, List, [], ◌∷◌, ◌++◌, arith,
  u32_mod, length,
}

abbrev pub Bytes : Type 0
Bytes = List ℕ

-- memcpy(stream + offset, &n, 4)
unfoldable pub put_u32 : ℕ → Bytes
put_u32 n = n % 256 ∷ n / 256 % 256 ∷ n / 65536 % 256 ∷ n / 16777216 % 256 ∷ []

-- memcpy(&n, stream + offset, 4), with the rest of the stream.
unfoldable pub get_u32 : Bytes → Option (ℕ × Bytes)
get_u32 (a ∷ b ∷ c ∷ d ∷ rest) = some (a + 256 * b + 65536 * c + 16777216 * d, rest)
get_u32 _ = none

-- A word that is written is read back, low 32 bits only.
pub get_u32-put_u32 :
    (n : ℕ) (rest : Bytes) → get_u32 (put_u32 n ++ rest) ≡ some (n % u32_mod, rest)
unfolding get_u32 put_u32
get_u32-put_u32 n rest = ap (λ (k : ℕ). some (k, rest)) (omega arith)

pub get_u32-put_u32_small :
    (n : ℕ) (rest : Bytes) → n < u32_mod → get_u32 (put_u32 n ++ rest) ≡ some (n, rest)
unfolding get_u32 put_u32
get_u32-put_u32_small n rest h = ap (λ (k : ℕ). some (k, rest)) (omega arith)

pub length-put_u32 : (n : ℕ) → length (put_u32 n) ≡ 4
unfolding put_u32
length-put_u32 n = refl
