-- ===== src/Memory.antt =====
-- Reads of packed structs from memory: little-endian words at a byte offset. A read past the end of
-- the memory has no result: what the C code would do then is undefined.
pub mod Laws
use app_loctag.Base.{
  ℕ, zero, suc, ◌+◌, ◌-◌, ◌*◌, ◌^◌, List, [], ◌∷◌, Option, none, some, ◌>>=◌, Bytes, get_elem?, ltb,
  if◌then◌else◌, ℤ, pos, negsuc,
}

unfoldable pub read8 : Bytes → ℕ → Option ℕ
read8 b i = get_elem? b i

unfoldable pub read16 : Bytes → ℕ → Option ℕ
unfolding read8
read16 b i = do low ← read8 b i; high ← read8 b (i + 1); some (low + high * 256)

unfoldable pub read32 : Bytes → ℕ → Option ℕ
unfolding read16
read32 b i = do low ← read16 b i; high ← read16 b (i + 2); some (low + high * 65536)

unfoldable pub read_bytes : Bytes → ℕ → ℕ → Option Bytes
unfolding read8
read_bytes b i zero = some []
read_bytes b i (suc n) = do first ← read8 b i; rest ← read_bytes b (i + 1) n; some (first ∷ rest)

-- The value of an `int8_t` and of an `int16_t`.
abbrev pub signed8 : ℕ → ℤ
signed8 w = if ltb w 128 then pos w else negsuc (255 - w)

abbrev pub signed16 : ℕ → ℤ
signed16 w = if ltb w 32768 then pos w else negsuc (65535 - w)
