-- ===== src/McUtils/HexDump.antt =====
-- `hexDump` of Csi/mcutils.c: its output and its code. `buff` has 17 bytes, of which none is set at
-- first.
pub mod Laws
use app_loctag.Base.{
  ℕ, zero, suc, ◌+◌, ◌-◌, ◌/◌, ◌%◌, ◌||◌, Bytes, List, [], ◌∷◌, ◌++◌, Option, none, some, codes,
  ltb, ◌==◌, if◌then◌else◌, set, length, replicate, ℤ, pos, negsuc, Bool, true, false,
}
use app_loctag.Libc.Decimal.{decimal}
use app_loctag.Libc.Format.{hex_text, hex_padded}
use app_loctag.Nexmon.Mac.{hex02}

-- What stands for a byte on the right.
unfoldable pub shown : ℕ → ℕ
shown b = if ltb b 0x20 || ltb 0x7e b then b'.' else b

-- `%s` of an array: up to its first NUL.
unfoldable pub c_string : Bytes → Bytes
c_string [] = []
c_string (c ∷ rest) = let tail = c_string rest in if c == 0 then [] else c ∷ tail

-- The line that ends a row.
abbrev pub end_of_row : Bytes → Bytes
end_of_row text = codes "  " ++ (text ++ 10 ∷ [])

-- What is printed in front of the byte at an index, with the row before it as text.
unfoldable pub start_of_row : ℕ → Bytes → Bytes
unfolding hex_padded hex_text
start_of_row i text =
    if i % 16 == 0
    then (if i == 0 then [] else end_of_row text) ++ (codes "  " ++ (hex_padded 4 i ++ codes " "))
    else []

unfoldable pub store : Bytes → ℕ → ℕ → Bytes
unfolding shown
store buff i b = set (set buff (i % 16) (shown b)) (suc (i % 16)) 0

unfoldable pub pad_loop : ℕ → ℕ → Bytes
pad_loop zero i = []
pad_loop (suc fuel) i =
    let rest = pad_loop fuel (i + 1) in if i % 16 == 0 then [] else codes "   " ++ rest

-- The loop over the bytes, and what is printed behind it.
unfoldable pub dump_loop : Bytes → ℕ → Bytes → Bytes
unfolding start_of_row store c_string hex02 pad_loop
dump_loop buff i [] = pad_loop 16 i ++ end_of_row (c_string buff)
dump_loop buff i (b ∷ bytes) =
    start_of_row i (c_string buff)
    ++ (codes " " ++ (hex02 b ++ dump_loop (store buff i b) (i + 1) bytes))

-- The line in front of the dump, if there is a description.
unfoldable pub title : Option Bytes → ℕ → Bytes
unfolding decimal
title (some text) len = text ++ (codes " (" ++ (decimal len ++ (codes " bytes):" ++ 10 ∷ [])))
title none len = []

-- A length is that of the bytes at the address, so it is not negative.
unfoldable pub hex_dump : Bytes → Option Bytes → Bytes → Bytes × ℤ
unfolding dump_loop title
hex_dump buff desc bytes =
    if length bytes == 0
    then (title desc (length bytes) ++ (codes "  ZERO LENGTH" ++ 10 ∷ []), negsuc 0)
    else (title desc (length bytes) ++ dump_loop buff 0 bytes, pos 0)
