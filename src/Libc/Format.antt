-- ===== src/Libc/Format.antt =====
-- What `printf` makes of `%x` and of a width with a zero.
pub mod Reread
pub mod Hex
use app_loctag.Base.{
  ℕ, zero, suc, ◌-◌, ◌/◌, ◌%◌, [], ◌∷◌, ◌++◌, Bytes, length, replicate, ltb, if◌then◌else◌,
}
use app_loctag.Nexmon.Mac.{hex_digit}

-- `%x`: one round for each digit.
unfoldable pub hex_text : ℕ → ℕ → Bytes
hex_text zero n = []
hex_text (suc fuel) n =
    let high = hex_text fuel (n / 16) in (if ltb n 16 then [] else high) ++ hex_digit (n % 16) ∷ []

-- `%0<width>…` of a number that is not negative, by its digits.
abbrev pub zero_padded : ℕ → Bytes → Bytes
zero_padded width text = replicate (width - length text) b'0' ++ text

-- `%0<width>x`: eight digits are enough for 32 bits.
unfoldable pub hex_padded : ℕ → ℕ → Bytes
hex_padded width n = zero_padded width (hex_text 8 n)
