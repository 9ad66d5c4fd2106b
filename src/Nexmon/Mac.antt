-- ===== src/Nexmon/Mac.antt =====
-- `MACSTR` and `MAC2STR`: an address in hexadecimal, as `sprintf` prints it.
use app_loctag.Base.{ℕ, ◌+◌, ◌-◌, ◌/◌, ◌%◌, [], ◌∷◌, ◌++◌, Bytes, ltb, if◌then◌else◌}

abbrev pub hex_digit : ℕ → ℕ
hex_digit d = if ltb d 10 then b'0' + d else b'a' + (d - 10)

-- `%02x` of a byte.
unfoldable pub hex02 : ℕ → Bytes
hex02 byte = hex_digit (byte / 16) ∷ hex_digit (byte % 16) ∷ []

unfoldable pub mac_text : Bytes → Bytes
unfolding hex02
mac_text [] = []
mac_text (a ∷ []) = hex02 a
mac_text (a ∷ mac) = hex02 a ++ b':' ∷ mac_text mac
