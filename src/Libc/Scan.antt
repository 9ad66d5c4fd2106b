-- ===== src/Libc/Scan.antt =====
-- `strtoul` and `strtol` with a 32-bit `long`, as on armeabi, the one ABI that the app is built
-- for; and `tolower`.
use app_loctag.Base.{
  arith, ◌<◌, ℕ, ◌+◌, ◌-◌, ◌*◌, ◌^◌, Bool, false, ◌&&◌, ◌||◌, [], ◌∷◌, ◌≡◌, refl, ap, Bytes, codes,
  ltb, leb, ◌==◌, if◌then◌else◌, u32, byte_at, drop, length, ℤ, pos, negsuc,
}

abbrev pub ulong_max : ℕ
ulong_max = 2 ^ 32 - 1

abbrev pub long_max : ℕ
long_max = 2 ^ 31 - 1

unfoldable pub tolower : ℕ → ℕ
tolower c = if leb b'A' c && leb c b'Z' then c + 32 else c

unfoldable pub is_space : ℕ → Bool
is_space c = c == b' ' || (leb 9 c && leb c 13)

-- The value of a digit in the bases up to 36, and 36 for any other byte.
unfoldable pub digit_value : ℕ → ℕ
digit_value c =
    if leb b'0' c && leb c b'9'
    then c - b'0'
    else if leb b'a' c && leb c b'z'
    then c - b'a' + 10
    else if leb b'A' c && leb c b'Z'
    then c - b'A' + 10
    else 36

unfoldable pub skip_space : Bytes → Bytes
unfolding is_space
skip_space [] = []
skip_space (c ∷ s) = if is_space c then skip_space s else c ∷ s

-- The digits that stand in front, with no bound on their value, and what follows them.
unfoldable pub scan_digits : ℕ → Bytes → ℕ → ℕ × Bytes
unfolding digit_value
scan_digits base [] acc = (acc, [])
scan_digits base (c ∷ s) acc =
    let rest = scan_digits base s (acc * base + digit_value c) in
    if ltb (digit_value c) base then rest else (acc, c ∷ s)

-- A number in front of a text: its sign, its magnitude, and the text behind it.
pub record Number : Type 0 where
  pub negative : Bool
  pub magnitude : ℕ
  pub rest : Bytes

unfoldable pub has_sign : Bytes → Bool
has_sign s = byte_at s 0 == b'+' || byte_at s 0 == b'-'

-- Behind `0x` there must be a hexadecimal digit for the prefix to count.
unfoldable pub has_hex_prefix : Bytes → Bool
unfolding tolower digit_value
has_hex_prefix s =
    byte_at s 0 == b'0' && tolower (byte_at s 1) == b'x' && ltb (digit_value (byte_at s 2)) 16

-- Base 0 reads the base off the prefix, as in C.
unfoldable pub base_of : ℕ → Bytes → ℕ
unfolding has_hex_prefix
base_of base s =
    if base == 0
    then (if has_hex_prefix s then 16 else if byte_at s 0 == b'0' then 8 else 10)
    else base

unfoldable pub digits_of : ℕ → Bytes → Bytes
unfolding has_hex_prefix
digits_of base s = if (base == 0 || base == 16) && has_hex_prefix s then drop 2 s else s

unfoldable pub skip_sign : Bytes → Bytes
unfolding has_sign
skip_sign s = if has_sign s then drop 1 s else s

-- Without a digit nothing is read: the text behind is the whole text.
unfoldable pub number_from : Bytes → Bytes → Bytes → ℕ × Bytes → Number
number_from text trimmed s number =
    if length number.1 == length s
    then record { negative = false; magnitude = 0; rest = text }
    else record { negative = byte_at trimmed 0 == b'-'; magnitude = number.0; rest = number.1 }

unfoldable pub scan_number : ℕ → Bytes → Number
unfolding skip_space scan_digits skip_sign base_of digits_of number_from
scan_number base text =
    let trimmed = skip_space text in
    let s = skip_sign trimmed in
    number_from text trimmed (digits_of base s) (scan_digits (base_of base s) (digits_of base s) 0)

-- In base 10 there is no prefix.
pub scan_number_ten :
    (text : Bytes)
    → scan_number 10 text
      ≡ number_from text
          (skip_space text)
          (skip_sign (skip_space text))
          (scan_digits 10 (skip_sign (skip_space text)) 0)
unfolding scan_number
scan_number_ten text = refl

-- `strtoul (text, &endp, base)`: the value, and the text from `endp` on.
unfoldable pub strtoul_value : Number → ℕ
strtoul_value n =
    if ltb ulong_max n.magnitude
    then ulong_max
    else if n.negative
    then u32 (2 ^ 32 - n.magnitude)
    else n.magnitude

unfoldable pub strtoul : ℕ → Bytes → ℕ × Bytes
unfolding scan_number strtoul_value
strtoul base text = (strtoul_value (scan_number base text), (scan_number base text).rest)

pub strtoul-eq :
    (base : ℕ) (text : Bytes) {n : Number}
    → scan_number base text ≡ n
    → strtoul base text ≡ (strtoul_value n, n.rest)
unfolding strtoul
strtoul-eq base text e = ap (λ (n : Number). (strtoul_value n, n.rest)) e

-- `strtol (text, &endp, base)`.
unfoldable pub strtol : ℕ → Bytes → ℤ × Bytes
unfolding scan_number
strtol base text =
    let n = scan_number base text in
    (
      (if n.negative
          then (if ltb long_max n.magnitude
              then negsuc long_max
              else if n.magnitude == 0
              then pos 0
              else negsuc (n.magnitude - 1))
          else if ltb long_max n.magnitude
          then pos long_max
          else pos n.magnitude),
      n.rest,
    )

reads :
    (strtoul 10 (codes " 36/80") ≡ (36, codes "/80")) × (strtoul 10 (codes "g") ≡ (0, codes "g"))
unfolding strtoul
reads = (refl, refl)

wraps :
    (strtoul 10 (codes "-1") ≡ (2 ^ 32 - 1, []))
    × (strtoul 10 (codes "99999999999") ≡ (2 ^ 32 - 1, []))
unfolding strtoul
wraps = (refl, refl)

bases : (strtol 0 (codes "0x5") ≡ (pos 5, [])) × (strtol 0 (codes "-010x") ≡ (negsuc 7, codes "x"))
unfolding strtol
bases = (refl, refl)

-- A result fits the type.
pub strtoul-lt : (base : ℕ) (text : Bytes) → (strtoul base text).0 < 2 ^ 32
unfolding strtoul_value
strtoul-lt base text =
    rw (strtoul-eq base text refl)
      (go (scan_number base text).magnitude (scan_number base text).negative)
  where
    go :
        (magnitude : ℕ) (negative : Bool)
        → (if ltb ulong_max magnitude
            then ulong_max
            else if negative
            then u32 (2 ^ 32 - magnitude)
            else magnitude)
          < 2 ^ 32
    go magnitude negative = ground arith
