-- ===== src/Capture/Log/Parts.antt =====
-- What Csi/csiutil.c prints of addresses, signed numbers and halves, with readers of it and their laws.
use app_loctag.Base.{
  ℕ, suc, ◌+◌, ◌-◌, ◌*◌, ◌/◌, ◌%◌, ◌≡◌, ◌<◌, ◌^◌, refl, ap, arith, zero, [], ◌∷◌, ◌++◌,
  append_assoc, Option, none, some, ◌>>=◌, Bytes, byte_at, false, ◌≤◌, codes, length, replicate,
  ◌==◌, ◌&&◌, ltb, lt→ltb, Bool, true, Bool-cases, inl, inr, if◌then◌else◌, ℤ, pos, negsuc,
}
use app_loctag.Memory.{signed8}
use app_loctag.Libc.Scan.{strtoul, digit_value, skip_space}
use app_loctag.Libc.Decimal.{decimal, signed_decimal}
use app_loctag.Libc.Decimal.Reread.{
  strtoul-decimal, skip_space-spaces, skip_space-decimal, decimal_head,
}
use app_loctag.Libc.Format.Hex.{digit_value-hex_digit}
use app_loctag.Nexmon.Mac.{hex_digit, mac_text}
use app_loctag.Nexmon.Dot11Rt.Sent.{Mac, mac_bytes}
use app_loctag.Capture.Log.{halves_text}
use app_loctag.Capture.Log.Reader.{expect}

-- Two hexadecimal digits.
read_octet : Bytes → Option (ℕ × Bytes)
read_octet [] = none
read_octet (c ∷ []) = none
read_octet (c ∷ d ∷ s) =
    if ltb (digit_value c) 16 && ltb (digit_value d) 16
    then some (digit_value c * 16 + digit_value d, s)
    else none

pub read_mac : Bytes → Option (Bytes × Bytes)
read_mac s = do
  (a, s) ← read_octet s
  s ← expect (codes ":") s
  (b, s) ← read_octet s
  s ← expect (codes ":") s
  (c, s) ← read_octet s
  s ← expect (codes ":") s
  (d, s) ← read_octet s
  s ← expect (codes ":") s
  (e, s) ← read_octet s
  s ← expect (codes ":") s
  (f, s) ← read_octet s
  some (a ∷ b ∷ c ∷ d ∷ e ∷ f ∷ [], s)

negated : ℕ → ℤ
negated zero = pos 0
negated (suc n) = negsuc n

-- A number with a sign or without.
pub read_int : Bytes → ℤ × Bytes
read_int [] = (pos 0, [])
read_int (c ∷ s) =
    if c == b'-'
    then (negated (strtoul 10 s).0, (strtoul 10 s).1)
    else (pos (strtoul 10 (c ∷ s)).0, (strtoul 10 (c ∷ s)).1)

-- A number with `.0` or `.5`, as a number of halves.
read_point : ℕ → Bytes → Option (ℕ × Bytes)
read_point n [] = none
read_point n (c ∷ s) =
    if c == b'0' then some (n * 2, s) else if c == b'5' then some (n * 2 + 1, s) else none

pub read_halves : Bytes → Option (ℕ × Bytes)
read_halves s = do
  (n, s) ← some (strtoul 10 (skip_space s))
  s ← expect (codes ".") s
  read_point n s

-- What is printed of an octet is read back.
read_octet-hex02 :
    (a : ℕ) (s : Bytes)
    → a < 256
    → read_octet (hex_digit (a / 16) ∷ hex_digit (a % 16) ∷ s) ≡ some (a, s)
unfolding read_octet
read_octet-hex02 a s small =
    rw
      (
        digit_value-hex_digit (a / 16) (omega arith),
        digit_value-hex_digit (a % 16) (omega arith),
        lt→ltb (a / 16) 16 (omega arith),
        lt→ltb (a % 16) 16 (omega arith),
      )
      (ap (λ (v : ℕ). some (v, s)) (omega arith))

unfoldable pub IsMac : Mac → Type 0
IsMac mac =
    let (a, b, c, d, e, f) = mac in
    (a < 256) × (b < 256) × (c < 256) × (d < 256) × (e < 256) × (f < 256)

pub read_mac-mac_text :
    (mac : Mac) (s : Bytes)
    → IsMac mac
    → read_mac (mac_text (mac_bytes mac) ++ s) ≡ some (mac_bytes mac, s)
unfolding read_mac mac_text IsMac
read_mac-mac_text (a, b, c, d, e, f) s (ha, hb, hc, hd, he, hf) =
    rw
      (
        read_octet-hex02 a _ ha,
        read_octet-hex02 b _ hb,
        read_octet-hex02 c _ hc,
        read_octet-hex02 d _ hd,
        read_octet-hex02 e _ he,
        read_octet-hex02 f s hf,
      )
      refl

-- A number is read back in front of a text that does not go on with a digit.
not_minus : (d : ℕ) → (b'0' + d == b'-') ≡ false
not_minus d = ground arith

read_int-decimal :
    (n : ℕ) (s : Bytes)
    → n < 2 ^ 32
    → 10 ≤ digit_value (byte_at s 0)
    → read_int (decimal n ++ s) ≡ (pos n, s)
unfolding read_int
read_int-decimal n s fits stops =
    let (d, tail, e) = decimal_head n s fits in
    let number = strtoul-decimal n s fits stops in rw (e, not_minus d, rw e at number) refl

read_int-signed_decimal :
    (w : ℕ) (s : Bytes)
    → w < 256
    → 10 ≤ digit_value (byte_at s 0)
    → read_int (signed_decimal (signed8 w) ++ s) ≡ (signed8 w, s)
unfolding read_int signed_decimal negated
read_int-signed_decimal w s small stops = elim (Bool-cases (ltb w 128)) [
  | inl positive ↦ rw positive (read_int-decimal w s (omega arith) stops)
  | inr negative ↦ rw (negative, strtoul-decimal (suc (255 - w)) s (omega arith) stops) refl
]

read_point-half :
    (n : ℕ) (s : Bytes) → read_point (n / 2) ((if n % 2 == 0 then b'0' else b'5') ∷ s) ≡ some (n, s)
unfolding read_point
read_point-half n s = ground arith

pointed : ℕ → Bytes → Bytes
pointed n s = b'.' ∷ (if n % 2 == 0 then b'0' else b'5') ∷ s

halves_text-append :
    (n : ℕ) (s : Bytes)
    → (spaces : ℕ) × (halves_text n ++ s
        ≡ replicate spaces b' ' ++ (decimal (n / 2) ++ pointed n s))
unfolding halves_text pointed
halves_text-append n s = go (n % 2 == 0)
  where
    go :
        (even : Bool)
        → (spaces : ℕ) × (replicate
                (4 - length (decimal (n / 2) ++ (if even then codes ".0" else codes ".5")))
                b' '
              ++ (decimal (n / 2) ++ (if even then codes ".0" else codes ".5"))
              ++ s
            ≡ replicate spaces b' '
              ++ (decimal (n / 2) ++ (b'.' ∷ (if even then b'0' else b'5') ∷ s)))
    go true = (4 - length (decimal (n / 2) ++ codes ".0"), simp (append_assoc {A = ℕ}))
    go false = (4 - length (decimal (n / 2) ++ codes ".5"), simp (append_assoc {A = ℕ}))

pub read_halves-halves_text :
    (n : ℕ) (s : Bytes) → n < 256 → read_halves (halves_text n ++ s) ≡ some (n, s)
unfolding read_halves pointed digit_value
read_halves-halves_text n s small =
    let (spaces, e) = halves_text-append n s in
    rw
      (
        e,
        skip_space-spaces spaces (decimal (n / 2) ++ pointed n s),
        skip_space-decimal (n / 2) (pointed n s) (omega arith),
        strtoul-decimal (n / 2) (pointed n s) (omega arith) (omega arith),
      )
      (read_point-half n s)

-- What stands behind the numbers.
module _ (n : ℕ) (s : Bytes) where
  pub freq_space : n < 2 ^ 16 → strtoul 10 (decimal n ++ b' ' ∷ s) ≡ (n, b' ' ∷ s)
  unfolding digit_value
  freq_space small = strtoul-decimal n (b' ' ∷ s) (omega arith) (omega arith)

  pub signal_slash :
      n < 256 → read_int (signed_decimal (signed8 n) ++ b'/' ∷ s) ≡ (signed8 n, b'/' ∷ s)
  unfolding digit_value
  signal_slash small = read_int-signed_decimal n (b'/' ∷ s) small (omega arith)

  pub noise_space :
      n < 256 → read_int (signed_decimal (signed8 n) ++ b' ' ∷ s) ≡ (signed8 n, b' ' ∷ s)
  unfolding digit_value
  noise_space small = read_int-signed_decimal n (b' ' ∷ s) small (omega arith)
