-- ===== src/Libc/Format/Hex.antt =====
-- `strtoul` reads back what `0x%04x` prints.
use native.Mathlib.Nat.{pow-suc}
use app_loctag.Base.{
  ℕ, zero, suc, ◌-◌, ◌/◌, ◌%◌, ◌^◌, ◌≤◌, ◌<◌, ◌≡◌, refl, false, true, [], ◌∷◌, ◌++◌, append_assoc,
  arith, Bytes, byte_at, length, replicate, ltb, ltb→lt, lt→ltb, ◌∙◌, Bool-cases, inl, inr, ap,
  if◌then◌else◌,
}
use app_loctag.Libc.Scan.{
  digit_value, scan_digits, scan_number, number_from, digits_of, base_of, skip_sign, strtoul,
  has_hex_prefix, strtoul-eq, skip_space, ulong_max,
}
use app_loctag.Nexmon.Mac.{hex_digit}
use app_loctag.Libc.Format.{hex_text, hex_padded}
use app_loctag.Libc.Format.Reread.{
  scan-zeros, Begins, Begins-shorter, padded-Begins, strtoul_value_pos, scan_stops,
}

pub digit_value-hex_digit : (d : ℕ) → d < 16 → digit_value (hex_digit d) ≡ d
unfolding digit_value
digit_value-hex_digit d h = ground arith

scan_hex_last :
    (n : ℕ) (rest : Bytes)
    → scan_digits 16 (hex_digit (n % 16) ∷ rest) (n / 16) ≡ scan_digits 16 rest n
unfolding scan_digits
scan_hex_last n rest =
    rw (digit_value-hex_digit (n % 16) (omega arith), lt→ltb (n % 16) 16 (omega arith))
      (ap (scan_digits 16 rest) (omega arith))

scan-hex_text :
    (fuel n : ℕ) (rest : Bytes)
    → n < 16 ^ fuel
    → scan_digits 16 (hex_text fuel n ++ rest) 0 ≡ scan_digits 16 rest n
unfolding hex_text
scan-hex_text zero n rest h = ap (scan_digits 16 rest) (omega arith)
scan-hex_text (suc fuel) n rest h = elim (Bool-cases (ltb n 16)) [
  | inl last ↦
      let small = ltb→lt n 16 last in
      rw last (ap (scan_digits 16 (hex_digit (n % 16) ∷ rest)) (omega arith) ∙ scan_hex_last n rest)
  | inr more ↦
      rw (more, append_assoc (hex_text fuel (n / 16)) (hex_digit (n % 16) ∷ []) rest)
        (scan-hex_text fuel (n / 16) (hex_digit (n % 16) ∷ rest) (omega (arith, pow-suc 16 fuel))
          ∙ scan_hex_last n rest)
]

hex_digit-Begins : (n : ℕ) (rest : Bytes) → Begins 16 (hex_digit (n % 16) ∷ rest) rest
hex_digit-Begins n rest = record {
  head = hex_digit (n % 16);
  tail = rest;
  parts = refl;
  digit = rw (digit_value-hex_digit (n % 16) (omega arith)) (omega arith);
  longer = omega arith;
}

hex_text-Begins : (fuel n : ℕ) (rest : Bytes) → Begins 16 (hex_text (suc fuel) n ++ rest) rest
unfolding hex_text
hex_text-Begins zero n rest = elim (Bool-cases (ltb n 16)) [
  | inl last ↦ rw last (hex_digit-Begins n rest)
  | inr more ↦ rw more (hex_digit-Begins n rest)
]
hex_text-Begins (suc fuel) n rest = elim (Bool-cases (ltb n 16)) [
  | inl last ↦ rw last (hex_digit-Begins n rest)
  | inr more ↦
      rw (more, append_assoc (hex_text (suc fuel) (n / 16)) (hex_digit (n % 16) ∷ []) rest)
        (Begins-shorter (hex_text-Begins fuel (n / 16) (hex_digit (n % 16) ∷ rest)))
]

-- Behind `0x`, where a digit follows.
has_prefix : (c : ℕ) (s : Bytes) → digit_value c < 16 → has_hex_prefix (b'0' ∷ b'x' ∷ c ∷ s) ≡ true
unfolding has_hex_prefix
has_prefix c s h = rw (lt→ltb (digit_value c) 16 h) refl

number_from_hex :
    (c : ℕ) (s text : Bytes) {v : ℕ} {rest : Bytes}
    → length rest ≤ length s
    → number_from (b'0' ∷ text) (b'0' ∷ text) (c ∷ s) (v, rest)
      ≡ record { negative = false; magnitude = v; rest = rest }
unfolding number_from
number_from_hex c s text shorter = ground arith

scan_number_zero :
    (text : Bytes)
    → scan_number 0 text
      ≡ number_from text (skip_space text) (digits_of 0 (skip_sign (skip_space text))) (
          scan_digits
            (base_of 0 (skip_sign (skip_space text)))
            (digits_of 0 (skip_sign (skip_space text)))
            0)
unfolding scan_number
scan_number_zero text = refl

skip_space_zero : (s : Bytes) → skip_space (b'0' ∷ s) ≡ b'0' ∷ s
unfolding skip_space
skip_space_zero s = refl

skip_sign_zero : (s : Bytes) → skip_sign (b'0' ∷ s) ≡ b'0' ∷ s
unfolding skip_sign
skip_sign_zero s = refl

base_of_hex : (c : ℕ) (s : Bytes) → digit_value c < 16 → base_of 0 (b'0' ∷ b'x' ∷ c ∷ s) ≡ 16
unfolding base_of
base_of_hex c s small = ap (λ hex. if hex then 16 else 8) (has_prefix c s small)

digits_of_hex : (c : ℕ) (s : Bytes) → digit_value c < 16 → digits_of 0 (b'0' ∷ b'x' ∷ c ∷ s) ≡ c ∷ s
unfolding digits_of
digits_of_hex c s small =
    ap (λ hex. if hex then c ∷ s else b'0' ∷ b'x' ∷ c ∷ s) (has_prefix c s small)

scan_number_hex :
    (c : ℕ) (s : Bytes)
    → digit_value c < 16
    → scan_number 0 (b'0' ∷ b'x' ∷ c ∷ s)
      ≡ number_from (b'0' ∷ b'x' ∷ c ∷ s) (b'0' ∷ b'x' ∷ c ∷ s) (c ∷ s) (scan_digits 16 (c ∷ s) 0)
scan_number_hex c s small =
    rw
      (
        scan_number_zero (b'0' ∷ b'x' ∷ c ∷ s),
        skip_space_zero (b'x' ∷ c ∷ s),
        skip_sign_zero (b'x' ∷ c ∷ s),
        base_of_hex c s small,
        digits_of_hex c s small,
      )
      refl

strtoul_hex :
    (text : Bytes) {v : ℕ} {rest : Bytes}
    → Begins 16 text rest
    → v ≤ ulong_max
    → scan_digits 16 text 0 ≡ (v, rest)
    → strtoul 0 (b'0' ∷ b'x' ∷ text) ≡ (v, rest)
strtoul_hex text {v} {rest} b fits scanned =
    let number : scan_number 0 (b'0' ∷ b'x' ∷ b.head ∷ b.tail)
        ≡ record { negative = false; magnitude = v; rest = rest } =
      rw (scan_number_hex b.head b.tail b.digit, rw b.parts at scanned)
        (number_from_hex b.head b.tail (b'x' ∷ b.head ∷ b.tail) b.longer) in
    rw b.parts (
      strtoul-eq 0 (b'0' ∷ b'x' ∷ b.head ∷ b.tail) number
      ∙ ap (λ (t : ℕ). (t, rest)) (strtoul_value_pos v rest fits))

hex_padded-append :
    (width n : ℕ) (rest : Bytes)
    → hex_padded width n ++ rest
      ≡ replicate (width - length (hex_text 8 n)) b'0' ++ (hex_text 8 n ++ rest)
unfolding hex_padded
hex_padded-append width n rest =
    append_assoc (replicate (width - length (hex_text 8 n)) b'0') (hex_text 8 n) rest

-- A number in base 16 that does not go on is read back whole.
pub strtoul-hex_padded :
    (width n : ℕ) (rest : Bytes)
    → n < 2 ^ 32
    → 16 ≤ digit_value (byte_at rest 0)
    → strtoul 0 (b'0' ∷ b'x' ∷ (hex_padded width n ++ rest)) ≡ (n, rest)
strtoul-hex_padded width n rest fits stops =
    let zeros = width - length (hex_text 8 n) in
    rw (hex_padded-append width n rest) (
      strtoul_hex (replicate zeros b'0' ++ (hex_text 8 n ++ rest))
        (padded-Begins 16 zeros (hex_text 8 n) rest (omega arith) (hex_text-Begins 7 n rest))
        (omega arith)
        (scan-zeros 16 zeros (hex_text 8 n ++ rest) (omega arith)
          ∙ scan-hex_text 8 n rest (omega arith)
          ∙ scan_stops 16 rest n stops))
