-- ===== src/Libc/Decimal/Reread.antt =====
-- `strtoul` reads back what `%d` prints.
use native.Mathlib.Nat.{pow-suc}
use app_loctag.Base.{
  ℕ, zero, suc, ◌+◌, ◌-◌, length-append, append_assoc, replicate, ◌/◌, ◌%◌, ◌^◌, ◌≤◌, ◌<◌, ◌≡◌,
  refl, false, [], ◌∷◌, ◌++◌, arith, Bytes, byte_at, length, ltb, ltb→lt, lt→ltb, ◌∙◌, Bool-cases,
  inl, inr, ap,
}
use app_loctag.Libc.Scan.{
  digit_value, scan_digits, scan_number, scan_number_ten, number_from, skip_sign, strtoul,
  strtoul-eq, skip_space, ulong_max,
}
use app_loctag.Libc.Format.{zero_padded}
use app_loctag.Libc.Format.Reread.{scan-zeros, scan_stops, strtoul_value_pos}
use app_loctag.Libc.Decimal.{digits, decimal}

digit_value_digit : (d : ℕ) → d < 10 → digit_value (b'0' + d) ≡ d
unfolding digit_value
digit_value_digit d h = ground arith

scan_last :
    (n : ℕ) (out : Bytes) → scan_digits 10 ((b'0' + n % 10) ∷ out) (n / 10) ≡ scan_digits 10 out n
unfolding scan_digits
scan_last n out =
    rw (digit_value_digit (n % 10) (omega arith), lt→ltb (n % 10) 10 (omega arith))
      (ap (scan_digits 10 out) (omega arith))

scan-digits :
    (fuel n : ℕ) (out : Bytes)
    → n < 10 ^ fuel
    → scan_digits 10 (digits fuel n out) 0 ≡ scan_digits 10 out n
unfolding scan_digits digits
scan-digits zero n out h = ap (scan_digits 10 out) (omega arith)
scan-digits (suc fuel) n out h = elim (Bool-cases (ltb n 10)) [
  | inl last ↦
      rw (last, digit_value_digit n (ltb→lt n 10 last), last)
        (ap (scan_digits 10 out) (omega arith))
  | inr more ↦ rw more (
      scan-digits fuel (n / 10) ((b'0' + n % 10) ∷ out) (omega (arith, pow-suc 10 fuel))
      ∙ scan_last n out)
]

digits-append :
    (fuel n : ℕ) (out rest : Bytes) → digits fuel n out ++ rest ≡ digits fuel n (out ++ rest)
unfolding digits
digits-append zero n out rest = refl
digits-append (suc fuel) n out rest =
    ground (arith, digits-append fuel (n / 10) ((b'0' + n % 10) ∷ out) rest)

-- What is printed begins with a digit.
digits_head :
    (fuel n : ℕ) (out : Bytes)
    → n < 10 ^ suc fuel
    → (d : ℕ) × (s : Bytes) × (digits (suc fuel) n out ≡ (b'0' + d) ∷ s)
      × (d < 10)
      × (length out ≤ length s)
unfolding digits
digits_head zero n out h = (n, out, ground arith, omega arith, omega arith)
digits_head (suc fuel) n out h = elim (Bool-cases (ltb n 10)) [
  | inl last ↦ (n, out, rw last refl, ltb→lt n 10 last, omega arith)
  | inr more ↦
      let (d, s, e, small, longer) =
        digits_head fuel (n / 10) ((b'0' + n % 10) ∷ out) (omega (arith, pow-suc 10 (suc fuel))) in
      (d, s, rw more e, small, omega arith)
]

decimal-append : (n : ℕ) (rest : Bytes) → decimal n ++ rest ≡ digits 10 n rest
unfolding decimal
decimal-append n rest = digits-append 10 n [] rest

skip_space_digit : (d : ℕ) (s : Bytes) → d < 10 → skip_space ((b'0' + d) ∷ s) ≡ (b'0' + d) ∷ s
unfolding skip_space
skip_space_digit d s small = ground arith

skip_sign_digit : (d : ℕ) (s : Bytes) → d < 10 → skip_sign ((b'0' + d) ∷ s) ≡ (b'0' + d) ∷ s
unfolding skip_sign
skip_sign_digit d s small = ground arith

number_from_digits :
    (d : ℕ) (s : Bytes) {v : ℕ} {rest : Bytes}
    → d < 10
    → length rest ≤ length s
    → number_from ((b'0' + d) ∷ s) ((b'0' + d) ∷ s) ((b'0' + d) ∷ s) (v, rest)
      ≡ record { negative = false; magnitude = v; rest = rest }
unfolding number_from
number_from_digits d s small shorter = ground arith

-- A number that begins with a digit is read with no sign, no prefix and no space.
strtoul_digits :
    (d : ℕ) (s : Bytes) {v : ℕ} {rest : Bytes}
    → d < 10
    → v ≤ ulong_max
    → length rest ≤ length s
    → scan_digits 10 ((b'0' + d) ∷ s) 0 ≡ (v, rest)
    → strtoul 10 ((b'0' + d) ∷ s) ≡ (v, rest)
strtoul_digits d s {v} {rest} small fits shorter scanned =
    let whole = (b'0' + d) ∷ s in
    let number : scan_number 10 whole ≡ record { negative = false; magnitude = v; rest = rest } =
      rw (scan_number_ten whole, skip_space_digit d s small, skip_sign_digit d s small, scanned)
        (number_from_digits d s small shorter) in
    strtoul-eq 10 whole number ∙ ap (λ (t : ℕ). (t, rest)) (strtoul_value_pos v rest fits)

-- In front of a text that does not go on with a digit, the printed number is read back whole.
pub strtoul-decimal :
    (n : ℕ) (rest : Bytes)
    → n < 2 ^ 32
    → 10 ≤ digit_value (byte_at rest 0)
    → strtoul 10 (decimal n ++ rest) ≡ (n, rest)
strtoul-decimal n rest fits stops =
    let (d, s, e, small, longer) = digits_head 9 n rest (omega arith) in
    let scanned = scan-digits 10 n rest (omega arith) ∙ scan_stops 10 rest n stops in
    rw (decimal-append n rest, e) (strtoul_digits d s small (omega arith) longer (rw e at scanned))

-- Spaces in front of a number are skipped, and no digit.
pub skip_space-spaces : (k : ℕ) (s : Bytes) → skip_space (replicate k b' ' ++ s) ≡ skip_space s
unfolding skip_space
skip_space-spaces zero s = refl
skip_space-spaces (suc k) s = skip_space-spaces k s

pub skip_space-decimal :
    (n : ℕ) (rest : Bytes) → n < 2 ^ 32 → skip_space (decimal n ++ rest) ≡ decimal n ++ rest
skip_space-decimal n rest fits =
    let (d, s, e, small, longer) = digits_head 9 n rest (omega arith) in
    rw (decimal-append n rest, e) (skip_space_digit d s small)

-- What is printed does not begin with a sign.
pub decimal_head :
    (n : ℕ) (rest : Bytes)
    → n < 2 ^ 32
    → (d : ℕ) × (s : Bytes) × (decimal n ++ rest ≡ (b'0' + d) ∷ s)
decimal_head n rest fits =
    let (d, s, e, small, longer) = digits_head 9 n rest (omega arith) in
    (d, s, decimal-append n rest ∙ e)

pub decimal-longer : (n : ℕ) (rest : Bytes) → n < 2 ^ 32 → length rest < length (decimal n ++ rest)
decimal-longer n rest fits =
    let (d, s, e, small, longer) = digits_head 9 n rest (omega arith) in
    rw (decimal-append n rest, e) (omega arith)

-- The same with zeros in front.
strtoul_zeros :
    (k n : ℕ) (rest : Bytes)
    → n < 2 ^ 32
    → 10 ≤ digit_value (byte_at rest 0)
    → strtoul 10 (replicate k b'0' ++ (decimal n ++ rest)) ≡ (n, rest)
strtoul_zeros zero n rest fits stops = strtoul-decimal n rest fits stops
strtoul_zeros (suc k) n rest fits stops =
    let scanned : scan_digits 10 (decimal n ++ rest) 0 ≡ (n, rest) =
      rw (decimal-append n rest)
        (scan-digits 10 n rest (omega arith) ∙ scan_stops 10 rest n stops) in
    strtoul_digits 0 (replicate k b'0' ++ (decimal n ++ rest)) (omega arith) (omega arith)
      (omega
        (arith, length-append (replicate k b'0') (decimal n ++ rest), decimal-longer n rest fits))
      (scan-zeros 10 (suc k) (decimal n ++ rest) (omega arith) ∙ scanned)

pub strtoul-decimal_padded :
    (width n : ℕ) (rest : Bytes)
    → n < 2 ^ 32
    → 10 ≤ digit_value (byte_at rest 0)
    → strtoul 10 (zero_padded width (decimal n) ++ rest) ≡ (n, rest)
strtoul-decimal_padded width n rest fits stops =
    let zeros = width - length (decimal n) in
    rw (append_assoc (replicate zeros b'0') (decimal n) rest)
      (strtoul_zeros zeros n rest fits stops)
