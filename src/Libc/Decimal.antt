-- ===== src/Libc/Decimal.antt =====
-- `%d`, and the cut that `snprintf` makes.
pub mod Reread
use app_loctag.Base.{
  ℕ, zero, suc, ◌+◌, ◌-◌, ◌*◌, ◌/◌, ◌%◌, ◌^◌, ◌≤◌, ◌<◌, [], ◌∷◌, ◌++◌, ◌≡◌, refl, arith, Bytes,
  codes, ltb, if◌then◌else◌, take, ℤ, pos, negsuc,
}

-- One round for each digit.
unfoldable pub digits : ℕ → ℕ → Bytes → Bytes
digits zero n out = out
digits (suc fuel) n out =
    let rest = digits fuel (n / 10) ((b'0' + n % 10) ∷ out) in
    if ltb n 10 then (b'0' + n) ∷ out else rest

-- An `int` has ten digits at most.
unfoldable pub decimal : ℕ → Bytes
unfolding digits
decimal n = digits 10 n []

-- `%d` of an `int`.
unfoldable pub signed_decimal : ℤ → Bytes
unfolding decimal
signed_decimal (pos n) = decimal n
signed_decimal (negsuc n) = b'-' ∷ decimal (suc n)

-- What `snprintf (buf, size, …)` leaves in the buffer in front of the NUL, for a size above 0.
unfoldable pub snprintf : ℕ → Bytes → Bytes
snprintf size text = take (size - 1) text

prints : (decimal 0 ≡ codes "0") × (decimal 2147483647 ≡ codes "2147483647")
unfolding decimal
prints = (refl, refl)
