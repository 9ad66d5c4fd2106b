-- ===== src/Base/Bits.antt =====
-- Words: casts, shifts, and `&` and `|` on fields of bits as arithmetic, at every width.
mod Step
use Step.{bit_or_step, bit_and_step}
use Prim.Native.Nat.{ℕ, zero, suc, ◌+◌, ◌-◌, ◌*◌, ◌/◌, ◌%◌, ◌^◌, ◌≤◌, ◌<◌, bit_and, bit_or}
use mathlib.Core.Path.{◌≡◌, refl, sym, ap, ◌∙◌}
use mathlib.Core.Logic.{◌⊎◌}
use mathlib.Core.WellFounded
use native.Mathlib.Nat.{
  pow-suc, one-le-pow, div-div-eq-div-mul, div-one, div-add-mod', mod-lt, mod-one, mod-eq_of_lt,
  add-mul-mod_self_right,
}
use native.Mathlib.Omega.{arith}
use app_loctag.Base.Order.{lt_wf}

abbrev pub u8 : ℕ → ℕ
u8 n = n % 2 ^ 8

abbrev pub u16 : ℕ → ℕ
u16 n = n % 2 ^ 16

abbrev pub u32 : ℕ → ℕ
u32 n = n % 2 ^ 32

infixl 75 ◌<<<◌ ◌>>>◌
abbrev pub ◌<<<◌ : ℕ → ℕ → ℕ
x <<< k = x * 2 ^ k

abbrev pub ◌>>>◌ : ℕ → ℕ → ℕ
x >>> k = x / 2 ^ k

-- `a - b` in `unsigned int`, for operands that fit 32 bits.
abbrev pub sub32 : ℕ → ℕ → ℕ
sub32 a b = u32 (a + 2 ^ 32 - b)

-- A number is what its lowest digit and the digits above it make.
by_halves {ℓ} : (P : ℕ → Type ℓ) → P 0 → ((n : ℕ) → P (suc n / 2) → P (suc n)) → (n : ℕ) → P n
by_halves P base up n = WellFounded.induction lt_wf {C = P} n λ m below. step m below
  where
    step : (m : ℕ) → ((k : ℕ) → k < m → P k) → P m
    step zero below = base
    step (suc m) below = up m (below (suc m / 2) (omega arith))

bit_or-zero : (x : ℕ) → bit_or x 0 ≡ x
bit_or-zero =
    by_halves (λ x. bit_or x 0 ≡ x) refl λ x half. omega (arith, bit_or_step (suc x) 0, half)

zero-bit_or : (x : ℕ) → bit_or 0 x ≡ x
zero-bit_or =
    by_halves (λ x. bit_or 0 x ≡ x) refl λ x half. omega (arith, bit_or_step 0 (suc x), half)

bit_and-zero : (x : ℕ) → bit_and x 0 ≡ 0
bit_and-zero =
    by_halves (λ x. bit_and x 0 ≡ 0) refl λ x half. omega (arith, bit_and_step (suc x) 0, half)

shift_once : (k x : ℕ) → x <<< suc k ≡ (x <<< k) * 2
shift_once k x = let twice = pow-suc 2 k in omega (arith, ap (λ (p : ℕ). x * p) twice)

-- A field above bit `k` and a number below it: `|` is their sum, on either side.
pub bit_or_fields_rev :
    (k high low : ℕ) → low < 2 ^ k → bit_or low (high * 2 ^ k) ≡ high * 2 ^ k + low
bit_or_fields_rev (suc k) high low small = ground (
  arith,
  bit_or_fields_rev k high (low / 2) (omega arith),
  shift_once k high,
  bit_or_step low (high * 2 ^ suc k),
)
bit_or_fields_rev zero high low small = ground (arith, zero-bit_or high)

pub bit_or_fields : (k high low : ℕ) → low < 2 ^ k → bit_or (high * 2 ^ k) low ≡ high * 2 ^ k + low
bit_or_fields (suc k) high low small = ground (
  arith,
  bit_or_fields k high (low / 2) (omega arith),
  shift_once k high,
  bit_or_step (high * 2 ^ suc k) low,
)
bit_or_fields zero high low small = ground (arith, bit_or-zero high)

-- A remainder by `2 ^ (k + 1)` and the lowest digit.
mod_two : (k n : ℕ) → n % 2 ^ suc k ≡ n / 2 % 2 ^ k * 2 + n % 2
mod_two k n =
    let r = n / 2 % 2 ^ k in
    let q = n / 2 / 2 ^ k in
    let split : n ≡ r * 2 + n % 2 + q * 2 ^ suc k =
      omega (arith, div-add-mod' (n / 2) (2 ^ k), shift_once k q) in
    let small : r * 2 + n % 2 < 2 ^ suc k = omega (
      arith,
      one-le-pow k 2,
      pow-suc 2 k,
      mod-lt (n / 2) {m = 2 ^ k} (one-le-pow k 2 (omega arith)),
    ) in
    ap (λ (t : ℕ). t % 2 ^ suc k) split
    ∙ add-mul-mod_self_right (r * 2 + n % 2) q (2 ^ suc k)
    ∙ mod-eq_of_lt small

-- A mask of the `k` low bits is the remainder by `2 ^ k`.
pub bit_and_mask : (k x : ℕ) → bit_and x (2 ^ k - 1) ≡ x % 2 ^ k
bit_and_mask zero x = rw (bit_and-zero x, mod-one x) refl
bit_and_mask (suc k) x =
    let ones : (2 ^ suc k - 1) / 2 ≡ 2 ^ k - 1 = omega (arith, pow-suc 2 k, one-le-pow k 2) in
    rw (bit_and_step x (2 ^ suc k - 1), ones, bit_and_mask k (x / 2), mod_two k x)
      (omega (arith, pow-suc 2 k, one-le-pow k 2 (omega arith)))

-- A mask shifted up by one bit reads the number shifted down.
bit_and_double : (a m : ℕ) → bit_and a (m * 2) ≡ bit_and (a / 2) m * 2
bit_and_double a m =
    let half : m * 2 / 2 ≡ m = omega arith in
    omega (arith, bit_and_step a (m * 2), ap (bit_and (a / 2)) half)

-- A mask of bits from `k` on: the field keeps its place.
pub bit_and_high : (k a m : ℕ) → bit_and a (m * 2 ^ k) ≡ bit_and (a / 2 ^ k) m * 2 ^ k
bit_and_high zero a m = ground arith
bit_and_high (suc k) a m =
    let regroup : m * 2 ^ suc k ≡ m * 2 ^ k * 2 = omega (arith, shift_once k m) in
    let halves : a / 2 / 2 ^ k ≡ a / 2 ^ suc k =
      div-div-eq-div-mul a 2 (2 ^ k) ∙ ap (λ (t : ℕ). a / t) (omega (arith, pow-suc 2 k)) in
    rw (regroup, bit_and_double, bit_and_high k (a / 2) m, halves)
      (omega (arith, shift_once k (bit_and (a / 2 ^ suc k) m)))

-- The high digits of `a | b` are those of the two numbers, joined.
pub bit_or-div : (k a b : ℕ) → bit_or a b / 2 ^ k ≡ bit_or (a / 2 ^ k) (b / 2 ^ k)
bit_or-div zero a b = rw (div-one (bit_or a b), div-one a, div-one b)
bit_or-div (suc k) a b =
    let halves : (n : ℕ) → n / 2 ^ suc k ≡ n / 2 / 2 ^ k = λ n.
      sym (div-div-eq-div-mul n 2 (2 ^ k) ∙ ap (λ (t : ℕ). n / t) (omega (arith, pow-suc 2 k))) in
    rw (halves (bit_or a b), halves a, halves b, ← bit_or-div k (a / 2) (b / 2))
      (ap (λ (t : ℕ). t / 2 ^ k) (omega (arith, bit_or_step a b)))

-- Two digits that are set on one side are set in the result.
pub bit_or_ones : (a b : ℕ) → (a % 4 ≡ 3) ⊎ (b % 4 ≡ 3) → bit_or a b % 4 ≡ 3
bit_or_ones a b h = omega (arith, bit_or_step a b, bit_or_step (a / 2) (b / 2))

-- So are the low digits.
pub bit_or-mod : (k a b : ℕ) → bit_or a b % 2 ^ k ≡ bit_or (a % 2 ^ k) (b % 2 ^ k)
bit_or-mod zero a b = rw (mod-one (bit_or a b), mod-one a, mod-one b) refl
bit_or-mod (suc k) a b =
    let half : bit_or a b / 2 ≡ bit_or (a / 2) (b / 2) = omega (arith, bit_or_step a b) in
    let half_a : a % 2 ^ suc k / 2 ≡ a / 2 % 2 ^ k = omega (arith, mod_two k a) in
    let half_b : b % 2 ^ suc k / 2 ≡ b / 2 % 2 ^ k = omega (arith, mod_two k b) in
    rw
      (
        mod_two k (bit_or a b),
        half,
        bit_or-mod k (a / 2) (b / 2),
        bit_or_step (a % 2 ^ suc k) (b % 2 ^ suc k),
        half_a,
        half_b,
      )
      (omega (arith, bit_or_step a b, mod_two k a, mod_two k b))
