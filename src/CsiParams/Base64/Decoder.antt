-- ===== src/CsiParams/Base64/Decoder.antt =====
-- A decoder of base64 by RFC 4648, written down independently of the printer.
use app_loctag.Base.{
  ℕ, ◌+◌, ◌-◌, ◌*◌, ◌/◌, ◌%◌, ◌<◌, ◌≡◌, false, refl, [], ◌∷◌, ◌++◌, Option, none, some, ◌&&◌, ◌>>=◌,
  arith, Bytes, leb, ◌==◌, if◌then◌else◌,
}
use app_loctag.CsiParams.Base64.{base64}

sextet : ℕ → Option ℕ
sextet c =
    if leb b'A' c && leb c b'Z'
    then some (c - b'A')
    else if leb b'a' c && leb c b'z'
    then some (c - b'a' + 26)
    else if leb b'0' c && leb c b'9'
    then some (c - b'0' + 52)
    else if c == b'+'
    then some 62
    else if c == b'/'
    then some 63
    else none

-- One group of four characters: three bytes, or two before one `=`, or one before two. The bits
-- that a padded group leaves over must be 0.
pub quad : ℕ → ℕ → ℕ → ℕ → Option Bytes
quad a b c d = (do
  p ← sextet a
  q ← sextet b
  let first = p * 4 + q / 16
  if c == b'=' && d == b'=' then (if q % 16 == 0 then some (first ∷ []) else none) else (do
    r ← sextet c
    let second = q % 16 * 16 + r / 4
    if d == b'='
        then (if r % 4 == 0 then some (first ∷ second ∷ []) else none)
        else (do s ← sextet d; some (first ∷ second ∷ (r % 4 * 64 + s) ∷ []))))

unfoldable pub decode : Bytes → Option Bytes
decode [] = some []
decode (a ∷ b ∷ c ∷ d ∷ text) = do group ← quad a b c d; rest ← decode text; some (group ++ rest)
decode _ = none

sextet-base64 : (v : ℕ) → v < 64 → sextet (base64 v) ≡ some v
unfolding sextet base64
sextet-base64 v h = ground arith

base64-ne : (v : ℕ) → (base64 v == b'=') ≡ false
unfolding base64
base64-ne v = ground arith

pub quad_three :
    (p q r s : ℕ)
    → p < 64
    → q < 64
    → r < 64
    → s < 64
    → quad (base64 p) (base64 q) (base64 r) (base64 s)
      ≡ some ((p * 4 + q / 16) ∷ (q % 16 * 16 + r / 4) ∷ (r % 4 * 64 + s) ∷ [])
unfolding quad
quad_three p q r s hp hq hr hs =
    rw
      (
        sextet-base64 p hp,
        sextet-base64 q hq,
        base64-ne r,
        sextet-base64 r hr,
        base64-ne s,
        sextet-base64 s hs,
      )
      refl

pub quad_two :
    (p q r : ℕ)
    → p < 64
    → q < 64
    → r < 64
    → r % 4 ≡ 0
    → quad (base64 p) (base64 q) (base64 r) b'='
      ≡ some ((p * 4 + q / 16) ∷ (q % 16 * 16 + r / 4) ∷ [])
unfolding quad
quad_two p q r hp hq hr z =
    rw (sextet-base64 p hp, sextet-base64 q hq, base64-ne r, sextet-base64 r hr, z) refl

pub quad_one :
    (p q : ℕ)
    → p < 64
    → q < 64
    → q % 16 ≡ 0
    → quad (base64 p) (base64 q) b'=' b'=' ≡ some ((p * 4 + q / 16) ∷ [])
unfolding quad
quad_one p q hp hq z = rw (sextet-base64 p hp, sextet-base64 q hq, z) refl
