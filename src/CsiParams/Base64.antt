-- ===== src/CsiParams/Base64.antt =====
-- The base64 printer of Csi/makecsiparams/makecsiparams.c: `base64` and the last loop of `main`.
pub mod Decoder
pub mod Laws
use app_loctag.Base.{
  ℕ, zero, suc, ◌+◌, ◌-◌, ◌*◌, ◌≡◌, refl, List, [], ◌∷◌, ◌++◌, Bytes, codes, ltb, ◌==◌,
  if◌then◌else◌, u32, ◌<<<◌, ◌>>>◌, bit_and, bit_or,
}

-- The digit of a number below 64; any other is printed as the last digit.
unfoldable pub base64 : ℕ → ℕ
base64 val =
    if ltb val 26
    then b'A' + val
    else if ltb val 52
    then b'a' + (val - 26)
    else if ltb val 62
    then b'0' + (val - 52)
    else if val == 62
    then b'+'
    else b'/'

-- The four rounds over the value of a group: digits as far as there are bits, then `=`.
unfoldable pub emit : ℕ → ℕ → ℕ → ℕ → Bytes
emit zero kk bits val = []
emit (suc rounds) kk bits val =
    (if ltb bits kk then b'=' else base64 (bit_and (val >>> 18) 0x3f))
    ∷ emit rounds (kk + 6) bits (u32 (val <<< 6))

-- The loop over the bytes, three at a time; the last group may have one or two.
unfoldable pub encode : Bytes → Bytes
unfolding emit base64
encode [] = []
encode (a ∷ []) = emit 4 0 8 (bit_or 0 (a <<< 16))
encode (a ∷ b ∷ []) = emit 4 0 16 (bit_or (bit_or 0 (a <<< 16)) (b <<< 8))
encode (a ∷ b ∷ c ∷ rest) = emit 4 0 24 (bit_or (bit_or (a <<< 16) (b <<< 8)) c) ++ encode rest

groups :
    (encode (codes "Man") ≡ codes "TWFu")
    × (encode (codes "Ma") ≡ codes "TWE=")
    × (encode (codes "M") ≡ codes "TQ==")
unfolding encode
groups = (refl, refl, refl)
