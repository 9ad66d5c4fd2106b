-- ===== src/CsiParams/Base64/Laws.antt =====
-- What the printer prints is base64: a decoder that is written down independently reads it back.
use app_loctag.Base.{
  ℕ, ◌+◌, ◌*◌, ◌/◌, ◌%◌, ◌^◌, ◌<◌, ◌≡◌, refl, ap, ◌∙◌, [], ◌∷◌, ◌++◌, Option, some, ◌>>=◌, arith,
  Bytes, IsByte, All, length, ◌<<<◌, bit_and, bit_or, bit_or_fields, bit_or_fields_rev,
  bit_and_mask,
}
use app_loctag.CsiParams.Base64.{base64, emit, encode}
use app_loctag.CsiParams.Base64.Decoder.{quad, decode, quad_three, quad_two, quad_one}

-- The digit that a round prints is the top six bits of 24.
top_digit : (x w : ℕ) → x / 2 ^ 18 % 64 ≡ w → base64 (bit_and (x / 2 ^ 18) 0x3f) ≡ base64 w
top_digit x w h = ap base64 (bit_and_mask 6 (x / 2 ^ 18) ∙ h)

cons_four :
    {a b c d a' b' c' d' : ℕ}
    → a ≡ a'
    → b ≡ b'
    → c ≡ c'
    → d ≡ d'
    → ◌≡◌ {A = Bytes} (a ∷ b ∷ c ∷ d ∷ []) (a' ∷ b' ∷ c' ∷ d' ∷ [])
cons_four p q r s = cc

module _ (v : ℕ) (fits : v < 2 ^ 24) where
  -- The digits of a 24-bit value, for a group of three bytes, of two and of one.
  emit_three :
      emit 4 0 24 v
      ≡ base64 (v / 2 ^ 18) ∷ base64 (v / 2 ^ 12 % 64) ∷ base64 (v / 64 % 64) ∷ base64 (v % 64) ∷ []
  unfolding emit
  emit_three =
      cons_four (top_digit v _ (omega arith)) (top_digit (v * 64 % 2 ^ 32) _ (omega arith))
        (top_digit (v * 64 % 2 ^ 32 * 64 % 2 ^ 32) _ (omega arith))
        (top_digit (v * 64 % 2 ^ 32 * 64 % 2 ^ 32 * 64 % 2 ^ 32) _ (omega arith))

  emit_two :
      emit 4 0 16 v
      ≡ base64 (v / 2 ^ 18) ∷ base64 (v / 2 ^ 12 % 64) ∷ base64 (v / 64 % 64) ∷ b'=' ∷ []
  unfolding emit
  emit_two =
      cons_four (top_digit v _ (omega arith)) (top_digit (v * 64 % 2 ^ 32) _ (omega arith))
        (top_digit (v * 64 % 2 ^ 32 * 64 % 2 ^ 32) _ (omega arith)) refl

  emit_one : emit 4 0 8 v ≡ base64 (v / 2 ^ 18) ∷ base64 (v / 2 ^ 12 % 64) ∷ b'=' ∷ b'=' ∷ []
  unfolding emit
  emit_one =
      cons_four (top_digit v _ (omega arith)) (top_digit (v * 64 % 2 ^ 32) _ (omega arith)) refl
        refl

-- The value of a group as a sum.
value_three :
    (a b c : ℕ)
    → b < 256
    → c < 256
    → bit_or (bit_or (a <<< 16) (b <<< 8)) c ≡ a * 65536 + b * 256 + c
value_three a b c hb hc =
    let two : bit_or (a * 2 ^ 16) (b * 2 ^ 8) ≡ (a * 256 + b) * 2 ^ 8 =
      omega (arith, bit_or_fields 16 a (b * 2 ^ 8) (omega arith)) in
    rw two (omega (arith, bit_or_fields 8 (a * 256 + b) c hc))

value_two : (a b : ℕ) → b < 256 → bit_or (bit_or 0 (a <<< 16)) (b <<< 8) ≡ a * 65536 + b * 256
value_two a b hb =
    let one : bit_or 0 (a * 2 ^ 16) ≡ a * 2 ^ 16 =
      omega (arith, bit_or_fields_rev 16 a 0 (omega arith)) in
    rw one (omega (arith, bit_or_fields 16 a (b * 2 ^ 8) (omega arith)))

value_one : (a : ℕ) → bit_or 0 (a <<< 16) ≡ a * 65536
value_one a = omega (arith, bit_or_fields_rev 16 a 0 (omega arith))

-- Reading one group in front of a text.
decode_group :
    (a b c d : ℕ) {group : Bytes}
    → quad a b c d ≡ some group
    → (text : Bytes)
    → decode (a ∷ b ∷ c ∷ d ∷ text) ≡ (decode text >>= λ rest. some (group ++ rest))
unfolding decode
decode_group a b c d e text =
    ap
      (λ (q : Option Bytes).
        q >>= λ (g : Bytes). decode text >>= λ (rest : Bytes). some (g ++ rest))
      e

decode_last :
    (a b c d : ℕ) {group : Bytes}
    → quad a b c d ≡ some group
    → decode (a ∷ b ∷ c ∷ d ∷ []) ≡ some (group ++ [])
unfolding decode
decode_last a b c d e = decode_group a b c d e []

three_bytes :
    {a b c a' b' c' : ℕ}
    → a ≡ a'
    → b ≡ b'
    → c ≡ c'
    → ◌≡◌ {A = Option Bytes} (some (a ∷ b ∷ c ∷ [])) (some (a' ∷ b' ∷ c' ∷ []))
three_bytes p q r = cc

two_bytes :
    {a b a' b' : ℕ}
    → a ≡ a'
    → b ≡ b'
    → ◌≡◌ {A = Option Bytes} (some (a ∷ b ∷ [])) (some (a' ∷ b' ∷ []))
two_bytes p q = cc

-- What is printed of each kind of group is read back.
quad_of_three :
    (a b c : ℕ)
    → a < 256
    → b < 256
    → c < 256
    → (text : Bytes)
    → decode (emit 4 0 24 (bit_or (bit_or (a <<< 16) (b <<< 8)) c) ++ text)
      ≡ (decode text >>= λ rest. some (a ∷ b ∷ c ∷ rest))
quad_of_three a b c ha hb hc text =
    let v = a * 65536 + b * 256 + c in
    rw (value_three a b c hb hc, emit_three v (omega arith))
      (decode_group _ _ _ _
        (quad_three (v / 2 ^ 18) (v / 2 ^ 12 % 64) (v / 64 % 64) (v % 64) (omega arith)
            (omega arith) (omega arith) (omega arith)
          ∙ three_bytes (omega arith) (omega arith) (omega arith))
        text)

decode_two :
    (a b : ℕ)
    → a < 256
    → b < 256
    → decode (emit 4 0 16 (bit_or (bit_or 0 (a <<< 16)) (b <<< 8))) ≡ some (a ∷ b ∷ [])
decode_two a b ha hb =
    let v = a * 65536 + b * 256 in
    rw (value_two a b hb, emit_two v (omega arith))
      (decode_last _ _ _ _ (
        quad_two (v / 2 ^ 18) (v / 2 ^ 12 % 64) (v / 64 % 64) (omega arith) (omega arith)
          (omega arith) (omega arith)
        ∙ two_bytes (omega arith) (omega arith)))

decode_one : (a : ℕ) → a < 256 → decode (emit 4 0 8 (bit_or 0 (a <<< 16))) ≡ some (a ∷ [])
decode_one a ha =
    let v = a * 65536 in
    rw (value_one a, emit_one v (omega arith))
      (decode_last _ _ _ _ (
        quad_one (v / 2 ^ 18) (v / 2 ^ 12 % 64) (omega arith) (omega arith) (omega arith)
        ∙ ap (λ (t : ℕ). some (t ∷ [])) (omega arith)))

encode_one : (a : ℕ) → encode (a ∷ []) ≡ emit 4 0 8 (bit_or 0 (a <<< 16))
unfolding encode
encode_one a = refl

encode_two : (a b : ℕ) → encode (a ∷ b ∷ []) ≡ emit 4 0 16 (bit_or (bit_or 0 (a <<< 16)) (b <<< 8))
unfolding encode
encode_two a b = refl

encode_three :
    (a b c : ℕ) (rest : Bytes)
    → encode (a ∷ b ∷ c ∷ rest)
      ≡ emit 4 0 24 (bit_or (bit_or (a <<< 16) (b <<< 8)) c) ++ encode rest
unfolding encode
encode_three a b c rest = refl

-- A base64 decoder by RFC 4648 gives every list of bytes back from what the printing loop of main
-- prints of it.
pub decode-encode : (bytes : Bytes) → All IsByte bytes → decode (encode bytes) ≡ some bytes
decode-encode [] h = unfold decode encode in refl
decode-encode (a ∷ []) h = rw (encode_one a) (decode_one a h.0)
decode-encode (a ∷ b ∷ []) h = rw (encode_two a b) (decode_two a b h.0 h.1.0)
decode-encode (a ∷ b ∷ c ∷ rest) (ha, (hb, (hc, h))) =
    rw (encode_three a b c rest, quad_of_three a b c ha hb hc (encode rest), decode-encode rest h)
      refl

-- Four characters for each three bytes, or part of three.
pub length-encode : (bytes : Bytes) → length (encode bytes) ≡ (length bytes + 2) / 3 * 4
unfolding encode
length-encode [] = omega arith
length-encode (a ∷ []) = omega arith
length-encode (a ∷ b ∷ []) = omega arith
length-encode (a ∷ b ∷ c ∷ rest) = omega (arith, length-encode rest)
