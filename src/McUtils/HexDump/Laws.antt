-- ===== src/McUtils/HexDump/Laws.antt =====
-- The buffer of `hexDump` holds the row that is being printed, whatever was in it before.
use app_loctag.Base.{
  ℕ, zero, suc, ◌+◌, ◌-◌, ◌%◌, ◌≤◌, ◌<◌, ◌≡◌, ◌≢◌, ◌⊎◌, inl, inr, refl, sym, ap, ◌∙◌, Bytes, [],
  ◌∷◌, ◌++◌, arith, codes, ◌==◌, if◌then◌else◌, set, length, length-set, length-append, true, false,
  Bool-cases, Option, pos, negsuc,
}
use app_loctag.Nexmon.Mac.{hex02}
use app_loctag.McUtils.HexDump.{
  shown, c_string, end_of_row, start_of_row, store, pad_loop, dump_loop, title, hex_dump,
}

-- The buffer starts with a text without a NUL; it starts with a text and its NUL.
data Starts : Bytes → Bytes → Type 0 where
  any : (rest : Bytes) → Starts [] rest
  with : (c : ℕ) {text rest : Bytes} → c ≢ 0 → Starts text rest → Starts (c ∷ text) (c ∷ rest)

data Holds : Bytes → Bytes → Type 0 where
  ends : (rest : Bytes) → Holds [] (0 ∷ rest)
  goes_on : (c : ℕ) {text rest : Bytes} → c ≢ 0 → Holds text rest → Holds (c ∷ text) (c ∷ rest)

Holds-Starts : (text buff : Bytes) → Holds text buff → Starts text buff
Holds-Starts [] buff (ends rest) = any (0 ∷ rest)
Holds-Starts (c ∷ text) buff (goes_on _ nonzero h) = with c nonzero (Holds-Starts text _ h)

one_char : (c : ℕ) (tail : Bytes) → c ≢ 0 → (if c == 0 then [] else c ∷ tail) ≡ c ∷ tail
one_char c tail h = elim (Bool-cases (c == 0)) [
  | inl is_nul ↦ absurd (h (ground arith))
  | inr other ↦ rw other refl
]

c_string-Holds : (text buff : Bytes) → Holds text buff → c_string buff ≡ text
unfolding c_string
c_string-Holds [] buff (ends rest) = refl
c_string-Holds (c ∷ text) buff (goes_on _ nonzero h) =
    one_char c _ nonzero ∙ ap (λ (t : Bytes). c ∷ t) (c_string-Holds text _ h)

shown-nonzero : (b : ℕ) → shown b ≢ 0
unfolding shown
shown-nonzero b = λ h. ground arith

-- A character behind the text, and the NUL behind it.
append-Holds :
    (text buff : Bytes) (c : ℕ)
    → c ≢ 0
    → Starts text buff
    → length text + 1 < length buff
    → Holds (text ++ c ∷ []) (set (set buff (length text) c) (suc (length text)) 0)
append-Holds [] (x ∷ y ∷ rest) c nonzero h room = goes_on c nonzero (ends rest)
append-Holds [] (x ∷ []) c nonzero h room = absurd (omega arith)
append-Holds [] [] c nonzero h room = absurd (omega arith)
append-Holds (a ∷ text) buff c nonzero (with _ positive h) room =
    goes_on a positive (append-Holds text _ c nonzero h (omega arith))

blanks : ℕ → Bytes
blanks zero = []
blanks (suc n) = codes "   " ++ blanks n

pad_loop-blanks : (fuel i n : ℕ) → n ≤ fuel → n ≡ (16 - i % 16) % 16 → pad_loop fuel i ≡ blanks n
unfolding pad_loop blanks
pad_loop-blanks zero i zero h e = refl
pad_loop-blanks zero i (suc n) h e = absurd (omega arith)
pad_loop-blanks (suc fuel) i zero h e =
    let done : (i % 16 == 0) ≡ true = ground arith in rw done refl
pad_loop-blanks (suc fuel) i (suc n) h e =
    let more : (i % 16 == 0) ≡ false = ground arith in
    rw (more, pad_loop-blanks fuel (i + 1) n (omega arith) (omega arith)) refl

-- The rows with no buffer: 16 bytes each, in hexadecimal and as text, the last one filled up.
unfoldable next_row : ℕ → Bytes → ℕ → Bytes
next_row i row b = (if i % 16 == 0 then [] else row) ++ shown b ∷ []

unfoldable pub dump_rows : ℕ → Bytes → Bytes → Bytes
unfolding blanks next_row
dump_rows i row [] = blanks ((16 - i % 16) % 16) ++ end_of_row row
dump_rows i row (b ∷ bytes) =
    start_of_row i row ++ (codes " " ++ (hex02 b ++ dump_rows (i + 1) (next_row i row b) bytes))

store_first :
    (buff row : Bytes) (i b : ℕ)
    → length buff ≡ 17
    → i % 16 ≡ 0
    → Holds (next_row i row b) (store buff i b)
unfolding store next_row
store_first buff row i b long first =
    let test : (i % 16 == 0) ≡ true = ground arith in
    rw (test, first) (append-Holds [] buff (shown b) (shown-nonzero b) (any buff) (omega arith))

store_later :
    (buff row : Bytes) (i b : ℕ)
    → length buff ≡ 17
    → length row ≡ i % 16
    → Holds row buff
    → (i % 16 == 0) ≡ false
    → Holds (next_row i row b) (store buff i b)
unfolding store next_row
store_later buff row i b long at h later =
    rw (later, sym at)
      (append-Holds row buff (shown b) (shown-nonzero b) (Holds-Starts row buff h)
        (omega (arith, at)))

-- The row behind the bytes before an index is in the buffer, and has its length, unless it is full.
record Inv (i : ℕ) (row buff : Bytes) : Type 0 where
  long : length buff ≡ 17
  held : (i ≡ 0) ⊎ Holds row buff
  filled : (i % 16 ≡ 0) ⊎ (length row ≡ i % 16)

length-next_row :
    (i : ℕ) (row : Bytes) (b : ℕ)
    → (i % 16 ≡ 0) ⊎ (length row ≡ i % 16)
    → ((i + 1) % 16 ≡ 0) ⊎ (length (next_row i row b) ≡ (i + 1) % 16)
unfolding next_row
length-next_row i row b h = elim (Bool-cases (i % 16 == 0)) [
  | inl first ↦ inr (rw first (wrapped (ground arith)))
  | inr later ↦ elim h [
    | inl first ↦ absurd (ground arith)
    | inr at ↦ elim (Bool-cases ((i + 1) % 16 == 0)) [
      | inl full ↦ inl (ground arith)
      | inr more ↦ inr (rw later (next (length-append row (shown b ∷ [])) at (ground arith)))
    ]
  ]
]
  where
    wrapped : i % 16 ≡ 0 → 1 ≡ (i + 1) % 16
    wrapped e = omega arith

    next : {n k : ℕ} → n ≡ k + 1 → k ≡ i % 16 → (i + 1) % 16 ≢ 0 → n ≡ (i + 1) % 16
    next e at more = omega arith

length-store : (buff : Bytes) (i b : ℕ) → length (store buff i b) ≡ length buff
unfolding store
length-store buff i b =
    length-set (set buff (i % 16) (shown b)) (suc (i % 16)) 0 ∙ length-set buff (i % 16) (shown b)

store-Inv :
    (i : ℕ) (row buff : Bytes) (b : ℕ)
    → Inv i row buff
    → Inv (i + 1) (next_row i row b) (store buff i b)
store-Inv i row buff b v = record {
  long = length-store buff i b ∙ v.long;
  held = inr (elim (Bool-cases (i % 16 == 0)) [
    | inl first ↦ store_first buff row i b v.long (ground arith)
    | inr later ↦ elim v.filled [
      | inl first ↦ absurd (ground arith)
      | inr at ↦ elim v.held [
        | inl start ↦ absurd (ground arith)
        | inr h ↦ store_later buff row i b v.long at h later
      ]
    ]
  ]);
  filled = length-next_row i row b v.filled;
}

dump_loop-nil :
    (buff : Bytes) (i : ℕ) → dump_loop buff i [] ≡ pad_loop 16 i ++ end_of_row (c_string buff)
unfolding dump_loop
dump_loop-nil buff i = refl

dump_loop-cons :
    (buff : Bytes) (i b : ℕ) (bytes : Bytes)
    → dump_loop buff i (b ∷ bytes)
      ≡ start_of_row i (c_string buff)
        ++ (codes " " ++ (hex02 b ++ dump_loop (store buff i b) (i + 1) bytes))
unfolding dump_loop
dump_loop-cons buff i b bytes = refl

-- Nothing of the row before is printed at the first byte.
start_of_row_zero : (text text' : Bytes) → start_of_row 0 text ≡ start_of_row 0 text'
unfolding start_of_row
start_of_row_zero text text' = refl

start-Inv :
    (i : ℕ) (row buff : Bytes)
    → Inv i row buff
    → start_of_row i (c_string buff) ≡ start_of_row i row
start-Inv i row buff v = elim v.held [
  | inl start ↦ rw start (start_of_row_zero (c_string buff) row)
  | inr h ↦ ap (start_of_row i) (c_string-Holds row buff h)
]

dump_loop-dump_rows :
    (bytes : Bytes) (i : ℕ) (row buff : Bytes)
    → 0 < i + length bytes
    → Inv i row buff
    → dump_loop buff i bytes ≡ dump_rows i row bytes
unfolding dump_rows
dump_loop-dump_rows [] i row buff some_byte v = elim v.held [
  | inl start ↦ absurd (omega (arith, start))
  | inr h ↦
      rw
        (
          dump_loop-nil buff i,
          pad_loop-blanks 16 i ((16 - i % 16) % 16) (omega arith) refl,
          c_string-Holds row buff h,
        )
        refl
]
dump_loop-dump_rows (b ∷ bytes) i row buff some_byte v =
    rw
      (
        dump_loop-cons buff i b bytes,
        start-Inv i row buff v,
        dump_loop-dump_rows bytes (i + 1) (next_row i row b) (store buff i b) (omega arith)
            (store-Inv i row buff b v),
      )
      refl

hex_dump-eq :
    (buff : Bytes) (desc : Option Bytes) (bytes : Bytes)
    → hex_dump buff desc bytes ≡ (
        if length bytes == 0
        then (title desc (length bytes) ++ (codes "  ZERO LENGTH" ++ 10 ∷ []), negsuc 0)
        else (title desc (length bytes) ++ dump_loop buff 0 bytes, pos 0))
unfolding hex_dump
hex_dump-eq buff desc bytes = refl

-- For a buffer of 17 bytes that is not set and at least one byte to dump, hexDump prints the title
-- and the rows that dump_rows makes without a buffer: what was in the buffer does not matter, and
-- no more is printed of it than the row.
pub hex_dump-dump_rows :
    (buff : Bytes) (desc : Option Bytes) (bytes : Bytes)
    → length buff ≡ 17
    → 0 < length bytes
    → hex_dump buff desc bytes ≡ (title desc (length bytes) ++ dump_rows 0 [] bytes, pos 0)
hex_dump-dump_rows buff desc bytes long some_byte =
    let some_length : (length bytes == 0) ≡ false = ground arith in
    let start : Inv 0 [] buff = record { long = long; held = inl refl; filled = inl refl } in
    rw
      (
        hex_dump-eq buff desc bytes,
        some_length,
        dump_loop-dump_rows bytes 0 [] buff (omega arith) start,
      )
      refl
