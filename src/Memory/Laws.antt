-- ===== src/Memory/Laws.antt =====
-- A read within the memory has a result, and finds what was stored.
use app_loctag.Base.{
  ℕ, zero, suc, ◌+◌, ◌*◌, ◌/◌, ◌%◌, ◌≤◌, ◌<◌, ◌≡◌, refl, ap, [], ◌∷◌, ◌++◌, none, some, arith,
  Bytes, ◌∙◌, take, drop, take-append-drop, length-take, get_elem?-within, get_elem?-past, length,
  All, IsByte,
}
use mathlib.Core.Option.{some-injective}
use mathlib.Core.Path.{subst}
use native.Mathlib.Nat.{suc-add, zero-add, add_assoc}
use app_loctag.Memory.{read8, read16, read32, read_bytes}

module _ (b : Bytes) where
  pub read8-within : (i : ℕ) → i < length b → (v : ℕ) × (read8 b i ≡ some v)
  unfolding read8
  read8-within i h = get_elem?-within b i h

  pub read16-within : (i : ℕ) → i + 2 ≤ length b → (v : ℕ) × (read16 b i ≡ some v)
  unfolding read16
  read16-within i h =
      let (low, el) = read8-within i (omega arith) in
      let (high, eh) = read8-within (i + 1) (omega arith) in (low + high * 256, rw (el, eh) refl)

  pub read32-within : (i : ℕ) → i + 4 ≤ length b → (v : ℕ) × (read32 b i ≡ some v)
  unfolding read32
  read32-within i h =
      let (low, el) = read16-within i (omega arith) in
      let (high, eh) = read16-within (i + 2) (omega arith) in (low + high * 65536, rw (el, eh) refl)

  pub read_bytes-within :
      (i n : ℕ) → i + n ≤ length b → (bytes : Bytes) × (read_bytes b i n ≡ some bytes)
  unfolding read_bytes
  read_bytes-within i zero h = ([], refl)
  read_bytes-within i (suc n) h =
      let (first, e) = read8-within i (omega arith) in
      let (rest, r) = read_bytes-within (i + 1) n (omega arith) in (first ∷ rest, rw (e, r) refl)

  pub read8-past : (i : ℕ) → length b ≤ i → read8 b i ≡ none
  unfolding read8
  read8-past i h = get_elem?-past b i h

-- What stands in front of a struct shifts the offset.
pub read8-append :
    (front back : Bytes) (i : ℕ) → read8 (front ++ back) (length front + i) ≡ read8 back i
unfolding read8
read8-append [] back i = rw (zero-add i) refl
read8-append (x ∷ front) back i = rw (suc-add (length front) i) (read8-append front back i)

pub read16-append :
    (front back : Bytes) (i : ℕ) → read16 (front ++ back) (length front + i) ≡ read16 back i
unfolding read16
read16-append front back i =
    rw (add_assoc (length front) i 1, read8-append front back i, read8-append front back (i + 1))
      refl

pub read32-append :
    (front back : Bytes) (i : ℕ) → read32 (front ++ back) (length front + i) ≡ read32 back i
unfolding read32
read32-append front back i =
    rw (add_assoc (length front) i 2, read16-append front back i, read16-append front back (i + 2))
      refl

pub read_bytes-append :
    (front back : Bytes) (i n : ℕ)
    → read_bytes (front ++ back) (length front + i) n ≡ read_bytes back i n
unfolding read_bytes
read_bytes-append front back i zero = refl
read_bytes-append front back i (suc n) =
    rw
      (
        add_assoc (length front) i 1,
        read8-append front back i,
        read_bytes-append front back (i + 1) n,
      )
      refl

-- The first bytes of a memory.
pub read_bytes-whole : (xs back : Bytes) → read_bytes (xs ++ back) 0 (length xs) ≡ some xs
unfolding read_bytes read8
read_bytes-whole [] back = refl
read_bytes-whole (x ∷ xs) back =
    let rest : read_bytes (x ∷ (xs ++ back)) 1 (length xs) ≡ some xs =
      read_bytes-append (x ∷ []) (xs ++ back) 0 (length xs) ∙ read_bytes-whole xs back in
    rw rest refl

pub read_bytes-take : (b : Bytes) (n : ℕ) → n ≤ length b → read_bytes b 0 n ≡ some (take n b)
read_bytes-take b n h =
    let size : length (take n b) ≡ n = length-take n b ∙ omega (arith, h) in
    subst (λ m. read_bytes b 0 m ≡ some (take n b)) size
      (subst (λ whole. read_bytes whole 0 (length (take n b)) ≡ some (take n b))
        (take-append-drop n b) (read_bytes-whole (take n b) (drop n b)))

-- The two bytes of a word.
abbrev pub le16 : ℕ → Bytes
le16 v = v % 256 ∷ v / 256 ∷ []

pub read16-le16 : (v : ℕ) (back : Bytes) → read16 (le16 v ++ back) 0 ≡ some v
unfolding read16 read8
read16-le16 v back = ap some (omega arith)

pub read8-IsByte : (b : Bytes) (i v : ℕ) → All IsByte b → read8 b i ≡ some v → IsByte v
unfolding read8
read8-IsByte [] i v h e = cc
read8-IsByte (x ∷ b) zero v (hx, h) e = omega (arith, hx, some-injective _ _ e)
read8-IsByte (x ∷ b) (suc i) v (hx, h) e = read8-IsByte b i v h e
