-- ===== src/Libc/Argp.antt =====
-- What the programs give to argp, and how argp calls their `parse_opt`: for each option of the command
-- line in its order, with a key of the table and the argument, which is NULL (`none`) only where the
-- table says that it is optional.
pub mod Laws
use app_loctag.Base.{
  ℕ, Bool, true, false, ◌&&◌, ◌||◌, List, [], ◌∷◌, Option, none, some, Bytes, ◌==◌, if◌then◌else◌,
  ◌≡◌, refl, ◌⊎◌,
}
use mathlib.Core.Bool.{false≢true}

-- `struct argp_option`, less the names and the texts of the help.
pub record ArgpOption : Type 0 where
  pub key : ℕ
  pub optional : Bool

abbrev pub Call : Type 0
Call = ℕ × Option Bytes

abbrev pub has_arg : Option Bytes → Bool
has_arg (some arg) = true
has_arg none = false

-- A call for an option of the table.
abbrev pub IsCall : List ArgpOption → Call → Type 0
IsCall [] call = ⊥
IsCall (o ∷ options) (key, arg) =
    ((o.key ≡ key) × ((o.optional || has_arg arg) ≡ true)) ⊎ IsCall options (key, arg)

-- A fact about an argument that is required, and about one that can be missing.
pub on_required {ℓ} :
    (P : Option Bytes → Type ℓ) (arg : Option Bytes)
    → has_arg arg ≡ true
    → ((text : Bytes) → P (some text))
    → P arg
on_required P (some text) h p = p text
on_required P none h p = absurd (false≢true h)

pub on_optional {ℓ} :
    (P : Option Bytes → Type ℓ) (arg : Option Bytes)
    → ((text : Bytes) → P (some text))
    → P none
    → P arg
on_optional P (some text) p q = p text
on_optional P none p q = q

-- What `parse_opt` comes to, with the globals that it leaves. `unknown`: the key is not its own.
-- `faults`: a number is read at NULL.
pub data Parsed {ℓ} (C : Type ℓ) : Type ℓ where
  parsed : C → Parsed C
  unknown : Parsed C
  faults : Parsed C

-- The calls of a `parse_opt`, one after the other.
unfoldable pub parse_all {ℓ} :
    {C : Type ℓ} → (C → ℕ → Option Bytes → Parsed C) → C → List Call → Parsed C
parse_all parse_opt c [] = parsed c
parse_all parse_opt c ((key, arg) ∷ calls) = elim (parse_opt c key arg) [
  | parsed c' ↦ parse_all parse_opt c' calls
  | unknown ↦ unknown
  | faults ↦ faults
]

-- The argument of the last call with a key, and the last text that was an argument with a key.
unfoldable pub last_arg : ℕ → List Call → Option (Option Bytes)
last_arg key [] = none
last_arg key ((other, arg) ∷ calls) = elim (last_arg key calls) [
  | some last ↦ some last
  | none ↦ if other == key then some arg else none
]

unfoldable pub last_text : ℕ → List Call → Option Bytes
last_text key [] = none
last_text key ((other, arg) ∷ calls) = elim (last_text key calls) [
  | some last ↦ some last
  | none ↦ if other == key then arg else none
]

-- The value of a variable behind all calls, where an argument is stored as it is.
abbrev pub arg_or : Option Bytes → Option (Option Bytes) → Option Bytes
arg_or old (some arg) = arg
arg_or old none = old

pub arg_or-cons :
    (key other : ℕ) (arg : Option Bytes) (calls : List Call) (old : Option Bytes)
    → arg_or (if other == key then arg else old) (last_arg key calls)
      ≡ arg_or old (last_arg key ((other, arg) ∷ calls))
unfolding last_arg
arg_or-cons key other arg calls old = go (last_arg key calls) (other == key)
  where
    go :
        (last : Option (Option Bytes)) (same : Bool)
        → arg_or (if same then arg else old) last
          ≡ arg_or old
              (elim last [ some last ↦ some last | none ↦ if same then some arg else none ])
    go (some last) same = refl
    go none true = refl
    go none false = refl

-- The same where the text is read as a number.
module _ {ℓ} {A : Type ℓ} (value : Bytes → A) where
  abbrev pub value_or : A → Option Bytes → A
  value_or old (some text) = value text
  value_or old none = old

  pub value_or-cons :
      (key other : ℕ) (arg : Option Bytes) (calls : List Call) (old : A)
      → value_or (if other == key then value_or old arg else old) (last_text key calls)
        ≡ value_or old (last_text key ((other, arg) ∷ calls))
  unfolding last_text
  value_or-cons key other arg calls old = go (last_text key calls) (other == key) arg
    where
      go :
          (last : Option Bytes) (same : Bool) (arg : Option Bytes)
          → value_or (if same then value_or old arg else old) last
            ≡ value_or old (elim last [ some last ↦ some last | none ↦ if same then arg else none ])
      go (some last) same arg = refl
      go none true (some text) = refl
      go none true none = refl
      go none false arg = refl
