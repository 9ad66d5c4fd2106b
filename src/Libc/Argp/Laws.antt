-- ===== src/Libc/Argp/Laws.antt =====
-- What a whole command line comes to, from what each call of a `parse_opt` does.
use app_loctag.Base.{
  ℕ, ◌≡◌, refl, Bool, true, false, ◌||◌, List, [], ◌∷◌, Option, Bytes, if◌then◌else◌, Bool-cases,
  inl, inr, All,
}
use app_loctag.Libc.Argp.{ArgpOption, Call, IsCall, Parsed, parsed, unknown, faults, parse_all}

-- Whether one of the calls reads a number at NULL, by a test of each.
abbrev pub any_missing : (Call → Bool) → List Call → Bool
any_missing is_missing [] = false
any_missing is_missing (call ∷ calls) = is_missing call || any_missing is_missing calls

-- What the command line comes to: a read at NULL where a number has no argument, and, where none
-- has, globals that the relation `Lasts` gives.
pub data Parses {C : Type 0} (is_missing : Call → Bool) (Lasts : C → List Call → C → Type 0) (c : C)
    (calls : List Call) : Parsed C → Type 0 where
  crashes : any_missing is_missing calls ≡ true → Parses is_missing Lasts c calls faults
  reads :
      any_missing is_missing calls ≡ false
      → (c' : C) → Lasts c calls c'
      → Parses is_missing Lasts c calls (parsed c')

-- What a program shows of its `parse_opt` for the calls of its table: the globals behind one call,
-- and how `Lasts` grows with it.
pub record IsParser {C : Type 0} (options : List ArgpOption)
    (parse_opt : C → ℕ → Option Bytes → Parsed C) (is_missing : Call → Bool)
    (Lasts : C → List Call → C → Type 0) : Type 0 where
  pub set_opt : C → Call → C
  pub called :
      (c : C) (key : ℕ) (arg : Option Bytes)
      → IsCall options (key, arg)
      → parse_opt c key arg
        ≡ (if is_missing (key, arg) then faults else parsed (set_opt c (key, arg)))
  pub no_calls : (c : C) → Lasts c [] c
  pub one_more :
      (c : C) (call : Call) (calls : List Call) (c' : C)
      → Lasts (set_opt c call) calls c'
      → Lasts c (call ∷ calls) c'

module _ {C : Type 0} {options : List ArgpOption} {parse_opt : C → ℕ → Option Bytes → Parsed C}
    {is_missing : Call → Bool} {Lasts : C → List Call → C → Type 0}
    (p : IsParser options parse_opt is_missing Lasts) where
  Parses-cons :
      (c : C) (call : Call) (calls : List Call) {result : Parsed C}
      → is_missing call ≡ false
      → Parses is_missing Lasts (p.set_opt c call) calls result
      → Parses is_missing Lasts c (call ∷ calls) result
  Parses-cons c call calls present (crashes missing) = crashes (rw (present, missing) refl)
  Parses-cons c call calls present (reads given c' v) =
      reads (rw (present, given) refl) c' (p.one_more c call calls c' v)

  -- Behind the result of the first call.
  chained :
      (c : C) (call : Call) (calls : List Call) (result : Parsed C)
      → result ≡ (if is_missing call then faults else parsed (p.set_opt c call))
      → Parses is_missing Lasts
          (p.set_opt c call)
          calls
          (parse_all parse_opt (p.set_opt c call) calls)
      → Parses is_missing Lasts c (call ∷ calls) (elim result [
        | parsed c' ↦ parse_all parse_opt c' calls
        | unknown ↦ unknown
        | faults ↦ faults
      ])
  chained c call calls result e rest = elim (Bool-cases (is_missing call)) [
    | inl missing ↦ rw (e, missing) (crashes (rw missing refl))
    | inr present ↦ rw (e, present) (Parses-cons c call calls present rest)
  ]

  pub parse_all-Parses_calls :
      (c : C) (calls : List Call)
      → All (IsCall options) calls
      → Parses is_missing Lasts c calls (parse_all parse_opt c calls)
  unfolding parse_all
  parse_all-Parses_calls c [] ok = reads refl c (p.no_calls c)
  parse_all-Parses_calls c ((key, arg) ∷ calls) (first, rest) =
      chained c (key, arg) calls (parse_opt c key arg) (p.called c key arg first)
        (parse_all-Parses_calls (p.set_opt c (key, arg)) calls rest)
