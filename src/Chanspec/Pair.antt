-- ===== src/Chanspec/Pair.antt =====
-- `read_uint` of bcmwifi_channels.c, and how `wf_chspec_aton` reads the two channels of an 80+80 MHz
-- channel. It compares the text with a static pointer, `plus80`, which moves on with each comparison and
-- is never set back: later calls of the process go on where it stands, and read past its literal.
use app_loctag.Base.{
  ℕ, zero, suc, ◌≡◌, refl, [], ◌∷◌, ◌++◌, Option, none, some, Bytes, codes, ◌==◌, if◌then◌else◌,
  ◌>>=◌, byte_at, drop, length, get_elem?,
}
use app_loctag.Libc.Scan.{strtoul}

-- `none` if `endp` is still where the text begins: nothing was read.
unfoldable pub advanced : Bytes → ℕ × Bytes → Option (ℕ × Bytes)
advanced p (val, endp) = if length endp == length p then none else some (val, endp)

-- The number in front of the text, and the text behind it.
unfoldable pub read_uint : Bytes → Option (ℕ × Bytes)
unfolding strtoul advanced
read_uint p = advanced p (strtoul 10 p)

pub read_uint-eq : (p : Bytes) → read_uint p ≡ advanced p (strtoul 10 p)
unfolding read_uint
read_uint-eq p = refl

-- How a function that moves the pointer ends: `outside` reads past a text or the literal, and `back` comes
-- back with the position of the pointer and, if it is not a `return 0`, a value.
pub data Call (A : Type 0) : Type 0 where
  outside : Call A
  back : ℕ → Option A → Call A

-- A step that does not move the pointer, and what is behind it.
unfoldable pub then_call : {A B : Type 0} → ℕ → Option A → (A → Call B) → Call B
then_call plus80 none k = back plus80 none
then_call plus80 (some x) k = k x

-- The literal behind `plus80`, with its NUL.
abbrev pub plus80_text : Bytes
plus80_text = codes "80/" ++ 0 ∷ []

-- `*a++ != *plus80++`, as often as is said. A text that is at its end has a NUL there; behind that there is
-- no more of it.
unfoldable pub consume : ℕ → ℕ → Bytes → Call Bytes
consume zero plus80 a = back plus80 (some a)
consume (suc rounds) plus80 [] = elim (get_elem? plus80_text plus80) [
  | none ↦ outside
  | some c ↦ if c == 0 then outside else back (suc plus80) none
]
consume (suc rounds) plus80 (x ∷ a) =
    let rest = consume rounds (suc plus80) a in
    elim (get_elem? plus80_text plus80) [
      | none ↦ outside
      | some c ↦ if x == c then rest else back (suc plus80) none
    ]

-- The two channels of `<ch1>-<ch2>`.
unfoldable pub channel_pair : Bytes → Option (ℕ × ℕ × Bytes)
unfolding read_uint
channel_pair a = do
  (ch1, a1) ← read_uint a
  (ch2, a2) ← if byte_at a1 0 == b'-' then read_uint (drop 1 a1) else none
  some (ch1, ch2, a2)

-- The string `80/` and the channels behind it, from behind the `+`.
unfoldable pub read_pair : ℕ → Bytes → Call (ℕ × ℕ × Bytes)
unfolding consume channel_pair
read_pair plus80 a = elim (consume 3 plus80 a) [
  | outside ↦ outside
  | back plus80' none ↦ back plus80' none
  | back plus80' (some rest) ↦ back plus80' (channel_pair rest)
]
