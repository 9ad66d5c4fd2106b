-- ===== src/Chanspec/WellFormed.antt =====
-- What `wf_chspec_malformed` accepts, described by the layout of the bits alone.
use app_loctag.Base.{
  ℕ, ◌+◌, ◌*◌, ◌/◌, ◌%◌, ◌≤◌, ◌<◌, ◌≡◌, if◌then◌else◌, ◌↔◌, ◌⊎◌, inl, inr, Bool, true, false, ◌&&◌,
  ◌||◌, List, [], ◌∷◌, arith, ◌==◌, holds_below, holds_below-elim, Bool-cases, ==_iff,
}
use app_loctag.Chanspec.Fields.{
  chspec_channel-eq, chspec_ctl_sb-eq, chspec_bw-eq, chspec_band-eq, chspec_chan1-eq,
  chspec_chan2-eq,
}
use app_loctag.Chanspec.Check.{wf_chspec_malformed}
use mathlib.Core.Bool.{false≢true}

-- The bandwidths that a well-formed chanspec can have.
pub data Width : Type 0 where
  w20 w40 w80 w160 : Width

-- The code of a bandwidth in bits 11-13, and the number of its 20 MHz sidebands.
abbrev pub width_code : Width → ℕ
width_code w20 = 2
width_code w40 = 3
width_code w80 = 4
width_code w160 = 5

abbrev pub sidebands : Width → ℕ
sidebands w20 = 1
sidebands w40 = 2
sidebands w80 = 4
sidebands w160 = 8

-- In the 2.4 GHz band only 20 and 40 MHz; in the 5 GHz band a channel number up to 224.
abbrev pub FitsBand : Width → ℕ → Type 0
FitsBand w x = ((x / 16384 % 4 ≡ 0) × (width_code w ≤ 3)) ⊎ ((x / 16384 % 4 ≡ 3) × (x % 256 ≤ 224))

pub record IsWellFormed (x : ℕ) : Type 0 where
  pub width : Width
  pub coded : x / 2048 % 8 ≡ width_code width
  pub sideband : x / 256 % 8 < sidebands width
  pub banded : FitsBand width x

width_of_code : ℕ → Width
width_of_code c = if c == 2 then w20 else if c == 3 then w40 else if c == 4 then w80 else w160

-- A chanspec passes wf_chspec_malformed exactly if its bits are laid out as IsWellFormed
-- describes: a bandwidth of 20, 40, 80 or 160 MHz, a sideband that the bandwidth has, and in the
-- 2.4 GHz band at most 40 MHz, in the 5 GHz band a channel number up to 224.
pub malformed-IsWellFormed : (x : ℕ) → (wf_chspec_malformed x ≡ false) ↔ IsWellFormed x
unfolding wf_chspec_malformed width_of_code
malformed-IsWellFormed x = (there, back)
  where
    there : wf_chspec_malformed x ≡ false → IsWellFormed x
    there h = record {
      width = width_of_code (x / 2048 % 8);
      coded =
          ground (arith, chspec_bw-eq x, chspec_band-eq x, chspec_chan1-eq x, chspec_chan2-eq x, h);
      sideband = ground (arith, chspec_bw-eq x, chspec_band-eq x, chspec_ctl_sb-eq x, h);
      banded = ground (
        arith,
        chspec_bw-eq x,
        chspec_band-eq x,
        chspec_channel-eq x,
        chspec_chan1-eq x,
        chspec_chan2-eq x,
        h,
      );
    }

    back : IsWellFormed x → wf_chspec_malformed x ≡ false
    back v = ground (
      arith,
      chspec_bw-eq x,
      chspec_band-eq x,
      chspec_channel-eq x,
      chspec_ctl_sb-eq x,
      v.coded,
      v.sideband,
      v.banded,
    )

-- The high bytes that a well-formed chanspec can have.
abbrev pub heads : List ℕ
heads =
    0x10 ∷ 0x18 ∷ 0x19 ∷ 0xd0 ∷ 0xd8 ∷ 0xd9 ∷ 0xe0 ∷ 0xe1 ∷ 0xe2 ∷ 0xe3 ∷ 0xe8 ∷ 0xe9 ∷ 0xea ∷ 0xeb
    ∷ 0xec ∷ 0xed ∷ 0xee ∷ 0xef ∷ []

unfoldable pub on_heads : (ℕ → Bool) → List ℕ → Bool
on_heads p [] = true
on_heads p (h ∷ hs) = holds_below 256 (λ ch. p (h * 256 + ch)) && on_heads p hs

unfoldable pub is_head : ℕ → List ℕ → Bool
is_head b [] = false
is_head b (h ∷ hs) = b == h || is_head b hs

IsWellFormed-is_head : (x : ℕ) → x < 65536 → IsWellFormed x → is_head (x / 256) heads ≡ true
unfolding is_head
IsWellFormed-is_head x h v = ground (arith, v.coded, v.sideband, v.banded)

pub on_heads_sound :
    (p : ℕ → Bool) (hs : List ℕ) (x : ℕ)
    → on_heads p hs ≡ true
    → is_head (x / 256) hs ≡ true
    → p x ≡ true
unfolding on_heads is_head
on_heads_sound p [] x all in_hs = absurd (false≢true in_hs)
on_heads_sound p (h ∷ hs) x all in_hs = elim (Bool-cases (x / 256 == h)) [
  | inl here ↦
      let whole : h * 256 + x % 256 ≡ x = omega (arith, (==_iff (x / 256) h).0 here) in
      let first =
        holds_below-elim 256 (λ (ch : ℕ). p (h * 256 + ch)) (x % 256) (ground arith)
          (omega arith) in
      rw whole at first
  | inr later ↦ on_heads_sound p hs x (ground arith) (ground arith)
]

-- To show a fact of every well-formed chanspec, check it at each of the 18 high bytes.
pub well_formed_by_table :
    (p : ℕ → Bool)
    → on_heads p heads ≡ true
    → (x : ℕ) → x < 65536
    → wf_chspec_malformed x ≡ false
    → p x ≡ true
well_formed_by_table p table x h good =
    on_heads_sound p heads x table (IsWellFormed-is_head x h ((malformed-IsWellFormed x).0 good))
