-- ===== src/Chanspec/RoundTrip.antt =====
-- Printing a chanspec and parsing the text.
use app_loctag.Base.{
  ℕ, ◌<◌, ◌≡◌, refl, Bool, true, false, none, some, ◌==◌, holds_below, implies, implies-elim, arith,
  Bytes,
}
use app_loctag.Chanspec.Fields.{
  chspec_band, chspec_channel, chspec_ctl_sb, chspec_bw, chspec_chan1, chspec_chan2,
}
use app_loctag.Chanspec.Check.{wf_chspec_valid, is_valid, is_valid-eq, valid-not-malformed}
use app_loctag.Chanspec.Print.{wf_chspec_ntoa}
use app_loctag.Chanspec.Parse.{wf_chspec_aton}
use app_loctag.Chanspec.WellFormed.{heads, on_heads, well_formed_by_table}

-- Whether a chanspec is printed, and its text is read back as the same chanspec.
reread : ℕ → Bool
reread chspec = elim (wf_chspec_ntoa chspec) [
  | some text ↦ wf_chspec_aton text == chspec
  | none ↦ false
]

reread_table : on_heads (λ x. implies (is_valid x) (reread x)) heads ≡ true
unfolding reread is_valid wf_chspec_valid wf_chspec_ntoa wf_chspec_aton on_heads holds_below
    chspec_band chspec_channel chspec_ctl_sb chspec_bw chspec_chan1 chspec_chan2
reread_table = refl

valid-reread : (x : ℕ) → x < 65536 → wf_chspec_valid x ≡ some true → reread x ≡ true
valid-reread x h v =
    implies-elim (is_valid x) (reread x)
      (well_formed_by_table (λ y. implies (is_valid y) (reread y)) reread_table x h
        (valid-not-malformed x v))
      (is_valid-eq x v)

-- Every chanspec of 16 bits that wf_chspec_valid accepts is printed by wf_chspec_ntoa, and
-- wf_chspec_aton reads the text back as the same chanspec.
pub aton-ntoa :
    (x : ℕ)
    → x < 65536
    → wf_chspec_valid x ≡ some true
    → (text : Bytes) × (wf_chspec_ntoa x ≡ some text) × (wf_chspec_aton text ≡ x)
unfolding reread
aton-ntoa x h v = ground (arith, valid-reread x h v)
