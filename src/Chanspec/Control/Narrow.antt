-- ===== src/Chanspec/Control/Narrow.antt =====
-- The narrower chanspecs inside a valid chanspec: its control channel, and its primary 40 MHz.
use app_loctag.Base.{
  ℕ, ◌<◌, ◌≡◌, refl, Bool, true, false, ◌&&◌, none, some, ◌==◌, holds_below, implies, implies-elim,
  arith,
}
use app_loctag.Chanspec.Fields.{
  bw_20, bw_40, chspec_is80, chspec_band, chspec_channel, chspec_ctl_sb, chspec_bw, chspec_chan1,
  chspec_chan2,
}
use app_loctag.Chanspec.Check.{wf_chspec_valid, is_valid, is_valid-eq, valid-not-malformed}
use app_loctag.Chanspec.Control.{wf_chspec_ctlchan, wf_chspec_ctlchspec, wf_chspec_primary40_chspec}
use app_loctag.Chanspec.WellFormed.{heads, on_heads, well_formed_by_table}

-- Whether `y` is a valid chanspec of bandwidth `bw` with the band and control channel of `x`.
narrows : ℕ → ℕ → ℕ → Bool
narrows bw x y =
    is_valid y
    && chspec_bw y == bw
    && chspec_band y == chspec_band x
    && elim (wf_chspec_ctlchan y) [
      | some c ↦ elim (wf_chspec_ctlchan x) [ some d ↦ c == d | none ↦ false ]
      | none ↦ false
    ]

-- What that says.
abbrev pub Narrows : ℕ → ℕ → ℕ → Type 0
Narrows bw x y =
    (wf_chspec_valid y ≡ some true)
    × (chspec_bw y ≡ bw)
    × (chspec_band y ≡ chspec_band x)
    × (wf_chspec_ctlchan y ≡ wf_chspec_ctlchan x)

narrows-Narrows : (bw x y : ℕ) → narrows bw x y ≡ true → Narrows bw x y
unfolding narrows is_valid
narrows-Narrows bw x y h = ground arith

control_narrows : ℕ → Bool
control_narrows x = elim (wf_chspec_ctlchspec x) [ some y ↦ narrows bw_20 x y | none ↦ false ]

control_narrows-eq :
    (x : ℕ)
    → control_narrows x ≡ true
    → (y : ℕ) × (wf_chspec_ctlchspec x ≡ some y) × (narrows bw_20 x y ≡ true)
unfolding control_narrows
control_narrows-eq x h = ground arith

control_table : on_heads (λ x. implies (is_valid x) (control_narrows x)) heads ≡ true
unfolding control_narrows narrows is_valid wf_chspec_valid wf_chspec_ctlchspec on_heads holds_below
    chspec_band chspec_channel chspec_ctl_sb chspec_bw chspec_chan1 chspec_chan2
control_table = refl

primary40_table :
    on_heads
      (λ x. implies (is_valid x && chspec_is80 x) (narrows bw_40 x (wf_chspec_primary40_chspec x)))
      heads
    ≡ true
unfolding narrows is_valid wf_chspec_valid wf_chspec_primary40_chspec wf_chspec_ctlchan on_heads
    holds_below chspec_band chspec_channel chspec_ctl_sb chspec_bw chspec_chan1 chspec_chan2
primary40_table = refl

module _ (x : ℕ) (fits : x < 65536) (valid : wf_chspec_valid x ≡ some true) where
  -- The control chanspec of a valid chanspec of 16 bits is a valid 20 MHz chanspec in the same
  -- band with the same control channel.
  pub ctlchspec-Narrows : (y : ℕ) × (wf_chspec_ctlchspec x ≡ some y) × Narrows bw_20 x y
  ctlchspec-Narrows =
      let (y, printed, fine) = control_narrows-eq x (
        implies-elim (is_valid x) (control_narrows x)
          (well_formed_by_table (λ y. implies (is_valid y) (control_narrows y)) control_table x fits
            (valid-not-malformed x valid))
          (is_valid-eq x valid)) in
      (y, printed, narrows-Narrows bw_20 x y fine)

  -- The primary 40 MHz of a valid 80 MHz chanspec of 16 bits is a valid 40 MHz chanspec in the
  -- same band with the same control channel.
  pub primary40-Narrows : chspec_is80 x ≡ true → Narrows bw_40 x (wf_chspec_primary40_chspec x)
  primary40-Narrows wide = narrows-Narrows bw_40 x _ (
      implies-elim (is_valid x && chspec_is80 x) (narrows bw_40 x (wf_chspec_primary40_chspec x))
        (well_formed_by_table
          (λ y.
            implies (is_valid y && chspec_is80 y) (narrows bw_40 y (wf_chspec_primary40_chspec y)))
          primary40_table x fits (valid-not-malformed x valid))
        (ground (arith, is_valid-eq x valid)))
