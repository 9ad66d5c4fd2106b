-- ===== src/Chanspec/Control/Search.antt =====
-- `wf_channel2chspec`: from a control channel and a bandwidth to the chanspec.
use app_loctag.Base.{
  ℕ, ◌<◌, ◌≡◌, ◌≢◌, ◌⊎◌, refl, Bool, true, false, not, ◌&&◌, ◌||◌, none, some, ◌==◌, holds_below,
  holds_below-elim, implies, implies-elim, arith, codes, ◌++◌,
}
use app_loctag.Libc.Decimal.{decimal}
use app_loctag.Chanspec.Fields.{
  bw_20, bw_40, bw_80, bw_160, chspec_is20, chspec_is5g, chspec_band, chspec_channel, chspec_ctl_sb,
  chspec_bw, chspec_chan1, chspec_chan2,
}
use app_loctag.Chanspec.Check.{wf_chspec_valid, is_valid, is_valid-eq, valid-not-malformed}
use app_loctag.Chanspec.Control.{wf_chspec_ctlchan, wf_channel2chspec}
use app_loctag.Chanspec.Parse.{wf_chspec_aton}
use app_loctag.Chanspec.WellFormed.{heads, on_heads, well_formed_by_table}

-- Whether the search gives the chanspec back from its control channel and bandwidth.
recovers : ℕ → Bool
recovers x = elim (wf_chspec_ctlchan x) [
  | some ctl_ch ↦ wf_channel2chspec ctl_ch (chspec_bw x) == x
  | none ↦ false
]

recovers_table :
    on_heads (λ x. implies (is_valid x && (chspec_is5g x || chspec_is20 x)) (recovers x)) heads
    ≡ true
unfolding recovers is_valid wf_chspec_valid wf_chspec_ctlchan wf_channel2chspec on_heads holds_below
    chspec_band chspec_channel chspec_ctl_sb chspec_bw chspec_chan1 chspec_chan2
recovers_table = refl

recovers-eq :
    (x : ℕ)
    → recovers x ≡ true
    → (ctl_ch : ℕ) × (wf_chspec_ctlchan x ≡ some ctl_ch)
      × (wf_channel2chspec ctl_ch (chspec_bw x) ≡ x)
unfolding recovers
recovers-eq x h = ground arith

-- Every valid chanspec of 16 bits that is in the 5 GHz band or is 20 MHz wide has a control
-- channel from which, with its bandwidth, wf_channel2chspec finds the chanspec.
pub channel2chspec-ctlchan :
    (x : ℕ)
    → x < 65536
    → wf_chspec_valid x ≡ some true
    → (chspec_is5g x || chspec_is20 x) ≡ true
    → (ctl_ch : ℕ) × (wf_chspec_ctlchan x ≡ some ctl_ch)
      × (wf_channel2chspec ctl_ch (chspec_bw x) ≡ x)
channel2chspec-ctlchan x fits valid covered = recovers-eq x (
    implies-elim (is_valid x && (chspec_is5g x || chspec_is20 x)) (recovers x)
      (well_formed_by_table
        (λ y. implies (is_valid y && (chspec_is5g y || chspec_is20 y)) (recovers y)) recovers_table
        x fits (valid-not-malformed x valid))
      (ground (arith, is_valid-eq x valid, covered)))

-- What the search promises of its result.
fits_search : ℕ → ℕ → Bool
fits_search bw ctl_ch =
    let x = wf_channel2chspec ctl_ch bw in
    implies (not (x == 0)) (
      is_valid x
      && chspec_bw x == bw
      && elim (wf_chspec_ctlchan x) [ some c ↦ c == ctl_ch | none ↦ false ])

search_table :
    holds_below 256 (λ c. fits_search bw_40 c && fits_search bw_80 c && fits_search bw_160 c) ≡ true
unfolding fits_search is_valid wf_chspec_valid wf_chspec_ctlchan wf_channel2chspec holds_below
    chspec_band chspec_channel chspec_ctl_sb chspec_bw chspec_chan1 chspec_chan2
search_table = refl

fits_search-eq :
    (bw ctl_ch : ℕ)
    → fits_search bw ctl_ch ≡ true
    → wf_channel2chspec ctl_ch bw ≢ 0
    → (wf_chspec_valid (wf_channel2chspec ctl_ch bw) ≡ some true)
      × (chspec_bw (wf_channel2chspec ctl_ch bw) ≡ bw)
      × (wf_chspec_ctlchan (wf_channel2chspec ctl_ch bw) ≡ some ctl_ch)
unfolding fits_search is_valid
fits_search-eq bw ctl_ch h found = ground (arith, h)

-- For a control channel below 256 and a bandwidth of 40, 80 or 160 MHz, a result of
-- wf_channel2chspec other than 0 is valid, has that bandwidth and has that control channel.
pub channel2chspec_sound :
    (ctl_ch bw : ℕ)
    → ctl_ch < 256
    → (bw ≡ bw_40) ⊎ (bw ≡ bw_80) ⊎ (bw ≡ bw_160)
    → wf_channel2chspec ctl_ch bw ≢ 0
    → (wf_chspec_valid (wf_channel2chspec ctl_ch bw) ≡ some true)
      × (chspec_bw (wf_channel2chspec ctl_ch bw) ≡ bw)
      × (wf_chspec_ctlchan (wf_channel2chspec ctl_ch bw) ≡ some ctl_ch)
channel2chspec_sound ctl_ch bw fits wide found =
    let row =
      holds_below-elim 256
        (λ (c : ℕ). fits_search bw_40 c && fits_search bw_80 c && fits_search bw_160 c) ctl_ch
        search_table fits in
    fits_search-eq bw ctl_ch (ground (arith, row, wide)) found

-- The text `<channel>/<bandwidth>` and the search name the same chanspec.
agree : ℕ → Bool
agree c =
    wf_chspec_aton (decimal c ++ codes "/20") == wf_channel2chspec c bw_20
    && wf_chspec_aton (decimal c ++ codes "/40") == wf_channel2chspec c bw_40
    && wf_chspec_aton (decimal c ++ codes "/80") == wf_channel2chspec c bw_80
    && wf_chspec_aton (decimal c ++ codes "/160") == wf_channel2chspec c bw_160

agree_table : holds_below 225 agree ≡ true
unfolding agree wf_chspec_aton wf_channel2chspec decimal holds_below chspec_band chspec_channel
    chspec_ctl_sb chspec_bw chspec_chan1 chspec_chan2
agree_table = refl

-- Up to channel 224, wf_chspec_aton of the text <channel>/<bandwidth> is wf_channel2chspec of the
-- channel and the bandwidth, for the four bandwidths and errors included.
pub aton-channel2chspec :
    (c : ℕ)
    → c < 225
    → (wf_chspec_aton (decimal c ++ codes "/20") ≡ wf_channel2chspec c bw_20)
      × (wf_chspec_aton (decimal c ++ codes "/40") ≡ wf_channel2chspec c bw_40)
      × (wf_chspec_aton (decimal c ++ codes "/80") ≡ wf_channel2chspec c bw_80)
      × (wf_chspec_aton (decimal c ++ codes "/160") ≡ wf_channel2chspec c bw_160)
unfolding agree
aton-channel2chspec c fits = ground (arith, holds_below-elim 225 agree c agree_table fits)
