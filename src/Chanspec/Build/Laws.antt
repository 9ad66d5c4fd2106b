-- ===== src/Chanspec/Build/Laws.antt =====
-- A chanspec that the macros make of a center channel has the control channel that they name.
use app_loctag.Base.{
  ℕ, ◌≡◌, ◌≤◌, ◌<◌, refl, Bool, true, false, ◌&&◌, none, some, Option, ◌==◌, leb, arith,
  holds_below, holds_below-elim, implies, implies-elim,
}
use app_loctag.Libc.Decimal.{decimal}
use app_loctag.Chanspec.Fields.{
  ctl_sb_lll, ctl_sb_llu, ctl_sb_lul, ctl_sb_luu, lower_20_sb, upper_20_sb, chspec_band,
  chspec_channel, chspec_ctl_sb, chspec_bw, chspec_chan1, chspec_chan2,
}
use app_loctag.Chanspec.Control.{wf_chspec_ctlchan}
use app_loctag.Chanspec.Parse.{wf_chspec_aton}
use app_loctag.Chanspec.Build.{
  ll_20_sb, uu_20_sb, lu_20_sb, ul_20_sb, ch20mhz_chspec, ch40mhz_chspec, ch80mhz_chspec,
}

-- The 20 MHz channels around a center channel, by the sidebands.
pub record NamesSidebands (center : ℕ) : Type 0 where
  pub alone : wf_chspec_ctlchan (ch20mhz_chspec center) ≡ some center
  pub parsed : wf_chspec_aton (decimal center) ≡ ch20mhz_chspec center
  pub l : wf_chspec_ctlchan (ch40mhz_chspec center ctl_sb_lll) ≡ some (lower_20_sb center)
  pub u : wf_chspec_ctlchan (ch40mhz_chspec center ctl_sb_llu) ≡ some (upper_20_sb center)
  pub ll : wf_chspec_ctlchan (ch80mhz_chspec center ctl_sb_lll) ≡ some (ll_20_sb center)
  pub lu : wf_chspec_ctlchan (ch80mhz_chspec center ctl_sb_llu) ≡ some (lu_20_sb center)
  pub ul : wf_chspec_ctlchan (ch80mhz_chspec center ctl_sb_lul) ≡ some (ul_20_sb center)
  pub uu : wf_chspec_ctlchan (ch80mhz_chspec center ctl_sb_luu) ≡ some (uu_20_sb center)

is_some : ℕ → Option ℕ → Bool
is_some n (some m) = m == n
is_some n none = false

is_some-eq : (n : ℕ) (o : Option ℕ) → is_some n o ≡ true → o ≡ some n
unfolding is_some
is_some-eq n (some m) h = ground (arith, h)
is_some-eq n none h = ground (arith, h)

row : ℕ → Bool
row c =
    is_some c (wf_chspec_ctlchan (ch20mhz_chspec c))
    && wf_chspec_aton (decimal c) == ch20mhz_chspec c
    && is_some (lower_20_sb c) (wf_chspec_ctlchan (ch40mhz_chspec c ctl_sb_lll))
    && is_some (upper_20_sb c) (wf_chspec_ctlchan (ch40mhz_chspec c ctl_sb_llu))
    && is_some (ll_20_sb c) (wf_chspec_ctlchan (ch80mhz_chspec c ctl_sb_lll))
    && is_some (lu_20_sb c) (wf_chspec_ctlchan (ch80mhz_chspec c ctl_sb_llu))
    && is_some (ul_20_sb c) (wf_chspec_ctlchan (ch80mhz_chspec c ctl_sb_lul))
    && is_some (uu_20_sb c) (wf_chspec_ctlchan (ch80mhz_chspec c ctl_sb_luu))

row_table : holds_below 218 (λ c. implies (leb 7 c) (row c)) ≡ true
unfolding row is_some wf_chspec_aton wf_chspec_ctlchan ch20mhz_chspec ch40mhz_chspec ch80mhz_chspec
    decimal holds_below chspec_band chspec_channel chspec_ctl_sb chspec_bw chspec_chan1 chspec_chan2
row_table = refl

row-NamesSidebands : (c : ℕ) → row c ≡ true → NamesSidebands c
unfolding row
row-NamesSidebands c h = record {
  alone = is_some-eq c _ (ground (arith, h));
  parsed = ground (arith, h);
  l = is_some-eq (lower_20_sb c) _ (ground (arith, h));
  u = is_some-eq (upper_20_sb c) _ (ground (arith, h));
  ll = is_some-eq (ll_20_sb c) _ (ground (arith, h));
  lu = is_some-eq (lu_20_sb c) _ (ground (arith, h));
  ul = is_some-eq (ul_20_sb c) _ (ground (arith, h));
  uu = is_some-eq (uu_20_sb c) _ (ground (arith, h));
}

-- For a center channel from 7 to 217, the control channel that wf_chspec_ctlchan finds in what
-- CH20MHZ_CHSPEC, CH40MHZ_CHSPEC and CH80MHZ_CHSPEC make of it is the channel itself, LOWER_20_SB
-- or UPPER_20_SB of it for the two sidebands of 40 MHz, and LL_20_SB, LU_20_SB, UL_20_SB or
-- UU_20_SB of it for the first four of 80 MHz, and wf_chspec_aton reads the decimal of the channel
-- as CH20MHZ_CHSPEC of it.
pub ctlchan-NamesSidebands : (center : ℕ) → 7 ≤ center → center < 218 → NamesSidebands center
ctlchan-NamesSidebands center low high = row-NamesSidebands center (
    implies-elim (leb 7 center) (row center)
      (holds_below-elim 218 (λ c. implies (leb 7 c) (row c)) center row_table high) (ground arith))
