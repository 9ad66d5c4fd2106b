-- ===== src/Chanspec/Check.antt =====
-- `wf_chspec_malformed` and `wf_chspec_valid` of bcmwifi_channels.c.
use app_loctag.Base.{
  ℕ, ◌+◌, ◌≡◌, refl, Bool, true, false, not, ◌&&◌, ◌||◌, List, [], ◌∷◌, Option, none, some, arith,
  ltb, leb, ◌==◌, if◌then◌else◌, ◌>>=◌, get_elem?, length,
}
use app_loctag.Chanspec.Fields.{
  ch_80mhz_apart, maxchannel, ctl_sb_lll, ctl_sb_llu, ctl_sb_luu, bw_20, bw_40, bw_80, bw_160,
  bw_8080, chspec_channel, chspec_chan1, chspec_chan2, chspec_ctl_sb, chspec_bw, chspec_is5g,
  chspec_is2g, lower_20_sb, upper_20_sb,
}
use app_loctag.Chanspec.Sideband.{wf_5g_40m_chans, wf_5g_80m_chans, wf_5g_160m_chans}

-- "Side band needs to be consistent with bandwidth", the second half of `wf_chspec_malformed`.
unfoldable pub bad_side_band : ℕ → Bool
bad_side_band chanspec =
    if chspec_bw chanspec == bw_20
    then not (chspec_ctl_sb chanspec == ctl_sb_lll)
    else if chspec_bw chanspec == bw_40
    then ltb ctl_sb_llu (chspec_ctl_sb chanspec)
    else if chspec_bw chanspec == bw_80
    then ltb ctl_sb_luu (chspec_ctl_sb chanspec)
    else false

-- The tests on an 80+80 MHz pair of indices.
unfoldable pub bad_pair : ℕ → Bool
bad_pair chanspec =
    let ch1_id = chspec_chan1 chanspec in
    let ch2_id = chspec_chan2 chanspec in
    leb (length wf_5g_80m_chans) ch1_id || leb (length wf_5g_80m_chans) ch2_id || leb ch2_id ch1_id

unfoldable pub wf_chspec_malformed : ℕ → Bool
unfolding bad_side_band bad_pair
wf_chspec_malformed chanspec =
    let bw = chspec_bw chanspec in
    if chspec_is2g chanspec
    then (if not (bw == bw_20) && not (bw == bw_40) then true else bad_side_band chanspec)
    else if chspec_is5g chanspec
    then (if bw == bw_8080
        then (if bad_pair chanspec then true else bad_side_band chanspec)
        else if bw == bw_20 || bw == bw_40 || bw == bw_80 || bw == bw_160
        then (if ltb maxchannel (chspec_channel chanspec) then true else bad_side_band chanspec)
        else true)
    else true

-- The search over the center channels, on either side of each for a 20 MHz channel.
unfoldable pub beside_center : ℕ → List ℕ → Bool
beside_center ch [] = false
beside_center ch (c ∷ table) = ch == lower_20_sb c || ch == upper_20_sb c || beside_center ch table

unfoldable pub is_center : ℕ → List ℕ → Bool
is_center ch [] = false
is_center ch (c ∷ table) = ch == c || is_center ch table

unfoldable pub valid_20_5g : ℕ → Bool
unfolding beside_center
valid_20_5g ch =
    beside_center ch wf_5g_40m_chans || ch == 165 || ch == 34 || ch == 38 || ch == 42 || ch == 46

-- `none` is a read of the table of 80 MHz channels past its end.
unfoldable pub valid_pair : ℕ → Option Bool
valid_pair chanspec = do
  ch1 ← get_elem? wf_5g_80m_chans (chspec_chan1 chanspec)
  ch2 ← get_elem? wf_5g_80m_chans (chspec_chan2 chanspec)
  some (ltb (ch1 + ch_80mhz_apart) ch2)

unfoldable pub wf_chspec_valid : ℕ → Option Bool
unfolding wf_chspec_malformed valid_20_5g valid_pair is_center
wf_chspec_valid chanspec =
    let bw = chspec_bw chanspec in
    let ch = chspec_channel chanspec in
    if wf_chspec_malformed chanspec
    then some false
    else if chspec_is2g chanspec
    then some (
        if bw == bw_20
        then leb 1 ch && leb ch 14
        else if bw == bw_40
        then leb 3 ch && leb ch 11
        else false)
    else if chspec_is5g chanspec
    then (if bw == bw_8080
        then valid_pair chanspec
        else some (
            if bw == bw_20
            then valid_20_5g ch
            else if bw == bw_40
            then is_center ch wf_5g_40m_chans
            else if bw == bw_80
            then is_center ch wf_5g_80m_chans
            else if bw == bw_160
            then is_center ch wf_5g_160m_chans
            else false))
    else some false

-- A valid chanspec, as a test.
unfoldable pub is_valid : ℕ → Bool
is_valid chanspec = elim (wf_chspec_valid chanspec) [ some b ↦ b | none ↦ false ]

pub is_valid-eq : (x : ℕ) → wf_chspec_valid x ≡ some true → is_valid x ≡ true
unfolding is_valid
is_valid-eq x v = rw (v, is_valid) refl

pub valid-not-malformed : (x : ℕ) → wf_chspec_valid x ≡ some true → wf_chspec_malformed x ≡ false
unfolding wf_chspec_valid
valid-not-malformed x h = ground arith
