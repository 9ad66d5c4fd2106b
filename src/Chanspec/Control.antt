-- ===== src/Chanspec/Control.antt =====
-- `wf_chspec_ctlchan`, `wf_chspec_ctlchspec`, `wf_chspec_primary40_chspec` and
-- `wf_channel2chspec` of bcmwifi_channels.c. Its `ASSERT` is empty in this build.
pub mod Total
pub mod Narrow
pub mod Search
use app_loctag.Base.{
  ℕ, ◌+◌, ◌-◌, ◌/◌, ◌%◌, ◌^◌, ◌≡◌, refl, Bool, true, false, Option, none, some, arith, ltb, leb,
  ◌==◌, if◌then◌else◌, ◌>>=◌, get_elem?, u16, sub32, u32, bit_or, ◌>>>◌, ◌<<<◌, List,
}
use app_loctag.Chanspec.Fields.{
  ch_20mhz_apart, ch_max_2g_channel, ctl_sb_lll, ctl_sb_llu, ctl_sb_lul, ctl_sb_luu, bw_20, bw_40,
  bw_80, bw_160, band_2g, band_5g, chspec_channel, chspec_chan1, chspec_chan2, chspec_band,
  chspec_ctl_sb, chspec_bw, chspec_is20, chspec_is80, chspec_is8080,
}
use app_loctag.Chanspec.Sideband.{
  wf_5g_40m_chans, wf_5g_80m_chans, wf_5g_160m_chans, bw_chspec_to_mhz, channel_to_ctl_chan,
  find_center,
}

-- The control channel of an 80+80 MHz pair: of its first channel for the sidebands 0-3, of its
-- second for 4-7. `none` is a read of the table past its end.
unfoldable pub ctlchan_of_pair : ℕ → ℕ → Option ℕ
unfolding channel_to_ctl_chan
ctlchan_of_pair chspec sb =
    if ltb sb 4
    then (do
      center_chan ← get_elem? wf_5g_80m_chans (chspec_chan1 chspec)
      some (channel_to_ctl_chan center_chan 80 sb))
    else (do
      center_chan ← get_elem? wf_5g_80m_chans (chspec_chan2 chspec)
      some (channel_to_ctl_chan center_chan 80 (sb - 4)))

unfoldable pub wf_chspec_ctlchan : ℕ → Option ℕ
unfolding ctlchan_of_pair bw_chspec_to_mhz
wf_chspec_ctlchan chspec =
    let sb = chspec_ctl_sb chspec >>> 8 in
    if chspec_is20 chspec
    then some (chspec_channel chspec)
    else if chspec_is8080 chspec
    then ctlchan_of_pair chspec sb
    else some (channel_to_ctl_chan (chspec_channel chspec >>> 0) (bw_chspec_to_mhz chspec) sb)

unfoldable pub wf_chspec_ctlchspec : ℕ → Option ℕ
unfolding wf_chspec_ctlchan
wf_chspec_ctlchspec chspec = if chspec_is20 chspec then some chspec else (do
  ctl_chan ← wf_chspec_ctlchan chspec
  some (u16 (bit_or (bit_or ctl_chan bw_20) (chspec_band chspec))))

-- The sideband and the center channel of the primary 40 MHz.
unfoldable pub primary40_half : ℕ → ℕ × ℕ
primary40_half chspec =
    let center_chan = chspec_channel chspec in
    let sb = chspec_ctl_sb chspec in
    if sb == ctl_sb_lul
    then (ctl_sb_lll, center_chan + ch_20mhz_apart)
    else if sb == ctl_sb_luu
    then (ctl_sb_llu, center_chan + ch_20mhz_apart)
    else (sb, sub32 center_chan ch_20mhz_apart)

unfoldable pub wf_chspec_primary40_chspec : ℕ → ℕ
unfolding primary40_half
wf_chspec_primary40_chspec chspec =
    let (sb, center_chan) = primary40_half chspec in
    if chspec_is80 chspec
    then u16 (bit_or (bit_or (bit_or band_5g bw_40) sb) center_chan)
    else chspec

-- The search of `wf_channel2chspec`, with the fields that are joined so far.
unfoldable pub center_chspec : ℕ → List ℕ → ℕ → ℕ → ℕ
unfolding find_center
center_chspec chspec table ctl_ch bw = elim (find_center table ctl_ch bw) [
  | some (center, sb) ↦ u16 (bit_or (u16 (bit_or chspec center)) (sb <<< 8))
  | none ↦ 0
]

unfoldable pub wf_channel2chspec : ℕ → ℕ → ℕ
unfolding center_chspec
wf_channel2chspec ctl_ch bw =
    let chspec = u16 (bit_or (if leb ctl_ch ch_max_2g_channel then band_2g else band_5g) bw) in
    if bw == bw_40
    then center_chspec chspec wf_5g_40m_chans ctl_ch 40
    else if bw == bw_80
    then center_chspec chspec wf_5g_80m_chans ctl_ch 80
    else if bw == bw_160
    then center_chspec chspec wf_5g_160m_chans ctl_ch 160
    else if bw == bw_20
    then u16 (bit_or chspec ctl_ch)
    else 0
