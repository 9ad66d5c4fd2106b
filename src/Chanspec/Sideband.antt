-- ===== src/Chanspec/Sideband.antt =====
-- The center channels of the 5 GHz band and the arithmetic between center channel, control
-- channel and sideband: the static tables and helpers of bcmwifi_channels.c.
pub mod Laws
use app_loctag.Base.{
  ℕ, ◌+◌, ◌-◌, ◌*◌, ◌/◌, ◌%◌, ◌^◌, ◌≡◌, refl, Bool, not, List, [], ◌∷◌, Option, none, some, arith,
  Bytes, codes, leb, ◌==◌, if◌then◌else◌, u8, u32, sub32, get_elem?, get_or, ◌>>>◌, length,
}
use app_loctag.Chanspec.Fields.{chspec_bw}

abbrev pub wf_chspec_bw_str : List Bytes
wf_chspec_bw_str =
    codes "5"
    ∷ codes "10"
    ∷ codes "20"
    ∷ codes "40"
    ∷ codes "80"
    ∷ codes "160"
    ∷ codes "80+80"
    ∷ codes "na"
    ∷ []

abbrev pub wf_chspec_bw_mhz : List ℕ
wf_chspec_bw_mhz = 5 ∷ 10 ∷ 20 ∷ 40 ∷ 80 ∷ 160 ∷ 160 ∷ []

abbrev pub wf_5g_40m_chans : List ℕ
wf_5g_40m_chans = 38 ∷ 46 ∷ 54 ∷ 62 ∷ 102 ∷ 110 ∷ 118 ∷ 126 ∷ 134 ∷ 142 ∷ 151 ∷ 159 ∷ []

abbrev pub wf_5g_80m_chans : List ℕ
wf_5g_80m_chans = 42 ∷ 58 ∷ 106 ∷ 122 ∷ 138 ∷ 155 ∷ []

abbrev pub wf_5g_160m_chans : List ℕ
wf_5g_160m_chans = 50 ∷ 114 ∷ []

-- The bandwidth in MHz, 0 for the field value that the table does not list.
unfoldable pub bw_chspec_to_mhz : ℕ → ℕ
unfolding chspec_bw
bw_chspec_to_mhz chspec =
    let bw = chspec_bw chspec >>> 11 in
    if leb (length wf_chspec_bw_mhz) bw then 0 else get_or wf_chspec_bw_mhz bw 0

unfoldable pub center_chan_to_edge : ℕ → ℕ
center_chan_to_edge bw = u8 (sub32 bw 20 / 2 / 5)

unfoldable pub channel_low_edge : ℕ → ℕ → ℕ
unfolding center_chan_to_edge
channel_low_edge center_ch bw = u8 (sub32 center_ch (center_chan_to_edge bw))

-- `none` is the -1 of a control channel that does not fit the center channel.
unfoldable pub channel_to_sb : ℕ → ℕ → ℕ → Option ℕ
unfolding channel_low_edge
channel_to_sb center_ch ctl_ch bw =
    let lowest = channel_low_edge center_ch bw in
    let sb = sub32 ctl_ch lowest / 4 in
    if not (sub32 ctl_ch lowest % 4 == 0) then none else if leb (bw / 20) sb then none else some sb

unfoldable pub channel_to_ctl_chan : ℕ → ℕ → ℕ → ℕ
unfolding channel_low_edge
channel_to_ctl_chan center_ch bw sb = u8 (u32 (channel_low_edge center_ch bw + sb * 4))

-- The loop of `channel_80mhz_to_id` at index `i`.
unfoldable pub index_from : ℕ → List ℕ → ℕ → Option ℕ
index_from ch [] i = none
index_from ch (c ∷ table) i = if ch == c then some i else index_from ch table (i + 1)

-- `none` is the -1 of a channel that is not in the table.
unfoldable pub channel_80mhz_to_id : ℕ → Option ℕ
unfolding index_from
channel_80mhz_to_id ch = index_from ch wf_5g_80m_chans 0

-- The loop over the center channels of one bandwidth, in `wf_chspec_aton` and
-- `wf_channel2chspec`: the first center channel that the control channel fits, and its sideband.
unfoldable pub find_center : List ℕ → ℕ → ℕ → Option (ℕ × ℕ)
unfolding channel_to_sb
find_center [] ctl_ch bw = none
find_center (center ∷ table) ctl_ch bw = elim (channel_to_sb center ctl_ch bw) [
  | some sb ↦ some (center, sb)
  | none ↦ find_center table ctl_ch bw
]

middle : find_center wf_5g_80m_chans 56 80 ≡ some (58, 1)
unfolding find_center
middle = refl
