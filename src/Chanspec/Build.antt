-- ===== src/Chanspec/Build.antt =====
-- The macros of bcmwifi_channels.h under D11AC_IOTYPES that make a chanspec of a center channel, and
-- that name the 20 MHz channels around it.
pub mod Laws
use app_loctag.Base.{ℕ, ◌+◌, ◌-◌, ◌*◌, ltb, leb, if◌then◌else◌, u16, bit_or}
use app_loctag.Chanspec.Fields.{
  ch_10mhz_apart, ch_max_2g_channel, maxchannel, bw_20, bw_40, bw_80, band_2g, band_5g, lower_20_sb,
  upper_20_sb,
}

abbrev pub ll_20_sb : ℕ → ℕ
ll_20_sb channel = if ltb (3 * ch_10mhz_apart) channel then channel - 3 * ch_10mhz_apart else 0

abbrev pub uu_20_sb : ℕ → ℕ
uu_20_sb channel =
    if ltb channel (maxchannel - 3 * ch_10mhz_apart) then channel + 3 * ch_10mhz_apart else 0

abbrev pub lu_20_sb : ℕ → ℕ
lu_20_sb channel = lower_20_sb channel

abbrev pub ul_20_sb : ℕ → ℕ
ul_20_sb channel = upper_20_sb channel

abbrev pub band_of : ℕ → ℕ
band_of channel = if leb channel ch_max_2g_channel then band_2g else band_5g

unfoldable pub ch20mhz_chspec : ℕ → ℕ
ch20mhz_chspec channel = u16 (bit_or (bit_or (u16 channel) bw_20) (band_of channel))

unfoldable pub ch40mhz_chspec : ℕ → ℕ → ℕ
ch40mhz_chspec channel ctlsb = u16 (bit_or (bit_or (bit_or channel ctlsb) bw_40) (band_of channel))

unfoldable pub ch80mhz_chspec : ℕ → ℕ → ℕ
ch80mhz_chspec channel ctlsb = u16 (bit_or (bit_or (bit_or channel ctlsb) bw_80) band_5g)
