-- ===== src/Chanspec/Fields.antt =====
-- The fields of a chanspec: the constants and macros of bcmwifi_channels.h under D11AC_IOTYPES.
-- A chanspec is a `uint16`: bits 0-7 the center channel (or two indices of 80 MHz channels),
-- 8-10 the control sideband, 11-13 the bandwidth, 14-15 the band.
use app_loctag.Base.{
  ℕ, ◌+◌, ◌-◌, ◌*◌, ◌/◌, ◌%◌, ◌≡◌, Bool, ◌&&◌, arith, ltb, ◌==◌, if◌then◌else◌, u8, bit_and,
  bit_and_mask, bit_and_high,
}

abbrev pub ch_10mhz_apart : ℕ
ch_10mhz_apart = 2

abbrev pub ch_20mhz_apart : ℕ
ch_20mhz_apart = 4

abbrev pub ch_80mhz_apart : ℕ
ch_80mhz_apart = 16

abbrev pub ch_max_2g_channel : ℕ
ch_max_2g_channel = 14

abbrev pub maxchannel : ℕ
maxchannel = 224

abbrev pub ctl_sb_lll : ℕ
ctl_sb_lll = 0x0000

abbrev pub ctl_sb_llu : ℕ
ctl_sb_llu = 0x0100

abbrev pub ctl_sb_lul : ℕ
ctl_sb_lul = 0x0200

abbrev pub ctl_sb_luu : ℕ
ctl_sb_luu = 0x0300

abbrev pub bw_20 : ℕ
bw_20 = 0x1000

abbrev pub bw_40 : ℕ
bw_40 = 0x1800

abbrev pub bw_80 : ℕ
bw_80 = 0x2000

abbrev pub bw_160 : ℕ
bw_160 = 0x2800

abbrev pub bw_8080 : ℕ
bw_8080 = 0x3000

abbrev pub band_2g : ℕ
band_2g = 0x0000

abbrev pub band_5g : ℕ
band_5g = 0xc000

unfoldable pub chspec_channel : ℕ → ℕ
chspec_channel chspec = u8 (bit_and chspec 0x00ff)

unfoldable pub chspec_chan1 : ℕ → ℕ
chspec_chan1 chspec = bit_and chspec 0x000f

-- The field in its place: the macro does not shift it down.
unfoldable pub chspec_chan2 : ℕ → ℕ
chspec_chan2 chspec = bit_and chspec 0x00f0

unfoldable pub chspec_band : ℕ → ℕ
chspec_band chspec = bit_and chspec 0xc000

unfoldable pub chspec_ctl_sb : ℕ → ℕ
chspec_ctl_sb chspec = bit_and chspec 0x0700

unfoldable pub chspec_bw : ℕ → ℕ
chspec_bw chspec = bit_and chspec 0x3800

abbrev pub chspec_is20 : ℕ → Bool
chspec_is20 chspec = chspec_bw chspec == bw_20

abbrev pub chspec_is40 : ℕ → Bool
chspec_is40 chspec = chspec_bw chspec == bw_40

abbrev pub chspec_is80 : ℕ → Bool
chspec_is80 chspec = chspec_bw chspec == bw_80

abbrev pub chspec_is8080 : ℕ → Bool
chspec_is8080 chspec = chspec_bw chspec == bw_8080

abbrev pub chspec_is5g : ℕ → Bool
chspec_is5g chspec = chspec_band chspec == band_5g

abbrev pub chspec_is2g : ℕ → Bool
chspec_is2g chspec = chspec_band chspec == band_2g

abbrev pub chspec_sb_upper : ℕ → Bool
chspec_sb_upper chspec = chspec_ctl_sb chspec == ctl_sb_llu && chspec_bw chspec == bw_40

abbrev pub lower_20_sb : ℕ → ℕ
lower_20_sb channel = if ltb ch_10mhz_apart channel then channel - ch_10mhz_apart else 0

abbrev pub upper_20_sb : ℕ → ℕ
upper_20_sb channel =
    if ltb channel (maxchannel - ch_10mhz_apart) then channel + ch_10mhz_apart else 0

-- Each field as a remainder of a quotient, which `omega` reads.
pub chspec_channel-eq : (x : ℕ) → chspec_channel x ≡ x % 256
unfolding chspec_channel
chspec_channel-eq x = omega (arith, bit_and_mask 8 x)

pub chspec_chan1-eq : (x : ℕ) → chspec_chan1 x ≡ x % 16
unfolding chspec_chan1
chspec_chan1-eq x = bit_and_mask 4 x

pub chspec_chan2-eq : (x : ℕ) → chspec_chan2 x ≡ x / 16 % 16 * 16
unfolding chspec_chan2
chspec_chan2-eq x = omega (arith, bit_and_high 4 x 15, bit_and_mask 4 (x / 16))

pub chspec_ctl_sb-eq : (x : ℕ) → chspec_ctl_sb x ≡ x / 256 % 8 * 256
unfolding chspec_ctl_sb
chspec_ctl_sb-eq x = omega (arith, bit_and_high 8 x 7, bit_and_mask 3 (x / 256))

pub chspec_bw-eq : (x : ℕ) → chspec_bw x ≡ x / 2048 % 8 * 2048
unfolding chspec_bw
chspec_bw-eq x = omega (arith, bit_and_high 11 x 7, bit_and_mask 3 (x / 2048))

pub chspec_band-eq : (x : ℕ) → chspec_band x ≡ x / 16384 % 4 * 16384
unfolding chspec_band
chspec_band-eq x = omega (arith, bit_and_high 14 x 3, bit_and_mask 2 (x / 16384))
