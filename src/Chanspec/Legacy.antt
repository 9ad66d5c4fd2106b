-- ===== src/Chanspec/Legacy.antt =====
-- The legacy format of chanspecs in bcmwifi_channels.c and .h: the code without D11AC_IOTYPES, which
-- is not compiled where that is defined. Bits 0-7 the center channel, 8-9 the control sideband, 10-11
-- the bandwidth, 12-15 the band.
pub mod RoundTrip
mod Tests
use app_loctag.Base.{
  ℕ, ◌+◌, ◌-◌, Bool, true, false, not, ◌&&◌, ◌||◌, [], ◌∷◌, ◌++◌, Bytes, codes, ltb, leb, ◌==◌,
  if◌then◌else◌, byte_at, drop, length, u8, u16, sub32, bit_and, bit_or, pos, signed32,
}
use app_loctag.Libc.Decimal.{decimal, signed_decimal, snprintf}
use app_loctag.Libc.Scan.{strtoul, tolower}
use app_loctag.Chanspec.Fields.{ch_10mhz_apart, ch_20mhz_apart, ch_max_2g_channel, maxchannel}

abbrev pub ctl_sb_lower : ℕ
ctl_sb_lower = 0x0100

abbrev pub ctl_sb_upper : ℕ
ctl_sb_upper = 0x0200

abbrev pub ctl_sb_none : ℕ
ctl_sb_none = 0x0300

abbrev pub bw_10 : ℕ
bw_10 = 0x0400

abbrev pub bw_20 : ℕ
bw_20 = 0x0800

abbrev pub bw_40 : ℕ
bw_40 = 0x0c00

abbrev pub band_5g : ℕ
band_5g = 0x1000

abbrev pub band_2g : ℕ
band_2g = 0x2000

abbrev pub lower_20_sb : ℕ → ℕ
lower_20_sb channel = if ltb ch_10mhz_apart channel then channel - ch_10mhz_apart else 0

abbrev pub upper_20_sb : ℕ → ℕ
upper_20_sb channel =
    if ltb channel (maxchannel - ch_10mhz_apart) then channel + ch_10mhz_apart else 0

unfoldable pub chspec_channel : ℕ → ℕ
chspec_channel chspec = u8 (bit_and chspec 0x00ff)

unfoldable pub chspec_band : ℕ → ℕ
chspec_band chspec = bit_and chspec 0xf000

unfoldable pub chspec_ctl_sb : ℕ → ℕ
chspec_ctl_sb chspec = bit_and chspec 0x0300

unfoldable pub chspec_bw : ℕ → ℕ
chspec_bw chspec = bit_and chspec 0x0c00

abbrev pub chspec_is10 : ℕ → Bool
chspec_is10 chspec = chspec_bw chspec == bw_10

abbrev pub chspec_is20 : ℕ → Bool
chspec_is20 chspec = chspec_bw chspec == bw_20

abbrev pub chspec_is40 : ℕ → Bool
chspec_is40 chspec = chspec_bw chspec == bw_40

abbrev pub chspec_is5g : ℕ → Bool
chspec_is5g chspec = chspec_band chspec == band_5g

abbrev pub chspec_is2g : ℕ → Bool
chspec_is2g chspec = chspec_band chspec == band_2g

abbrev pub chspec_sb_none : ℕ → Bool
chspec_sb_none chspec = chspec_ctl_sb chspec == ctl_sb_none

abbrev pub chspec_sb_upper : ℕ → Bool
chspec_sb_upper chspec = chspec_ctl_sb chspec == ctl_sb_upper

abbrev pub chspec_sb_lower : ℕ → Bool
chspec_sb_lower chspec = chspec_ctl_sb chspec == ctl_sb_lower

-- The band, where it is not the one that the center channel implies.
unfoldable pub band_letter : ℕ → Bytes
band_letter chspec =
    if (chspec_is2g chspec && ltb ch_max_2g_channel (chspec_channel chspec))
      || (chspec_is5g chspec && leb (chspec_channel chspec) ch_max_2g_channel)
    then (if chspec_is2g chspec then codes "b" else codes "a")
    else []

-- `channel` is unsigned and printed by `%d`.
unfoldable pub wf_chspec_ntoa : ℕ → Bytes
unfolding band_letter chspec_bw chspec_ctl_sb chspec_channel decimal signed_decimal snprintf
wf_chspec_ntoa chspec =
    let channel = chspec_channel chspec in
    snprintf 6 (
      if chspec_is40 chspec
      then if chspec_sb_upper chspec
        then decimal (channel + ch_10mhz_apart) ++ (band_letter chspec ++ codes "u")
        else signed_decimal (signed32 (sub32 channel ch_10mhz_apart))
          ++ (band_letter chspec ++ codes "l")
      else if chspec_is10 chspec
      then decimal channel ++ (band_letter chspec ++ codes "n")
      else decimal channel ++ band_letter chspec)

abbrev join : ℕ → ℕ → ℕ → ℕ → ℕ
join channel band bw ctl_sb = u16 (bit_or (bit_or (bit_or channel band) bw) ctl_sb)

-- The bandwidth or the sideband. What stands behind its letter is not read.
unfoldable pub read_width : ℕ → ℕ → Bytes → ℕ
unfolding tolower
read_width channel band a =
    let c = tolower (byte_at a 0) in
    if c == 0
    then join channel band bw_20 ctl_sb_none
    else if c == b'n'
    then join channel band bw_10 ctl_sb_none
    else if c == b'l'
    then (if leb channel (maxchannel - ch_20mhz_apart)
        then join (channel + ch_10mhz_apart) band bw_40 ctl_sb_lower
        else 0)
    else if c == b'u'
    then (if ltb ch_20mhz_apart channel
        then join (channel - ch_10mhz_apart) band bw_40 ctl_sb_upper
        else 0)
    else 0

-- The optional band.
unfoldable pub read_band : ℕ → Bytes → ℕ
unfolding read_width tolower
read_band channel a =
    let c = tolower (byte_at a 0) in
    if c == b'a' || c == b'b'
    then read_width channel (if c == b'a' then band_5g else band_2g) (drop 1 a)
    else read_width channel (if leb channel ch_max_2g_channel then band_2g else band_5g) a

unfoldable pub wf_chspec_aton : Bytes → ℕ
unfolding strtoul read_band
wf_chspec_aton a =
    let (channel, endp) = strtoul 10 a in
    if length endp == length a
    then 0
    else if ltb maxchannel channel
    then 0
    else read_band channel endp

unfoldable pub wf_chspec_malformed : ℕ → Bool
unfolding chspec_band chspec_bw chspec_ctl_sb
wf_chspec_malformed chanspec =
    if not (chspec_is5g chanspec) && not (chspec_is2g chanspec)
    then true
    else if not (chspec_is40 chanspec) && not (chspec_is20 chanspec)
    then true
    else if chspec_is20 chanspec
    then not (chspec_sb_none chanspec)
    else not (chspec_sb_upper chanspec) && not (chspec_sb_lower chanspec)

-- The assertions are empty in a build outside of a driver.
unfoldable pub wf_chspec_ctlchan : ℕ → ℕ
unfolding chspec_ctl_sb chspec_channel
wf_chspec_ctlchan chspec =
    if chspec_sb_none chspec
    then chspec_channel chspec
    else if chspec_sb_upper chspec
    then u8 (upper_20_sb (chspec_channel chspec))
    else u8 (lower_20_sb (chspec_channel chspec))

unfoldable pub wf_chspec_ctlchspec : ℕ → ℕ
unfolding chspec_ctl_sb chspec_channel chspec_band
wf_chspec_ctlchspec chspec =
    if chspec_sb_none chspec
    then chspec
    else let channel = u8 (
        if chspec_sb_upper chspec
        then upper_20_sb (chspec_channel chspec)
        else lower_20_sb (chspec_channel chspec)) in
      u16 (bit_or (u16 (bit_or (bit_or channel bw_20) ctl_sb_none)) (chspec_band chspec))
