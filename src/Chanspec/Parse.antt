-- ===== src/Chanspec/Parse.antt =====
-- `wf_chspec_aton` of bcmwifi_channels.c.
pub mod Sound
pub mod Wrap
use app_loctag.Base.{
  ℕ, ◌+◌, ◌-◌, ◌≡◌, refl, Bool, true, false, not, ◌&&◌, ◌||◌, List, [], ◌∷◌, Option, none, some,
  Bytes, codes, ltb, leb, ◌==◌, if◌then◌else◌, ◌>>=◌, byte_at, drop, length, u16, bit_or, ◌<<<◌,
}
use mathlib.Core.Option.{get_or}
use app_loctag.Libc.Scan.{strtoul, tolower}
use app_loctag.Chanspec.Fields.{
  ch_max_2g_channel, ctl_sb_lll, ctl_sb_llu, bw_20, bw_40, bw_80, bw_160, bw_8080, band_2g, band_5g,
  lower_20_sb, upper_20_sb,
}
use app_loctag.Chanspec.Sideband.{
  wf_5g_40m_chans, wf_5g_80m_chans, wf_5g_160m_chans, channel_to_sb, channel_80mhz_to_id,
  find_center,
}
use app_loctag.Chanspec.Pair.{read_uint, Call, outside, back, then_call, read_pair}
use app_loctag.Chanspec.Check.{wf_chspec_malformed}

-- What the text spells: the local variables of `wf_chspec_aton` at the label `done_read`.
pub record Spelled : Type 0 where
  pub band : ℕ
  pub ctl_ch : ℕ
  pub bw : ℕ
  pub chspec_bw : ℕ
  pub sb_ul : ℕ
  pub ch1 : ℕ
  pub ch2 : ℕ
  pub rest : Bytes

unfoldable pub band_of_digit : ℕ → Option ℕ
band_of_digit num = if num == 2 then some band_2g else if num == 5 then some band_5g else none

-- Behind the first number: it was a band if a `g` follows, and the channel otherwise.
unfoldable pub channel_from : ℕ × Bytes → Option (ℕ × ℕ × Bytes)
unfolding read_uint band_of_digit tolower
channel_from (num, a) =
    if tolower (byte_at a 0) == b'g'
    then (do band ← band_of_digit num; (ctl_ch, a') ← read_uint (drop 1 a); some (band, ctl_ch, a'))
    else some ((if leb num ch_max_2g_channel then band_2g else band_5g), num, a)

-- The optional band and the channel number.
unfoldable pub read_channel : Bytes → Option (ℕ × ℕ × Bytes)
unfolding read_uint channel_from
read_channel text = read_uint text >>= channel_from

unfoldable pub bw_of_mhz : ℕ → Option ℕ
bw_of_mhz bw =
    if bw == 20
    then some bw_20
    else if bw == 40
    then some bw_40
    else if bw == 80
    then some bw_80
    else if bw == 160
    then some bw_160
    else none

-- The bandwidth, and what is behind it.
unfoldable pub read_bw : Bytes → Option (ℕ × ℕ × Bytes)
unfolding read_uint bw_of_mhz
read_bw text = do (bw, a) ← read_uint text; chspec_bw ← bw_of_mhz bw; some (bw, chspec_bw, a)

-- With the two channels of an 80+80 MHz channel, if they were read.
unfoldable pub paired : ℕ → ℕ → ℕ → Call (ℕ × ℕ × Bytes) → Call Spelled
paired band ctl_ch bw outside = outside
paired band ctl_ch bw (back plus80 none) = back plus80 none
paired band ctl_ch bw (back plus80 (some (ch1, ch2, a))) = back plus80 (
    some (record {
      band = band;
      ctl_ch = ctl_ch;
      bw = bw;
      chspec_bw = bw_8080;
      sb_ul = 0;
      ch1 = ch1;
      ch2 = ch2;
      rest = a;
    }))

-- What may follow the bandwidth.
unfoldable pub width_from : ℕ → ℕ → ℕ → ℕ × ℕ × Bytes → Call Spelled
unfolding read_pair paired tolower
width_from plus80 band ctl_ch (bw, chspec_bw, a) =
    let c = tolower (byte_at a 0) in
    if band == band_2g && bw == 40 && (c == b'u' || c == b'l')
    then back plus80 (
        some (record {
          band = band;
          ctl_ch = ctl_ch;
          bw = bw;
          chspec_bw = chspec_bw;
          sb_ul = c;
          ch1 = 0;
          ch2 = 0;
          rest = drop 1 a;
        }))
    else if c == b'+'
    then paired band ctl_ch bw (read_pair plus80 (drop 1 a))
    else back plus80 (
        some (record {
          band = band;
          ctl_ch = ctl_ch;
          bw = bw;
          chspec_bw = chspec_bw;
          sb_ul = 0;
          ch1 = 0;
          ch2 = 0;
          rest = a;
        }))

-- The bandwidth and what may follow it, from behind the `/`.
unfoldable pub read_width : ℕ → ℕ → ℕ → Bytes → Call Spelled
unfolding read_bw width_from then_call
read_width plus80 band ctl_ch text = then_call plus80 (read_bw text) (width_from plus80 band ctl_ch)

-- Behind the channel number: the end, the old form of 40 MHz, or a bandwidth.
unfoldable pub spelled_from : ℕ → ℕ × ℕ × Bytes → Call Spelled
unfolding read_width tolower
spelled_from plus80 (band, ctl_ch, a) =
    let c = tolower (byte_at a 0) in
    if c == 0
    then back plus80 (
        some (record {
          band = band;
          ctl_ch = ctl_ch;
          bw = 20;
          chspec_bw = bw_20;
          sb_ul = 0;
          ch1 = 0;
          ch2 = 0;
          rest = a;
        }))
    else if c == b'u' || c == b'l'
    then back plus80 (
        some (record {
          band = band;
          ctl_ch = ctl_ch;
          bw = 20;
          chspec_bw = bw_40;
          sb_ul = c;
          ch1 = 0;
          ch2 = 0;
          rest = drop 1 a;
        }))
    else if c == b'/'
    then read_width plus80 band ctl_ch (drop 1 a)
    else back plus80 none

-- The text up to `done_read`.
unfoldable pub read_chanspec : ℕ → Bytes → Call Spelled
unfolding read_channel spelled_from then_call
read_chanspec plus80 text = then_call plus80 (read_channel text) (spelled_from plus80)

unfoldable pub skip_blanks : Bytes → Bytes
skip_blanks [] = []
skip_blanks (c ∷ s) = if c == b' ' then skip_blanks s else c ∷ s

unfoldable pub table_of_bw : ℕ → List ℕ
table_of_bw chspec_bw =
    if chspec_bw == bw_40
    then wf_5g_40m_chans
    else if chspec_bw == bw_80
    then wf_5g_80m_chans
    else if chspec_bw == bw_160
    then wf_5g_160m_chans
    else []

-- The pair of indices and the sideband of an 80+80 MHz channel.
unfoldable pub place_pair : Spelled → Option (ℕ × ℕ)
unfolding channel_80mhz_to_id channel_to_sb
place_pair w = do
  ch1_id ← if leb w.ch2 w.ch1 then none else channel_80mhz_to_id w.ch1
  ch2_id ← channel_80mhz_to_id w.ch2
  sb ← elim (channel_to_sb w.ch1 w.ctl_ch w.bw) [
    | some sb ↦ some sb
    | none ↦ (do sb ← channel_to_sb w.ch2 w.ctl_ch w.bw; some (sb + 4))
  ]
  some (bit_or (ch1_id <<< 0) (ch2_id <<< 4), sb <<< 8)

-- The channel field and the sideband field.
unfoldable pub place : Spelled → Option (ℕ × ℕ)
unfolding place_pair table_of_bw find_center
place w =
    if not (w.sb_ul == 0)
    then (if w.sb_ul == b'l'
        then some (upper_20_sb w.ctl_ch, ctl_sb_lll)
        else if w.sb_ul == b'u'
        then some (lower_20_sb w.ctl_ch, ctl_sb_llu)
        else some (0, 0))
    else if w.chspec_bw == bw_20
    then some (w.ctl_ch, 0)
    else if not (w.chspec_bw == bw_8080)
    then (do
      (center, sb) ← find_center (table_of_bw w.chspec_bw) w.ctl_ch w.bw
      some (center, sb <<< 8))
    else place_pair w

-- The fields joined in the variable `chspec`, which is a `uint16`.
unfoldable pub join_fields : Spelled → ℕ × ℕ → ℕ
join_fields w (chspec_ch, chspec_sb) =
    u16 (bit_or (bit_or (bit_or chspec_ch w.band) w.chspec_bw) chspec_sb)

-- From `done_read` on: the rest of the text must be blank, and the chanspec well-formed.
unfoldable pub finish : Spelled → Option ℕ
unfolding skip_blanks place join_fields wf_chspec_malformed
finish w = do
  fields ← if byte_at (skip_blanks w.rest) 0 == 0 then place w else none
  if wf_chspec_malformed (join_fields w fields) then none else some (join_fields w fields)

-- What a call returns, where 0 stands for each `return 0`.
unfoldable pub returned : Call Spelled → Call ℕ
unfolding finish
returned outside = outside
returned (back plus80 spelled) = back plus80 (some (get_or (spelled >>= finish) 0))

-- A call of `wf_chspec_aton`, with the position of the static pointer before it and behind it.
unfoldable pub call_aton : ℕ → Bytes → Call ℕ
unfolding read_chanspec returned
call_aton plus80 text = returned (read_chanspec plus80 text)

-- The value of a call that comes back.
unfoldable pub value : Call ℕ → ℕ
value (back plus80 (some n)) = n
value (back plus80 none) = 0
value outside = 0

-- The value of the first call of a process; the callers take it for that of every call that comes back.
unfoldable pub wf_chspec_aton : Bytes → ℕ
unfolding call_aton value
wf_chspec_aton text = value (call_aton 0 text)

-- The two stages, for proofs in which they stay shut.
pub aton-returned : (text : Bytes) → wf_chspec_aton text ≡ value (returned (read_chanspec 0 text))
unfolding wf_chspec_aton
aton-returned text = refl

pub call_aton-eq :
    (plus80 : ℕ) (text : Bytes) → call_aton plus80 text ≡ returned (read_chanspec plus80 text)
unfolding call_aton
call_aton-eq plus80 text = refl

pub read_chanspec-eq :
    (plus80 : ℕ) (text : Bytes)
    → read_chanspec plus80 text
      ≡ then_call plus80 (read_uint text >>= channel_from) (spelled_from plus80)
unfolding read_chanspec
read_chanspec-eq plus80 text = refl

pub finish-eq :
    (w : Spelled)
    → finish w ≡ (
        (if byte_at (skip_blanks w.rest) 0 == 0 then place w else none) >>= λ fields.
        if wf_chspec_malformed (join_fields w fields) then none else some (join_fields w fields))
unfolding finish
finish-eq w = refl
