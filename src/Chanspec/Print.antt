-- ===== src/Chanspec/Print.antt =====
-- `wf_chspec_ntoa` of bcmwifi_channels.c with CHANSPEC_NEW_40MHZ_FORMAT.
pub mod Bounds
use app_loctag.Base.{
  ℕ, ◌≡◌, refl, ap, Bool, ◌&&◌, ◌||◌, not, List, [], ◌∷◌, ◌++◌, Option, none, some, Bytes, codes,
  ltb, leb, ◌==◌, if◌then◌else◌, ◌>>=◌, get_elem?, get_or, ◌>>>◌, length,
}
use app_loctag.Libc.Decimal.{decimal, snprintf}
use app_loctag.Chanspec.Fields.{
  ch_max_2g_channel, chspec_channel, chspec_chan1, chspec_chan2, chspec_bw, chspec_is20,
  chspec_is40, chspec_is8080, chspec_is5g, chspec_is2g, chspec_sb_upper,
}
use app_loctag.Chanspec.Sideband.{wf_chspec_bw_str, wf_5g_80m_chans}
use app_loctag.Chanspec.Control.{wf_chspec_ctlchan}

abbrev pub chanspec_str_len : ℕ
chanspec_str_len = 20

-- The band, where it is not the one that the channel number implies.
unfoldable pub band_str : ℕ → Bytes
band_str chspec =
    if (chspec_is2g chspec && ltb ch_max_2g_channel (chspec_channel chspec))
      || (chspec_is5g chspec && leb (chspec_channel chspec) ch_max_2g_channel)
    then (if chspec_is2g chspec then codes "2g" else codes "5g")
    else []

-- The sideband of a 40 MHz channel in the 2.4 GHz band.
unfoldable pub sb_str : ℕ → Bytes
sb_str chspec =
    if chspec_is40 chspec && chspec_is2g chspec
    then (if chspec_sb_upper chspec then codes "u" else codes "l")
    else []

-- The channel of an index, 0 for an index that is not in the table.
unfoldable pub channel_of_id : ℕ → ℕ
channel_of_id id = if ltb id (length wf_5g_80m_chans) then get_or wf_5g_80m_chans id 0 else 0

-- The text that the format strings spell, before the cut.
unfoldable pub chspec_text : ℕ → ℕ → Bytes
chspec_text chspec ctl_chan =
    if chspec_is20 chspec
    then band_str chspec ++ decimal ctl_chan
    else if not (chspec_is8080 chspec)
    then band_str chspec
      ++ (decimal ctl_chan
          ++ (codes "/" ++ (get_or wf_chspec_bw_str (chspec_bw chspec >>> 11) [] ++ sb_str chspec)))
    else decimal ctl_chan
      ++ (codes "/80+80/"
          ++ (decimal (channel_of_id (chspec_chan1 chspec >>> 0))
              ++ (codes "-" ++ decimal (channel_of_id (chspec_chan2 chspec >>> 4)))))

-- `none` is the read past the table in `wf_chspec_ctlchan`.
unfoldable pub wf_chspec_ntoa : ℕ → Option Bytes
unfolding wf_chspec_ctlchan chspec_text snprintf band_str sb_str channel_of_id decimal chspec_bw
wf_chspec_ntoa chspec = do
  ctl_chan ← wf_chspec_ctlchan chspec
  some (snprintf chanspec_str_len (chspec_text chspec ctl_chan))

pub ntoa-text :
    (x c : ℕ)
    → wf_chspec_ctlchan x ≡ some c
    → wf_chspec_ntoa x ≡ some (snprintf chanspec_str_len (chspec_text x c))
unfolding wf_chspec_ntoa
ntoa-text x c h =
    ap (λ (r : Option ℕ). r >>= λ (d : ℕ). some (snprintf chanspec_str_len (chspec_text x d))) h

pub ntoa-none : (x : ℕ) → wf_chspec_ctlchan x ≡ none → wf_chspec_ntoa x ≡ none
unfolding wf_chspec_ntoa
ntoa-none x h =
    ap (λ (r : Option ℕ). r >>= λ (d : ℕ). some (snprintf chanspec_str_len (chspec_text x d))) h
