-- ===== src/Chanspec/Tests.antt =====
-- Runs of the codec on the examples of the comment above it in bcmwifi_channels.c, and the
-- theorems about it at concrete inputs.
use app_loctag.Base.{
  ℕ, ◌+◌, ◌*◌, ◌<◌, ◌≡◌, ◌↔◌, ◌⊎◌, inl, inr, refl, arith, Bytes, codes, some, none, true, false,
  ◌++◌, pos,
}
use app_loctag.Libc.Decimal.{decimal}
use app_loctag.Chanspec.Fields.{
  bw_20, bw_40, bw_80, bw_160, bw_8080, chspec_band, chspec_channel, chspec_ctl_sb, chspec_bw,
  chspec_chan1, chspec_chan2,
}
use app_loctag.Chanspec.Sideband.{channel_to_sb, channel_to_ctl_chan}
use app_loctag.Chanspec.Sideband.Laws.{channel_to_sb-channel_to_ctl_chan}
use app_loctag.Chanspec.Check.{wf_chspec_malformed, wf_chspec_valid}
use app_loctag.Chanspec.Control.{
  wf_chspec_ctlchan, wf_chspec_ctlchspec, wf_chspec_primary40_chspec, wf_channel2chspec,
}
use app_loctag.Chanspec.Control.Total.{PastTable, ctlchan_fault}
use app_loctag.Chanspec.Control.Narrow.{Narrows, ctlchspec-Narrows, primary40-Narrows}
use app_loctag.Chanspec.Control.Search.{
  channel2chspec-ctlchan, channel2chspec_sound, aton-channel2chspec,
}
use app_loctag.Chanspec.Print.{chspec_text, wf_chspec_ntoa}
use app_loctag.Chanspec.Print.Bounds.{ntoa_whole}
use app_loctag.Chanspec.Pair.{outside, back}
use app_loctag.Chanspec.Parse.{Spelled, read_chanspec, call_aton, wf_chspec_aton}
use app_loctag.Chanspec.Parse.Sound.{aton-IsWellFormed}
use app_loctag.Chanspec.Parse.Wrap.{aton-decimal_wraps}
use app_loctag.Chanspec.WellFormed.{IsWellFormed, malformed-IsWellFormed}
use app_loctag.Chanspec.RoundTrip.{aton-ntoa}
use app_loctag.Chanspec.Frequency.{wf_chan_factor_5_g, wf_mhz2channel, wf_channel2mhz}
use app_loctag.Chanspec.Build.Laws.{NamesSidebands, ctlchan-NamesSidebands}
use app_loctag.Chanspec.Frequency.Laws.{mhz2channel-channel2mhz_iff}

reads_examples :
    (wf_chspec_aton (codes "5g8") ≡ 0xd008)
    × (wf_chspec_aton (codes "56/40") ≡ 0xd936)
    × (wf_chspec_aton (codes "64/80") ≡ 0xe33a)
    × (wf_chspec_aton (codes "52/160") ≡ 0xec32)
    × (wf_chspec_aton (codes "6u") ≡ 0x1904)
    × (wf_chspec_aton (codes "6/40l ") ≡ 0x1808)
    × (wf_chspec_aton (codes "36/80+80/42-106") ≡ 0)
unfolding wf_chspec_aton chspec_band chspec_channel chspec_ctl_sb chspec_bw chspec_chan1
    chspec_chan2
reads_examples = (refl, refl, refl, refl, refl, refl, refl)

prints_examples :
    (wf_chspec_ntoa 0xd008 ≡ some (codes "5g8"))
    × (wf_chspec_ntoa 0xe33a ≡ some (codes "64/80"))
    × (wf_chspec_ntoa 0x1904 ≡ some (codes "6/40u"))
unfolding wf_chspec_ntoa chspec_band chspec_channel chspec_ctl_sb
prints_examples = (refl, refl, refl)

-- Channel 64 at 80 MHz.
abbrev wide_chspec : ℕ
wide_chspec = 0xe33a

wide_valid : wf_chspec_valid wide_chspec ≡ some true
unfolding wf_chspec_valid chspec_band chspec_channel chspec_ctl_sb chspec_bw
wide_valid = refl

aton-ntoa_example :
    (text : Bytes) × (wf_chspec_ntoa wide_chspec ≡ some text) × (wf_chspec_aton text ≡ wide_chspec)
aton-ntoa_example = aton-ntoa wide_chspec (omega arith) wide_valid

malformed-IsWellFormed_example :
    (wf_chspec_malformed wide_chspec ≡ false) ↔ IsWellFormed wide_chspec
malformed-IsWellFormed_example = malformed-IsWellFormed wide_chspec

-- The static pointer is where a text with `80+80` has left it.
aton-IsWellFormed_example :
    ((call_aton 3 (codes "64/80") ≡ outside) × (0 < 3))
    ⊎ ((plus80' : ℕ) × (call_aton 3 (codes "64/80")
          ≡ back plus80' (some (wf_chspec_aton (codes "64/80"))))
        × ((wf_chspec_aton (codes "64/80") ≡ 0)
            ⊎ (IsWellFormed (wf_chspec_aton (codes "64/80"))
                × (wf_chspec_aton (codes "64/80") < 65536))))
aton-IsWellFormed_example = aton-IsWellFormed 3 (codes "64/80")

-- The 80+80 MHz example of the comment.
abbrev pair_text : Bytes
pair_text = codes "36/80+80/42-106"

abbrev pair_spelled : Spelled
pair_spelled = record {
  band = 0xc000;
  ctl_ch = 36;
  bw = 80;
  chspec_bw = bw_8080;
  sb_ul = 0;
  ch1 = 42;
  ch2 = 106;
  rest = codes "";
}

pair_reads : read_chanspec 0 pair_text ≡ back 3 (some pair_spelled)
unfolding read_chanspec
pair_reads = refl

-- The same text three times in a process.
pair_calls :
    (call_aton 0 pair_text ≡ back 3 (some 0))
    × (call_aton 3 pair_text ≡ back 4 (some 0))
    × (call_aton 4 pair_text ≡ outside)
unfolding call_aton chspec_band chspec_channel chspec_ctl_sb chspec_bw chspec_chan1 chspec_chan2
pair_calls = (refl, refl, refl)

ntoa_whole_example :
    ((wf_chspec_ntoa wide_chspec ≡ none) × PastTable wide_chspec)
    ⊎ ((c : ℕ) × (wf_chspec_ctlchan wide_chspec ≡ some c)
        × (wf_chspec_ntoa wide_chspec ≡ some (chspec_text wide_chspec c)))
ntoa_whole_example = ntoa_whole wide_chspec

ctlchan_fault_example : (wf_chspec_ctlchan 0xf710 ≡ none) ↔ PastTable 0xf710
ctlchan_fault_example = ctlchan_fault 0xf710

ctlchspec-Narrows_example :
    (y : ℕ) × (wf_chspec_ctlchspec wide_chspec ≡ some y) × Narrows bw_20 wide_chspec y
ctlchspec-Narrows_example = ctlchspec-Narrows wide_chspec (omega arith) wide_valid

wide_is80 : chspec_bw wide_chspec ≡ bw_80
unfolding chspec_bw
wide_is80 = refl

primary40-Narrows_example : Narrows bw_40 wide_chspec (wf_chspec_primary40_chspec wide_chspec)
primary40-Narrows_example =
    primary40-Narrows wide_chspec (omega arith) wide_valid (ground (arith, wide_is80))

channel_to_sb-channel_to_ctl_chan_example :
    (channel_to_sb 58 64 80 ≡ some 3) ↔ ((3 < 4) × (channel_to_ctl_chan 58 80 3 ≡ 64))
channel_to_sb-channel_to_ctl_chan_example =
    channel_to_sb-channel_to_ctl_chan 58 64 80 3 (inr (inl refl)) (omega arith) (omega arith)

wide_band : chspec_band wide_chspec ≡ 0xc000
unfolding chspec_band
wide_band = refl

channel2chspec-ctlchan_example :
    (ctl_ch : ℕ) × (wf_chspec_ctlchan wide_chspec ≡ some ctl_ch)
    × (wf_channel2chspec ctl_ch (chspec_bw wide_chspec) ≡ wide_chspec)
channel2chspec-ctlchan_example =
    channel2chspec-ctlchan wide_chspec (omega arith) wide_valid (ground (arith, wide_band))

found_64 : wf_channel2chspec 64 bw_80 ≡ wide_chspec
unfolding wf_channel2chspec
found_64 = refl

channel2chspec_sound_example :
    (wf_chspec_valid (wf_channel2chspec 64 bw_80) ≡ some true)
    × (chspec_bw (wf_channel2chspec 64 bw_80) ≡ bw_80)
    × (wf_chspec_ctlchan (wf_channel2chspec 64 bw_80) ≡ some 64)
channel2chspec_sound_example =
    channel2chspec_sound 64 bw_80 (omega arith) (inr (inl refl)) (omega (arith, found_64))

aton-channel2chspec_example :
    (wf_chspec_aton (decimal 64 ++ codes "/20") ≡ wf_channel2chspec 64 bw_20)
    × (wf_chspec_aton (decimal 64 ++ codes "/40") ≡ wf_channel2chspec 64 bw_40)
    × (wf_chspec_aton (decimal 64 ++ codes "/80") ≡ wf_channel2chspec 64 bw_80)
    × (wf_chspec_aton (decimal 64 ++ codes "/160") ≡ wf_channel2chspec 64 bw_160)
aton-channel2chspec_example = aton-channel2chspec 64 (omega arith)

-- "65572" is taken for channel 36.
aton-decimal_wraps_example : wf_chspec_aton (decimal (36 + 1 * 65536)) ≡ wf_chspec_aton (decimal 36)
aton-decimal_wraps_example = aton-decimal_wraps 36 1 (omega arith) (omega arith)

channel_36 : wf_channel2mhz 36 wf_chan_factor_5_g ≡ pos 5180
unfolding wf_channel2mhz
channel_36 = refl

mhz_5180 : (wf_mhz2channel 5180 wf_chan_factor_5_g ≡ pos 36) × (wf_mhz2channel 5180 0 ≡ pos 36)
unfolding wf_mhz2channel
mhz_5180 = (refl, refl)

mhz2channel-channel2mhz_iff_example :
    (wf_channel2mhz 36 wf_chan_factor_5_g ≡ pos 5180)
    ↔ (wf_mhz2channel 5180 wf_chan_factor_5_g ≡ pos 36)
mhz2channel-channel2mhz_iff_example =
    mhz2channel-channel2mhz_iff 36 wf_chan_factor_5_g 5180 (omega arith) (omega arith)

ctlchan-NamesSidebands_example : NamesSidebands 42
ctlchan-NamesSidebands_example = ctlchan-NamesSidebands 42 (omega arith) (omega arith)
