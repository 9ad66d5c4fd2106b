-- ===== src/Chanspec/Frequency.antt =====
-- Channel numbers and center frequencies: the last part of bcmwifi_channels.c. BAND5G is not
-- defined in this build, so that `chan_info` has the channels of the 2.4 GHz band alone.
pub mod Laws
use app_loctag.Base.{
  ℕ, ◌+◌, ◌-◌, ◌*◌, ◌/◌, ◌^◌, ◌≡◌, refl, Bool, not, ◌&&◌, ◌||◌, List, [], ◌∷◌, ltb, leb, ◌==◌,
  if◌then◌else◌, u32, ℤ, pos, negsuc, signed32,
}

abbrev pub wf_chan_factor_2_4_g : ℕ
wf_chan_factor_2_4_g = 4814

abbrev pub wf_chan_factor_5_g : ℕ
wf_chan_factor_5_g = 10000

-- The base that a start factor of 0 stands for; outside the two ranges it stays 0.
unfoldable pub default_factor : ℕ → ℕ → ℕ
default_factor freq start_factor =
    if start_factor == 0
    then (if leb 2400 freq && leb freq 2500
        then wf_chan_factor_2_4_g
        else if leb 5000 freq && leb freq 6000
        then wf_chan_factor_5_g
        else start_factor)
    else start_factor

-- `negsuc 0` is the -1 of a frequency that is no channel of the base.
unfoldable pub channel_at : ℕ → ℕ → ℤ
channel_at freq start_factor =
    let base = start_factor / 2 in
    let offset = freq - base in
    let ch = offset / 5 in
    if freq == 2484 && start_factor == wf_chan_factor_2_4_g
    then pos 14
    else if ltb freq base || ltb (u32 (base + 1000)) freq
    then negsuc 0
    else if not (offset == ch * 5)
    then negsuc 0
    else if start_factor == wf_chan_factor_2_4_g && (ltb ch 1 || ltb 13 ch)
    then negsuc 0
    else pos ch

unfoldable pub wf_mhz2channel : ℕ → ℕ → ℤ
unfolding default_factor channel_at
wf_mhz2channel freq start_factor = channel_at freq (default_factor freq start_factor)

-- The sum is an `unsigned int`, and the result the `int` of the same bits.
unfoldable pub wf_channel2mhz : ℕ → ℕ → ℤ
wf_channel2mhz ch start_factor =
    if (start_factor == wf_chan_factor_2_4_g && (ltb ch 1 || ltb 14 ch)) || ltb 200 ch
    then negsuc 0
    else if start_factor == wf_chan_factor_2_4_g && ch == 14
    then pos 2484
    else signed32 (u32 (u32 (ch * 5) + start_factor / 2))

pub record ChanInfo : Type 0 where
  pub chan : ℕ
  pub freq : ℕ

abbrev pub chan_info : List ChanInfo
chan_info =
    record { chan = 1; freq = 2412 }
    ∷ record { chan = 2; freq = 2417 }
    ∷ record { chan = 3; freq = 2422 }
    ∷ record { chan = 4; freq = 2427 }
    ∷ record { chan = 5; freq = 2432 }
    ∷ record { chan = 6; freq = 2437 }
    ∷ record { chan = 7; freq = 2442 }
    ∷ record { chan = 8; freq = 2447 }
    ∷ record { chan = 9; freq = 2452 }
    ∷ record { chan = 10; freq = 2457 }
    ∷ record { chan = 11; freq = 2462 }
    ∷ record { chan = 12; freq = 2467 }
    ∷ record { chan = 13; freq = 2472 }
    ∷ record { chan = 14; freq = 2484 }
    ∷ []

unfoldable pub chan_of_freq : ℕ → List ChanInfo → ℕ
chan_of_freq freq [] = 0
chan_of_freq freq (c ∷ table) = if c.freq == freq then c.chan else chan_of_freq freq table

unfoldable pub freq_of_chan : ℕ → List ChanInfo → ℕ
freq_of_chan channel [] = 0
freq_of_chan channel (c ∷ table) = if c.chan == channel then c.freq else freq_of_chan channel table

unfoldable pub wf_freq2channel : ℕ → ℕ
unfolding chan_of_freq
wf_freq2channel freq = chan_of_freq freq chan_info

unfoldable pub wf_channel2freq : ℕ → ℕ
unfolding freq_of_chan
wf_channel2freq channel = freq_of_chan channel chan_info
