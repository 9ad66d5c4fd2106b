-- ===== src/Chanspec/Frequency/Laws.antt =====
-- Frequency and channel number are read off one another.
use app_loctag.Base.{ℕ, ◌^◌, ◌≤◌, ◌<◌, ◌≡◌, ◌≢◌, ◌↔◌, ◌⊎◌, arith, pos}
use app_loctag.Chanspec.Frequency.{
  wf_chan_factor_2_4_g, wf_chan_factor_5_g, wf_mhz2channel, wf_channel2mhz, wf_freq2channel,
  wf_channel2freq,
}

-- For a start factor from 1 to 2 ^ 31, wf_mhz2channel gives a channel back from the frequency that
-- wf_channel2mhz returns for it.
pub mhz2channel-channel2mhz :
    (ch start_factor freq : ℕ)
    → start_factor ≢ 0
    → start_factor ≤ 2 ^ 31
    → wf_channel2mhz ch start_factor ≡ pos freq
    → wf_mhz2channel freq start_factor ≡ pos ch
unfolding wf_mhz2channel wf_channel2mhz
mhz2channel-channel2mhz ch start_factor freq given small h = ground arith

-- For a start factor from 1 to 2 ^ 31, wf_channel2mhz gives a frequency back from the channel that
-- wf_mhz2channel returns for it.
pub channel2mhz-mhz2channel :
    (freq start_factor ch : ℕ)
    → start_factor ≢ 0
    → start_factor ≤ 2 ^ 31
    → wf_mhz2channel freq start_factor ≡ pos ch
    → wf_channel2mhz ch start_factor ≡ pos freq
unfolding wf_mhz2channel wf_channel2mhz
channel2mhz-mhz2channel freq start_factor ch given small h = ground arith

-- For a start factor from 1 to 2 ^ 31, wf_channel2mhz returns a frequency for a channel exactly if
-- wf_mhz2channel returns the channel for the frequency.
pub mhz2channel-channel2mhz_iff :
    (ch start_factor freq : ℕ)
    → start_factor ≢ 0
    → start_factor ≤ 2 ^ 31
    → (wf_channel2mhz ch start_factor ≡ pos freq) ↔ (wf_mhz2channel freq start_factor ≡ pos ch)
mhz2channel-channel2mhz_iff ch start_factor freq given small = (
  mhz2channel-channel2mhz ch start_factor freq given small,
  channel2mhz-mhz2channel freq start_factor ch given small,
)

-- With a start factor of 0, a channel that wf_mhz2channel returns for a frequency above 1000 MHz
-- is a channel from 1 to 14 of the 2.4 GHz base or a channel up to 200 of the 5 GHz base, and the
-- frequency is its center.
pub mhz2channel_default :
    (freq ch : ℕ)
    → 1000 < freq
    → wf_mhz2channel freq 0 ≡ pos ch
    → ((1 ≤ ch) × (ch ≤ 14) × (wf_channel2mhz ch wf_chan_factor_2_4_g ≡ pos freq))
      ⊎ ((ch ≤ 200) × (wf_channel2mhz ch wf_chan_factor_5_g ≡ pos freq))
unfolding wf_mhz2channel wf_channel2mhz
mhz2channel_default freq ch high h = ground arith

-- wf_channel2freq returns a frequency other than 0 for a channel exactly if wf_channel2mhz returns
-- it for the 2.4 GHz base.
pub channel2freq-channel2mhz :
    (ch freq : ℕ)
    → freq ≢ 0
    → (wf_channel2freq ch ≡ freq) ↔ (wf_channel2mhz ch wf_chan_factor_2_4_g ≡ pos freq)
unfolding wf_channel2freq wf_channel2mhz
channel2freq-channel2mhz ch freq some_freq = (λ h. ground (arith, h), λ h. ground (arith, h))

-- wf_freq2channel returns a channel other than 0 for a frequency exactly if wf_mhz2channel returns
-- it for the 2.4 GHz base.
pub freq2channel-mhz2channel :
    (freq ch : ℕ)
    → ch ≢ 0
    → (wf_freq2channel freq ≡ ch) ↔ (wf_mhz2channel freq wf_chan_factor_2_4_g ≡ pos ch)
unfolding wf_freq2channel wf_mhz2channel
freq2channel-mhz2channel freq ch some_ch = (λ h. ground (arith, h), λ h. ground (arith, h))
