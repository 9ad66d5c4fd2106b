-- ===== src/Chanspec/Sideband/Laws.antt =====
-- Sideband and control channel determine one another, given the center channel.
use app_loctag.Base.{ℕ, ◌+◌, ◌/◌, ◌^◌, ◌≤◌, ◌<◌, ◌≡◌, ◌↔◌, ◌⊎◌, some, arith}
use app_loctag.Chanspec.Sideband.{
  channel_low_edge, center_chan_to_edge, channel_to_sb, channel_to_ctl_chan,
}

-- The wide bandwidths, in MHz, and the distance from the center channel to the first 20 MHz channel.
abbrev pub IsWide : ℕ → Type 0
IsWide bw = (bw ≡ 40) ⊎ (bw ≡ 80) ⊎ (bw ≡ 160)

-- A center channel that leaves room for its band among the channel numbers of a byte.
pub record HasRoom (bw center_ch : ℕ) : Type 0 where
  pub above : bw / 10 ≤ center_ch + 2
  pub below : center_ch + bw / 10 < 256 + 2

-- For a bandwidth of 40, 80 or 160 MHz, a center channel with room for the band and a control
-- channel of 32 bits, channel_to_sb returns a sideband exactly if the sideband is below the number
-- of 20 MHz channels and channel_to_ctl_chan gives the control channel back for it.
pub channel_to_sb-channel_to_ctl_chan :
    (center_ch ctl_ch bw sb : ℕ)
    → IsWide bw
    → HasRoom bw center_ch
    → ctl_ch < 2 ^ 32
    → (channel_to_sb center_ch ctl_ch bw ≡ some sb)
      ↔ ((sb < bw / 20) × (channel_to_ctl_chan center_ch bw sb ≡ ctl_ch))
unfolding channel_to_sb channel_to_ctl_chan channel_low_edge center_chan_to_edge
channel_to_sb-channel_to_ctl_chan center_ch ctl_ch bw sb wide room fits =
    (λ h. ground (arith, h), λ h. ground (arith, h))
