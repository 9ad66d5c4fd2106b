-- ===== src/Chanspec/Legacy/Tests.antt =====
-- Runs of the legacy codec on the examples of the comment above it, and the theorem at a concrete input.
use app_loctag.Base.{◌≡◌, ◌↔◌, refl, arith, false, codes}
use app_loctag.Chanspec.Legacy.{
  chspec_band, chspec_bw, chspec_channel, chspec_ctl_sb, wf_chspec_ntoa, wf_chspec_aton,
  wf_chspec_malformed,
}
use app_loctag.Chanspec.Legacy.RoundTrip.{Rereads, aton-ntoa_iff}

examples :
    (wf_chspec_aton (codes "8") ≡ 0x2b08)
    × (wf_chspec_aton (codes "8b") ≡ 0x2b08)
    × (wf_chspec_aton (codes "8l") ≡ 0x2d0a)
    × (wf_chspec_aton (codes "8a") ≡ 0x1b08)
    × (wf_chspec_aton (codes "36") ≡ 0x1b24)
    × (wf_chspec_aton (codes "36l") ≡ 0x1d26)
    × (wf_chspec_aton (codes "40u") ≡ 0x1e26)
    × (wf_chspec_aton (codes "180n") ≡ 0x17b4)
unfolding wf_chspec_aton
examples = (refl, refl, refl, refl, refl, refl, refl, refl)

-- The band of the center channel is printed, and that of the control channel is read.
wrong_band :
    (wf_chspec_ntoa 0x1d0f ≡ codes "13l")
    × (wf_chspec_aton (codes "13l") ≡ 0x2d0f)
    × (wf_chspec_ntoa 0x2e0e ≡ codes "16u")
    × (wf_chspec_aton (codes "16u") ≡ 0x1e0e)
unfolding wf_chspec_ntoa wf_chspec_aton chspec_channel chspec_band chspec_ctl_sb chspec_bw
wrong_band = (refl, refl, refl, refl)

wrong_band_lem : wf_chspec_malformed 0x1d0f ≡ false
unfolding wf_chspec_malformed chspec_band chspec_ctl_sb chspec_bw
wrong_band_lem = refl

aton-ntoa_iff_example : (wf_chspec_aton (wf_chspec_ntoa 0x1d0f) ≡ 0x1d0f) ↔ Rereads 0x1d0f
aton-ntoa_iff_example = aton-ntoa_iff 0x1d0f (omega arith) wrong_band_lem
