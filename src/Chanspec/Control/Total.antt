-- ===== src/Chanspec/Control/Total.antt =====
-- Where the control channel of a chanspec is defined.
use Prim.Native.Nat.{◌<◌, ◌≤◌}
use app_loctag.Base.{ℕ, ◌/◌, ◌%◌, ◌≡◌, ◌↔◌, ◌⊎◌, ◌≢◌, none, arith, get_elem?-past, get_elem?-within}
use app_loctag.Chanspec.Fields.{
  chspec_chan1, chspec_chan2, chspec_chan1-eq, chspec_chan2-eq, chspec_bw-eq, chspec_ctl_sb-eq,
}
use app_loctag.Chanspec.Sideband.{wf_5g_80m_chans}
use app_loctag.Chanspec.Control.{wf_chspec_ctlchan}
use app_loctag.Chanspec.WellFormed.{IsWellFormed}

-- The 80+80 MHz chanspecs whose sideband names an index past the six channels of the table. The
-- second index is read with its shift, so that any but 0 is at least 16.
abbrev pub PastTable : ℕ → Type 0
PastTable x =
    (x / 2048 % 8 ≡ 6)
    × (((x / 256 % 8 < 4) × (6 ≤ x % 16)) ⊎ ((4 ≤ x / 256 % 8) × (x / 16 % 16 ≢ 0)))

-- wf_chspec_ctlchan reads past the table of 80 MHz channels exactly for the 80+80 MHz chanspecs
-- whose sideband is below 4 and first index above 5, or whose sideband is 4 or more and second
-- index is not 0.
pub ctlchan_fault : (x : ℕ) → (wf_chspec_ctlchan x ≡ none) ↔ PastTable x
unfolding wf_chspec_ctlchan
ctlchan_fault x = (there, back)
  where
    there : wf_chspec_ctlchan x ≡ none → PastTable x
    there h = ground (
      arith,
      h,
      chspec_bw-eq x,
      chspec_ctl_sb-eq x,
      chspec_chan1-eq x,
      chspec_chan2-eq x,
      get_elem?-within wf_5g_80m_chans (chspec_chan1 x),
      get_elem?-within wf_5g_80m_chans (chspec_chan2 x),
    )

    back : PastTable x → wf_chspec_ctlchan x ≡ none
    back h = ground (
      arith,
      h,
      chspec_bw-eq x,
      chspec_ctl_sb-eq x,
      chspec_chan1-eq x,
      chspec_chan2-eq x,
      get_elem?-past wf_5g_80m_chans (chspec_chan1 x),
      get_elem?-past wf_5g_80m_chans (chspec_chan2 x),
    )

-- A well-formed chanspec has a control channel.
pub ctlchan-IsWellFormed : (x : ℕ) → IsWellFormed x → wf_chspec_ctlchan x ≢ none
ctlchan-IsWellFormed x v fault =
    let past = (ctlchan_fault x).0 fault in ground (arith, past.0, v.coded)
