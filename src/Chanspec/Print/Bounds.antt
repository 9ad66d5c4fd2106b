-- ===== src/Chanspec/Print/Bounds.antt =====
-- The text of a chanspec fits the buffer of CHANSPEC_STR_LEN bytes.
use app_loctag.Base.{
  ℕ, ◌≤◌, ◌<◌, ◌≡◌, ◌⊎◌, inl, inr, none, some, [], ◌++◌, arith, Bytes, length, length-append,
  take-all, get_or, codes, Option-cases, ◌∙◌, ap, ◌>>>◌,
}
use app_loctag.Libc.Decimal.{decimal, snprintf}
use app_loctag.Chanspec.Fields.{chspec_bw, chspec_channel-eq, chspec_chan1, chspec_chan2}
use app_loctag.Chanspec.Sideband.{wf_chspec_bw_str}
use app_loctag.Chanspec.Control.{wf_chspec_ctlchan}
use app_loctag.Chanspec.Control.Total.{PastTable, ctlchan_fault}
use app_loctag.Chanspec.Print.{
  chanspec_str_len, band_str, sb_str, channel_of_id, chspec_text, wf_chspec_ntoa, ntoa-text,
  ntoa-none,
}

length-decimal : (n : ℕ) → n < 1000 → length (decimal n) ≤ 3
unfolding decimal
length-decimal n h = ground arith

length-band_str : (x : ℕ) → length (band_str x) ≤ 2
unfolding band_str
length-band_str x = ground arith

length-sb_str : (x : ℕ) → length (sb_str x) ≤ 1
unfolding sb_str
length-sb_str x = ground arith

length-bw_str : (i : ℕ) → length (get_or wf_chspec_bw_str i []) ≤ 5
length-bw_str i = ground arith

channel_of_id-lt : (i : ℕ) → channel_of_id i < 1000
unfolding channel_of_id
channel_of_id-lt i = ground arith

ctlchan-lt : (x c : ℕ) → wf_chspec_ctlchan x ≡ some c → c < 256
unfolding wf_chspec_ctlchan
ctlchan-lt x c h = ground (arith, chspec_channel-eq x)

length-chspec_text : (x c : ℕ) → c < 256 → length (chspec_text x c) ≤ 17
unfolding chspec_text
length-chspec_text x c small =
    let bw = get_or wf_chspec_bw_str (chspec_bw x >>> 11) [] in
    let first = decimal (channel_of_id (chspec_chan1 x >>> 0)) in
    let second = decimal (channel_of_id (chspec_chan2 x >>> 4)) in
    ground (
      arith,
      length-append (band_str x) (decimal c),
      length-append (band_str x) (decimal c ++ (codes "/" ++ (bw ++ sb_str x))),
      length-append (decimal c) (codes "/" ++ (bw ++ sb_str x)),
      length-append bw (sb_str x),
      length-append (decimal c) (codes "/80+80/" ++ (first ++ (codes "-" ++ second))),
      length-append first (codes "-" ++ second),
      length-band_str x,
      length-sb_str x,
      length-bw_str (chspec_bw x >>> 11),
      length-decimal c (omega arith),
      length-decimal (channel_of_id (chspec_chan1 x >>> 0)) (channel_of_id-lt _),
      length-decimal (channel_of_id (chspec_chan2 x >>> 4)) (channel_of_id-lt _),
    )

snprintf-whole : (text : Bytes) → length text ≤ 17 → snprintf chanspec_str_len text ≡ text
unfolding snprintf
snprintf-whole text h = take-all 19 text (omega arith)

-- For every chanspec, either wf_chspec_ntoa reads past the table of 80 MHz channels and the
-- chanspec is one of those of PastTable, or it prints its whole text, uncut by the buffer of
-- CHANSPEC_STR_LEN bytes.
pub ntoa_whole :
    (x : ℕ)
    → ((wf_chspec_ntoa x ≡ none) × PastTable x)
      ⊎ ((c : ℕ) × (wf_chspec_ctlchan x ≡ some c) × (wf_chspec_ntoa x ≡ some (chspec_text x c)))
ntoa_whole x = elim (Option-cases (wf_chspec_ctlchan x)) [
  | inl fault ↦ inl (ntoa-none x fault, (ctlchan_fault x).0 fault)
  | inr (c, found) ↦ inr (
    c,
    found,
    ntoa-text x c found
        ∙ ap (λ (t : Bytes). some t)
            (snprintf-whole _ (length-chspec_text x c (ctlchan-lt x c found))),
  )
]
