-- ===== src/Chanspec/Legacy/RoundTrip.antt =====
-- Printing and parsing in the legacy format, and the control channel.
use app_loctag.Base.{
  ℕ, ◌+◌, ◌*◌, ◌/◌, ◌%◌, ◌≤◌, ◌<◌, ◌≡◌, refl, sym, ◌∙◌, inl, inr, ◌⊎◌, ◌↔◌, Bool, true, false, ◌&&◌,
  ◌||◌, not, List, [], ◌∷◌, ◌==◌, leb, if◌then◌else◌, holds_below, arith, ==_iff, bit_and_mask,
  bit_and_high,
}
use app_loctag.Chanspec.WellFormed.{on_heads, on_heads_sound, is_head}
use app_loctag.Chanspec.Legacy.{
  wf_chspec_ntoa, wf_chspec_aton, wf_chspec_malformed, wf_chspec_ctlchan, wf_chspec_ctlchspec,
  chspec_channel, chspec_band, chspec_ctl_sb, chspec_bw,
}

-- The high bytes that a well-formed chanspec can have.
abbrev legacy_heads : List ℕ
legacy_heads = 0x1b ∷ 0x2b ∷ 0x1d ∷ 0x1e ∷ 0x2d ∷ 0x2e ∷ []

chspec_ctl_sb-eq : (x : ℕ) → chspec_ctl_sb x ≡ x / 256 % 4 * 256
unfolding chspec_ctl_sb
chspec_ctl_sb-eq x = omega (arith, bit_and_high 8 x 3, bit_and_mask 2 (x / 256))

chspec_bw-eq : (x : ℕ) → chspec_bw x ≡ x / 1024 % 4 * 1024
unfolding chspec_bw
chspec_bw-eq x = omega (arith, bit_and_high 10 x 3, bit_and_mask 2 (x / 1024))

chspec_band-eq : (x : ℕ) → chspec_band x ≡ x / 4096 % 16 * 4096
unfolding chspec_band
chspec_band-eq x = omega (arith, bit_and_high 12 x 15, bit_and_mask 4 (x / 4096))

malformed-is_head :
    (x : ℕ) → x < 65536 → wf_chspec_malformed x ≡ false → is_head (x / 256) legacy_heads ≡ true
unfolding wf_chspec_malformed is_head
malformed-is_head x h w = ground (arith, chspec_ctl_sb-eq x, chspec_bw-eq x, chspec_band-eq x)

-- Every fact of the well-formed chanspecs is checked at their high bytes.
by_table :
    (p : ℕ → Bool)
    → on_heads p legacy_heads ≡ true
    → (x : ℕ) → x < 65536
    → wf_chspec_malformed x ≡ false
    → p x ≡ true
by_table p table x h w = on_heads_sound p legacy_heads x table (malformed-is_head x h w)

-- The chanspecs whose text says what they are: the control channel is one that the parser takes, and
-- where no band is printed, it implies the band.
is_reread : ℕ → Bool
is_reread x =
    let channel = x % 256 in
    if x / 1024 % 4 == 2
    then leb channel 224
    else if x / 256 % 4 == 1
    then leb 2 channel && leb channel 222 && (x / 4096 == 2 || leb channel 14 || leb 17 channel)
    else leb 3 channel && leb channel 222 && (x / 4096 == 1 || leb channel 12 || leb 15 channel)

-- The same as ranges of the center channel, for 20 MHz and for 40 MHz with the lower and with the upper
-- sideband; band 1 is that of 5 GHz.
pub data Rereads (x : ℕ) : Type 0 where
  narrow : x / 1024 % 4 ≡ 2 → x % 256 ≤ 224 → Rereads x
  lower :
      x / 1024 % 4 ≡ 3
      → x / 256 % 4 ≡ 1
      → 2 ≤ x % 256
      → x % 256 ≤ 222
      → (x / 4096 ≡ 2) ⊎ (x % 256 ≤ 14) ⊎ (17 ≤ x % 256)
      → Rereads x
  upper :
      x / 1024 % 4 ≡ 3
      → x / 256 % 4 ≡ 2
      → 3 ≤ x % 256
      → x % 256 ≤ 222
      → (x / 4096 ≡ 1) ⊎ (x % 256 ≤ 12) ⊎ (15 ≤ x % 256)
      → Rereads x

same : Bool → Bool → Bool
same true b = b
same false b = not b

same-eq : (a b : Bool) → same a b ≡ true → a ≡ b
unfolding same
same-eq a b h = ground arith

reread_table :
    on_heads (λ x. same (wf_chspec_aton (wf_chspec_ntoa x) == x) (is_reread x)) legacy_heads ≡ true
unfolding same is_reread wf_chspec_ntoa wf_chspec_aton on_heads holds_below chspec_channel
    chspec_band chspec_ctl_sb chspec_bw
reread_table = refl

Rereads-is_reread :
    (x : ℕ) → x < 65536 → wf_chspec_malformed x ≡ false → (is_reread x ≡ true) ↔ Rereads x
unfolding wf_chspec_malformed is_reread
Rereads-is_reread x h w = (there, back)
  where
    fields : (x / 1024 % 4 ≡ 2) ⊎ ((x / 1024 % 4 ≡ 3) × ((x / 256 % 4 ≡ 1) ⊎ (x / 256 % 4 ≡ 2)))
    fields = ground (arith, chspec_ctl_sb-eq x, chspec_bw-eq x, chspec_band-eq x, w)

    there : is_reread x ≡ true → Rereads x
    there r = elim fields [
      | inl b ↦ narrow b (ground arith)
      | inr (b, inl s) ↦ lower b s (ground arith) (ground arith) (ground arith)
      | inr (b, inr s) ↦ upper b s (ground arith) (ground arith) (ground arith)
    ]

    back : Rereads x → is_reread x ≡ true
    back (narrow b c) = ground arith
    back (lower b s c d e) = ground arith
    back (upper b s c d e) = ground arith

-- In the legacy format, wf_chspec_aton reads what wf_chspec_ntoa prints of a well-formed chanspec
-- of 16 bits as this chanspec exactly if its center channel is in a range: up to 224 for 20 MHz;
-- for 40 MHz from 2, or 3 with the upper sideband, to 222, without the centers 15 and 16 in the 5
-- GHz band for the lower and 13 and 14 in the 2.4 GHz band for the upper sideband.
pub aton-ntoa_iff :
    (x : ℕ)
    → x < 65536
    → wf_chspec_malformed x ≡ false
    → (wf_chspec_aton (wf_chspec_ntoa x) ≡ x) ↔ Rereads x
aton-ntoa_iff x h w =
    let agree = same-eq (wf_chspec_aton (wf_chspec_ntoa x) == x) (is_reread x) (
      by_table (λ (y : ℕ). same (wf_chspec_aton (wf_chspec_ntoa y) == y) (is_reread y)) reread_table
        x h w) in
    let test = ==_iff (wf_chspec_aton (wf_chspec_ntoa x)) x in
    let range = Rereads-is_reread x h w in
    (λ e. range.0 (sym agree ∙ test.1 e), λ r. test.0 (agree ∙ range.1 r))

narrowed : ℕ → Bool
narrowed x =
    let y = wf_chspec_ctlchspec x in
    not (wf_chspec_malformed y) && y % 256 == wf_chspec_ctlchan x && y / 1024 == x / 4096 * 4 + 2

narrowed_table : on_heads narrowed legacy_heads ≡ true
unfolding narrowed wf_chspec_ctlchspec wf_chspec_malformed wf_chspec_ctlchan on_heads holds_below
    chspec_channel chspec_band chspec_ctl_sb chspec_bw
narrowed_table = refl

-- The control chanspec of a well-formed chanspec is a well-formed one of 20 MHz, with the control
-- channel and the same band.
pub ctlchspec-ctlchan :
    (x : ℕ)
    → x < 65536
    → wf_chspec_malformed x ≡ false
    → (wf_chspec_malformed (wf_chspec_ctlchspec x) ≡ false)
      × (wf_chspec_ctlchspec x % 256 ≡ wf_chspec_ctlchan x)
      × (wf_chspec_ctlchspec x / 1024 ≡ x / 4096 * 4 + 2)
unfolding narrowed
ctlchspec-ctlchan x h w = ground (arith, by_table narrowed narrowed_table x h w)
