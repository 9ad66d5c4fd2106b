-- ===== src/Chanspec/Parse/Wrap.antt =====
-- `wf_chspec_aton` does not bound the channel number: its fields are cut to 16 bits.
use app_loctag.Base.{
  ℕ, ◌+◌, ◌*◌, ◌%◌, ◌^◌, ◌<◌, ◌≡◌, refl, Option, none, some, [], append-nil, arith, bit_or,
  bit_or-mod, ap, ◌∙◌, sym, if◌then◌else◌, length,
}
use app_loctag.Libc.Scan.{digit_value, strtoul}
use app_loctag.Libc.Decimal.{decimal}
use app_loctag.Libc.Decimal.Reread.{strtoul-decimal, decimal-longer}
use app_loctag.Chanspec.Fields.{bw_20, band_5g}
use app_loctag.Chanspec.Check.{wf_chspec_malformed}
use app_loctag.Chanspec.Pair.{advanced, read_uint, read_uint-eq, back, then_call}
use app_loctag.Chanspec.Parse.{
  Spelled, channel_from, spelled_from, read_chanspec, read_chanspec-eq, skip_blanks, place,
  join_fields, finish, finish-eq, aton-returned, returned, value, wf_chspec_aton,
}

read_uint-decimal : (n : ℕ) → n < 2 ^ 32 → read_uint (decimal n) ≡ some (n, [])
unfolding advanced
read_uint-decimal n fits =
    let whole : strtoul 10 (decimal n) ≡ (n, []) =
      rw append-nil at (strtoul-decimal n [] fits (unfold digit_value in omega arith)) in
    let longer : 0 < length (decimal n) = rw append-nil at (decimal-longer n [] fits) in
    rw (read_uint-eq (decimal n), whole) (ground (arith, longer))

-- The text of a channel number above 14, and nothing behind it.
abbrev plain : ℕ → Spelled
plain n = record {
  band = band_5g;
  ctl_ch = n;
  bw = 20;
  chspec_bw = bw_20;
  sb_ul = 0;
  ch1 = 0;
  ch2 = 0;
  rest = [];
}

channel_from_end : (n : ℕ) → 14 < n → channel_from (n, []) ≡ some (band_5g, n, [])
unfolding channel_from
channel_from_end n high = ground arith

spelled_from_end : (n : ℕ) → spelled_from 0 (band_5g, n, []) ≡ back 0 (some (plain n))
unfolding spelled_from
spelled_from_end n = refl

read_chanspec-decimal :
    (n : ℕ) → 14 < n → n < 2 ^ 32 → read_chanspec 0 (decimal n) ≡ back 0 (some (plain n))
unfolding then_call
read_chanspec-decimal n high fits =
    rw (read_chanspec-eq 0 (decimal n), read_uint-decimal n fits, channel_from_end n high)
      (spelled_from_end n)

place-plain : (n : ℕ) → place (plain n) ≡ some (n, 0)
unfolding place
place-plain n = refl

join_plain :
    (n k : ℕ)
    → join_fields (plain (n + k * 65536)) (n + k * 65536, 0) ≡ join_fields (plain n) (n, 0)
unfolding join_fields
join_plain n k =
    let low : (n + k * 65536) % 2 ^ 16 ≡ n % 2 ^ 16 = omega arith in
    let joined = λ (m : ℕ).
      bit_or-mod 16 (bit_or (bit_or m band_5g) bw_20) 0
      ∙ ap (λ (t : ℕ). bit_or t 0)
          (bit_or-mod 16 (bit_or m band_5g) bw_20
            ∙ ap (λ (t : ℕ). bit_or t bw_20) (bit_or-mod 16 m band_5g)) in
    joined (n + k * 65536)
    ∙ ap (λ (t : ℕ). bit_or (bit_or (bit_or t band_5g) bw_20) 0) low
    ∙ sym (joined n)

-- At the end of the text, with the fields that are joined.
settle : ℕ → Option ℕ
settle x = if wf_chspec_malformed x then none else some x

finish-plain : (n : ℕ) → finish (plain n) ≡ settle (join_fields (plain n) (n, 0))
unfolding settle skip_blanks
finish-plain n = rw (finish-eq (plain n), place-plain n) refl

-- wf_chspec_aton reads a channel number above 14 modulo 65536, as long as the number that is
-- printed fits 32 bits.
pub aton-decimal_wraps :
    (n k : ℕ)
    → 14 < n
    → n + k * 65536 < 2 ^ 32
    → wf_chspec_aton (decimal (n + k * 65536)) ≡ wf_chspec_aton (decimal n)
unfolding returned value
aton-decimal_wraps n k high fits =
    rw
      (
        aton-returned (decimal (n + k * 65536)),
        aton-returned (decimal n),
        read_chanspec-decimal (n + k * 65536) (omega arith) fits,
        read_chanspec-decimal n high (omega arith),
        finish-plain (n + k * 65536),
        finish-plain n,
        join_plain n k,
      )
      refl
