-- ===== src/Chanspec/Parse/Sound.antt =====
-- What `wf_chspec_aton` returns, for every text and every position of its static pointer.
use app_loctag.Base.{
  ℕ, zero, suc, ◌≢◌, Bool, [], ◌∷◌, ◌==◌, ◌&&◌, ◌||◌, byte_at, drop, ◌/◌, ◌%◌, ◌^◌, ◌<◌, ◌≡◌, ◌⊎◌,
  inl, inr, refl, true, false, Option, none, some, arith, Bytes, bit_or, bit_or-div, bit_or_ones,
  ◌>>=◌, Bool-cases, if◌then◌else◌, sym,
}
use mathlib.Core.Option.{get_or}
use app_loctag.Libc.Scan.{tolower}
use app_loctag.Chanspec.Fields.{bw_8080, band_2g}
use app_loctag.Chanspec.Pair.{Call, outside, back, then_call, consume, channel_pair, read_pair}
use app_loctag.Chanspec.Check.{wf_chspec_malformed}
use app_loctag.Chanspec.Parse.{
  Spelled, read_channel, spelled_from, read_bw, paired, width_from, read_width, read_chanspec,
  join_fields, finish, finish-eq, returned, value, call_aton, call_aton-eq, aton-returned,
  wf_chspec_aton,
}
use app_loctag.Chanspec.WellFormed.{IsWellFormed, malformed-IsWellFormed}

join_fields-lt : (w : Spelled) (fields : ℕ × ℕ) → join_fields w fields < 65536
unfolding join_fields
join_fields-lt w (ch, sb) = omega arith

finish-IsWellFormed : (w : Spelled) (x : ℕ) → finish w ≡ some x → IsWellFormed x × (x < 65536)
finish-IsWellFormed w x h = go _ (rw finish-eq at h)
  where
    go :
        (fields : Option (ℕ × ℕ))
        → (fields >>= λ f.
            if wf_chspec_malformed (join_fields w f) then none else some (join_fields w f))
          ≡ some x
        → IsWellFormed x × (x < 65536)
    go none e = cc
    go (some f) e =
        let good : (join_fields w f ≡ x) × (wf_chspec_malformed (join_fields w f) ≡ false) =
          ground arith in
        (
          (malformed-IsWellFormed x).0 (rw (sym good.0) good.1),
          omega (arith, good.0, join_fields-lt w f),
        )

-- The bits of BW_8080 survive the joining, whatever the other fields are.
join_8080 :
    (w : Spelled) (ch sb : ℕ) → w.chspec_bw ≡ bw_8080 → join_fields w (ch, sb) / 4096 % 4 ≡ 3
unfolding join_fields
join_8080 w ch sb wide =
    let low = bit_or ch w.band in
    let joined = bit_or low w.chspec_bw in
    let kept : joined / 4096 % 4 ≡ 3 = omega (
      arith,
      bit_or-div 12 low w.chspec_bw,
      bit_or_ones (low / 2 ^ 12) (w.chspec_bw / 2 ^ 12) (inr (omega arith)),
    ) in
    omega (arith, bit_or-div 12 joined sb, bit_or_ones (joined / 2 ^ 12) (sb / 2 ^ 12) (inl kept))

malformed_8080 : (x : ℕ) → x / 4096 % 4 ≡ 3 → wf_chspec_malformed x ≡ true
malformed_8080 x h = elim (Bool-cases (wf_chspec_malformed x)) [
  | inl bad ↦ bad
  | inr good ↦ let v = (malformed-IsWellFormed x).0 good in ground (arith, v.coded, v.width)
]

finish_8080 : (w : Spelled) → w.chspec_bw ≡ bw_8080 → finish w ≡ none
finish_8080 w wide = rw finish-eq (go _)
  where
    go :
        (fields : Option (ℕ × ℕ))
        → (fields >>= λ f.
            if wf_chspec_malformed (join_fields w f) then none else some (join_fields w f))
          ≡ none
    go none = refl
    go (some (ch, sb)) = rw (malformed_8080 _ (join_8080 w ch sb wide)) refl

value_of : Option Spelled → ℕ
value_of spelled = get_or (spelled >>= finish) 0

value_of-IsWellFormed :
    (spelled : Option Spelled)
    → (value_of spelled ≡ 0) ⊎ (IsWellFormed (value_of spelled) × (value_of spelled < 65536))
unfolding value_of
value_of-IsWellFormed none = inl refl
value_of-IsWellFormed (some w) = go (finish w) refl
  where
    go :
        (r : Option ℕ)
        → finish w ≡ r
        → (get_or r 0 ≡ 0) ⊎ (IsWellFormed (get_or r 0) × (get_or r 0 < 65536))
    go none e = inl refl
    go (some x) e = inr (finish-IsWellFormed w x e)

-- A call that has the value 0 if it comes back.
data IsZero : Call Spelled → Type 0 where
  never : IsZero outside
  gives_zero :
      (plus80 : ℕ) (spelled : Option Spelled) → value_of spelled ≡ 0 → IsZero (back plus80 spelled)

data ComesBack {A : Type 0} : Call A → Type 0 where
  comes : (plus80 : ℕ) (x : Option A) → ComesBack (back plus80 x)

-- A text is read alike at each position of the pointer, and leaves it there, or its value is 0, and a first
-- call comes back.
data Alike (read : ℕ → Call Spelled) : Type 0 where
  same : (spelled : Option Spelled) → ((q : ℕ) → read q ≡ back q spelled) → Alike read
  none_of_them : ((q : ℕ) → IsZero (read q)) → ComesBack (read 0) → Alike read

either :
    (test : Bool) {x y : Call Bytes} → ComesBack x → ComesBack y → ComesBack (if test then x else y)
either true hx hy = hx
either false hx hy = hy

consume-ComesBack : (a : Bytes) → ComesBack (consume 3 0 a)
unfolding consume
consume-ComesBack [] = comes 1 none
consume-ComesBack (x ∷ []) = either (x == b'8') (comes 2 none) (comes 1 none)
consume-ComesBack (x ∷ y ∷ []) =
    either (x == b'8') (either (y == b'0') (comes 3 none) (comes 2 none)) (comes 1 none)
consume-ComesBack (x ∷ y ∷ z ∷ a) =
    either (x == b'8')
      (either (y == b'0') (either (z == b'/') (comes 3 (some a)) (comes 3 none)) (comes 2 none))
      (comes 1 none)

value_8080 : (w : Spelled) → w.chspec_bw ≡ bw_8080 → value_of (some w) ≡ 0
unfolding value_of
value_8080 w wide = rw (finish_8080 w wide) refl

paired-IsZero : (band ctl_ch bw : ℕ) (x : Call (ℕ × ℕ × Bytes)) → IsZero (paired band ctl_ch bw x)
unfolding paired value_of
paired-IsZero band ctl_ch bw outside = never
paired-IsZero band ctl_ch bw (back q none) = gives_zero q none refl
paired-IsZero band ctl_ch bw (back q (some (ch1, ch2, a))) = gives_zero q _ (value_8080 _ refl)

paired-ComesBack :
    (band ctl_ch bw : ℕ) (x : Call (ℕ × ℕ × Bytes))
    → ComesBack x
    → ComesBack (paired band ctl_ch bw x)
unfolding paired
paired-ComesBack band ctl_ch bw _ (comes q none) = comes q none
paired-ComesBack band ctl_ch bw _ (comes q (some (ch1, ch2, a))) = comes q _

read_pair-ComesBack : (a : Bytes) → ComesBack (read_pair 0 a)
unfolding read_pair
read_pair-ComesBack a = go _ (consume-ComesBack a)
  where
    go :
        (x : Call Bytes)
        → ComesBack x
        → ComesBack (elim x [
          | outside ↦ outside
          | back plus80' none ↦ back plus80' none
          | back plus80' (some rest) ↦ back plus80' (channel_pair rest)
        ])
    go _ (comes q none) = comes q none
    go _ (comes q (some rest)) = comes q _

alike_then :
    {A : Type 0} (x : Option A) (k : ℕ → A → Call Spelled)
    → ((y : A) → Alike (λ q. k q y))
    → Alike (λ q. then_call q x (k q))
unfolding then_call
alike_then none k h = same none (λ q. refl)
alike_then (some y) k h = h y

alike_width : (band ctl_ch : ℕ) (x : ℕ × ℕ × Bytes) → Alike (λ q. width_from q band ctl_ch x)
unfolding width_from
alike_width band ctl_ch (bw, chspec_bw, a) =
    go
      (band == band_2g
        && bw == 40
        && (tolower (byte_at a 0) == b'u' || tolower (byte_at a 0) == b'l'))
      (tolower (byte_at a 0) == b'+') _ _
  where
    go :
        (side plus : Bool) (r1 r2 : Spelled)
        → Alike (λ q.
          if side
          then back q (some r1)
          else if plus
          then paired band ctl_ch bw (read_pair q (drop 1 a))
          else back q (some r2))
    go true plus r1 r2 = same _ (λ q. refl)
    go false true r1 r2 =
        none_of_them (λ q. paired-IsZero band ctl_ch bw (read_pair q (drop 1 a)))
          (paired-ComesBack band ctl_ch bw _ (read_pair-ComesBack (drop 1 a)))
    go false false r1 r2 = same _ (λ q. refl)

alike_channel : (x : ℕ × ℕ × Bytes) → Alike (λ q. spelled_from q x)
unfolding spelled_from read_width
alike_channel (band, ctl_ch, a) =
    go (tolower (byte_at a 0) == 0) (tolower (byte_at a 0) == b'u' || tolower (byte_at a 0) == b'l')
      (tolower (byte_at a 0) == b'/') _ _
  where
    go :
        (end side width : Bool) (r1 r2 : Spelled)
        → Alike (λ q.
          if end
          then back q (some r1)
          else if side
          then back q (some r2)
          else if width
          then then_call q (read_bw (drop 1 a)) (width_from q band ctl_ch)
          else back q none)
    go true side width r1 r2 = same _ (λ q. refl)
    go false true width r1 r2 = same _ (λ q. refl)
    go false false true r1 r2 =
        alike_then (read_bw (drop 1 a)) (λ q. width_from q band ctl_ch) (alike_width band ctl_ch)
    go false false false r1 r2 = same none (λ q. refl)

alike_text : (text : Bytes) → Alike (λ q. read_chanspec q text)
unfolding read_chanspec
alike_text text = alike_then (read_channel text) spelled_from alike_channel

-- How a call ends, by how the first one ends.
abbrev Settled : Call Spelled → Call Spelled → ℕ → Type 0
Settled x first q =
    ((returned x ≡ outside) × (0 < q))
    ⊎ ((q' : ℕ) × (returned x ≡ back q' (some (value (returned first))))
        × ((value (returned first) ≡ 0)
            ⊎ (IsWellFormed (value (returned first)) × (value (returned first) < 65536))))

not_outside : {x : Call Spelled} → ComesBack x → x ≢ outside
not_outside (comes q x) e = cc

value-zero : {x : Call Spelled} → IsZero x → value (returned x) ≡ 0
unfolding returned value value_of
value-zero never = refl
value-zero (gives_zero q spelled e) = e

zero-Settled :
    (x first : Call Spelled) (q : ℕ)
    → value (returned first) ≡ 0
    → IsZero x
    → ComesBack x ⊎ (0 < q)
    → Settled x first q
unfolding returned value value_of
zero-Settled _ first q none_read never (inl c) = absurd (not_outside c refl)
zero-Settled _ first q none_read never (inr later) = inl (refl, later)
zero-Settled _ first q none_read (gives_zero q' spelled e) c =
    inr (q', rw (e, none_read) refl, inl none_read)

alike-Settled : (read : ℕ → Call Spelled) (q : ℕ) → Alike read → Settled (read q) (read 0) q
unfolding returned value value_of
alike-Settled read q (same spelled e) = rw (e q, e 0) (inr (q, refl, value_of-IsWellFormed spelled))
alike-Settled read q (none_of_them z c) =
    zero-Settled (read q) (read 0) q (value-zero (z 0)) (z q) (first_or_later q)
  where
    first_or_later : (n : ℕ) → ComesBack (read n) ⊎ (0 < n)
    first_or_later zero = inl c
    first_or_later (suc n) = inr (omega arith)

-- For every text, and wherever earlier calls have left the static pointer of wf_chspec_aton, a
-- call reads past a text or the pointer's literal, which the first call never does, or it returns
-- what the first call returns for the text, and this is 0 or a well-formed chanspec of 16 bits.
pub aton-IsWellFormed :
    (plus80 : ℕ) (text : Bytes)
    → ((call_aton plus80 text ≡ outside) × (0 < plus80))
      ⊎ ((plus80' : ℕ) × (call_aton plus80 text ≡ back plus80' (some (wf_chspec_aton text)))
          × ((wf_chspec_aton text ≡ 0)
              ⊎ (IsWellFormed (wf_chspec_aton text) × (wf_chspec_aton text < 65536))))
aton-IsWellFormed plus80 text =
    rw (call_aton-eq plus80 text, aton-returned text)
      (alike-Settled (λ q. read_chanspec q text) plus80 (alike_text text))

-- The first call of a process comes back, and gives 0 or a well-formed chanspec.
pub first_aton-IsWellFormed :
    (text : Bytes)
    → (wf_chspec_aton text ≡ 0)
      ⊎ (IsWellFormed (wf_chspec_aton text) × (wf_chspec_aton text < 65536))
first_aton-IsWellFormed text = elim (aton-IsWellFormed 0 text) [
  | inl (_, later) ↦ absurd (omega (arith, later))
  | inr (_, _, good) ↦ good
]
