-- ===== src/CsiParams/Delay.antt =====
-- The delay that `main` of makecsiparams.c enforces.
use app_loctag.Base.{
  ℕ, ◌*◌, ◌<◌, ◌≡◌, refl, Bool, true, false, not, ◌&&◌, ◌||◌, arith, leb, ◌==◌, if◌then◌else◌,
  holds_below, holds_below-elim,
}
use app_loctag.CsiParams.Store.{countbit, st16le, load16}
use app_loctag.CsiParams.Store.Laws.{load16-st16le}
use app_loctag.CsiParams.Options.{Locals}
use app_loctag.CsiParams.Consistent.{IsConsistent}
use app_loctag.CsiParams.Program.{default_delay, default_delay_us}

-- At least three of the four bits, and all of them.
abbrev three : ℕ → Bool
three m = m == 7 || m == 11 || m == 13 || m == 14 || m == 15

-- A configuration that the text of `usage` names: 3x4, 4x3 or 4x4.
abbrev pub is_slow : ℕ → ℕ → Bool
is_slow n k = (n == 15 && three k) || (k == 15 && three n)

abbrev same : Bool → Bool → Bool
same true b = b
same false b = not b

same→≡ : (a b : Bool) → same a b ≡ true → a ≡ b
same→≡ a b h = ground arith

slow_table :
    holds_below 16
      (λ n. holds_below 16 (λ k. same (leb 12 (countbit n * countbit k)) (is_slow n k)))
    ≡ true
unfolding holds_below countbit
slow_table = refl

slow_lem : (n k : ℕ) → n < 16 → k < 16 → leb 12 (countbit n * countbit k) ≡ is_slow n k
slow_lem n k hn hk = same→≡ _ _ (
    holds_below-elim 16 (λ k. same (leb 12 (countbit n * countbit k)) (is_slow n k)) k
      (holds_below-elim 16
        (λ n. holds_below 16 (λ k. same (leb 12 (countbit n * countbit k)) (is_slow n k))) n
        slow_table hn)
      hk)

default_delay-eq :
    (s : Locals)
    → default_delay s ≡ (
        if not s.force_delay && leb 12 (countbit s.nssmask * countbit s.coremask)
        then record s { p = record (s.p) { delay = load16 (st16le default_delay_us) } }
        else s)
unfolding default_delay
default_delay-eq s = refl

-- For consistent locals, the delay behind default_delay is 50 where none was given and one mask
-- has all four bits and the other at least three, and else it is as it was.
pub default_delay-is_slow :
    (s : Locals)
    → IsConsistent s
    → ((default_delay s).p).delay ≡ (
        if not s.force_delay && is_slow s.nssmask s.coremask then default_delay_us else (s.p).delay)
default_delay-is_slow s c =
    rw (default_delay-eq s, slow_lem s.nssmask s.coremask (c.masks).streams (c.masks).cores)
      (written (not s.force_delay && is_slow s.nssmask s.coremask))
  where
    written :
        (slow : Bool)
        → ((if slow
            then record s { p = record (s.p) { delay = load16 (st16le default_delay_us) } }
            else s).p
          ).delay
          ≡ (if slow then default_delay_us else (s.p).delay)
    written true = load16-st16le default_delay_us
    written false = refl
