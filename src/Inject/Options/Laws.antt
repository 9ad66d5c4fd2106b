-- ===== src/Inject/Options/Laws.antt =====
-- What the command line of Csi/injectutil.c makes of the globals, and that none breaks the radiotap
-- header.
use app_loctag.Base.{
  ℕ, ◌<◌, ◌^◌, ◌≡◌, refl, ◌∙◌, Bool, false, List, ◌∷◌, Option, none, some, arith, Bytes, ◌==◌,
  if◌then◌else◌, ℤ, inl, inr, All,
}
use mathlib.Core.Path.{subst}
use app_loctag.Libc.Scan.{strtoul, strtol, strtoul-lt}
use app_loctag.Libc.Argp.{
  Call, IsCall, on_required, on_optional, parsed, faults, parse_all, last_arg, last_text, arg_or,
  arg_or-cons, value_or, value_or-cons,
}
use app_loctag.Libc.Argp.Laws.{Parses, IsParser, parse_all-Parses_calls}
use app_loctag.Inject.Radiotap.{InjectRadiotap, nex_rt}
use app_loctag.Inject.Options.{Config, parse_opt, options}
use app_loctag.Inject.Laws.{IsRadiotap}

-- A call that reads a number at NULL.
abbrev pub is_missing : Call → Bool
is_missing (key, some arg) = false
is_missing (key, none) = key == b'p'

-- `strtoul (arg, NULL, base)`, and `strtol (arg, NULL, 0)`.
abbrev pub unsigned : ℕ → Bytes → ℕ
unsigned base text = (strtoul base text).0

abbrev pub signed : Bytes → ℤ
signed text = (strtol 0 text).0

-- The header behind the calls: its four numbers are those of the last options for them.
abbrev pub set_rt : InjectRadiotap → List Call → InjectRadiotap
set_rt rt calls = record rt {
  txdelay = value_or (unsigned 10) rt.txdelay (last_text b'd' calls);
  txrepetitions_num = value_or (unsigned 10) rt.txrepetitions_num (last_text b'n' calls);
  txrepetitions_period = value_or (unsigned 10) rt.txrepetitions_period (last_text b'p' calls);
  ratespec = value_or (unsigned 0) rt.ratespec (last_text b'r' calls);
}

-- Each global is what the last option for it says, and as it was where there is none.
pub record Lasts (c : Config) (calls : List Call) (c' : Config) : Type 0 where
  pub rt : c'.rt ≡ set_rt c.rt calls
  pub ifname : c'.ifname ≡ arg_or c.ifname (last_arg b'I' calls)
  pub filepath : c'.filepath ≡ arg_or c.filepath (last_arg b'f' calls)
  pub log_level : c'.log_level ≡ value_or signed c.log_level (last_text b'l' calls)

-- The globals behind one call.
set_opt : Config → Call → Config
set_opt c (key, arg) = record {
  rt = record (c.rt) {
    txdelay = if key == b'd' then value_or (unsigned 10) c.rt.txdelay arg else c.rt.txdelay;
    txrepetitions_num =
        if key == b'n'
        then value_or (unsigned 10) c.rt.txrepetitions_num arg
        else c.rt.txrepetitions_num;
    txrepetitions_period =
        if key == b'p'
        then value_or (unsigned 10) c.rt.txrepetitions_period arg
        else c.rt.txrepetitions_period;
    ratespec = if key == b'r' then value_or (unsigned 0) c.rt.ratespec arg else c.rt.ratespec;
  };
  ifname = if key == b'I' then arg else c.ifname;
  filepath = if key == b'f' then arg else c.filepath;
  log_level = if key == b'l' then value_or signed c.log_level arg else c.log_level;
}

abbrev AsSet : Config → ℕ → Option Bytes → Type 0
AsSet c key arg =
    parse_opt c key arg ≡ (if is_missing (key, arg) then faults else parsed (set_opt c (key, arg)))

parse_opt-set_opt :
    (c : Config) (key : ℕ) (arg : Option Bytes) → IsCall options (key, arg) → AsSet c key arg
unfolding parse_opt set_opt
parse_opt-set_opt c key arg (inl (e, a)) =
    subst (λ k. AsSet c k arg) e (on_required (AsSet c b'I') arg a (λ t. refl))
parse_opt-set_opt c key arg (inr (inl (e, a))) =
    subst (λ k. AsSet c k arg) e (on_required (AsSet c b'n') arg a (λ t. refl))
parse_opt-set_opt c key arg (inr (inr (inl (e, a)))) =
    subst (λ k. AsSet c k arg) e (on_optional (AsSet c b'p') arg (λ t. refl) refl)
parse_opt-set_opt c key arg (inr (inr (inr (inl (e, a))))) =
    subst (λ k. AsSet c k arg) e (on_required (AsSet c b'd') arg a (λ t. refl))
parse_opt-set_opt c key arg (inr (inr (inr (inr (inl (e, a)))))) =
    subst (λ k. AsSet c k arg) e (on_required (AsSet c b'r') arg a (λ t. refl))
parse_opt-set_opt c key arg (inr (inr (inr (inr (inr (inl (e, a))))))) =
    subst (λ k. AsSet c k arg) e (on_optional (AsSet c b'f') arg (λ t. refl) refl)
parse_opt-set_opt c key arg (inr (inr (inr (inr (inr (inr (inl (e, a)))))))) =
    subst (λ k. AsSet c k arg) e (on_required (AsSet c b'l') arg a (λ t. refl))
parse_opt-set_opt c key arg (inr (inr (inr (inr (inr (inr (inr past))))))) = elim past [ ]

set_rt-cons :
    (c : Config) (key : ℕ) (arg : Option Bytes) (calls : List Call)
    → set_rt (set_opt c (key, arg)).rt calls ≡ set_rt c.rt ((key, arg) ∷ calls)
unfolding set_opt
set_rt-cons c key arg calls i = record (c.rt) {
  txdelay = value_or-cons (unsigned 10) b'd' key arg calls c.rt.txdelay i;
  txrepetitions_num = value_or-cons (unsigned 10) b'n' key arg calls c.rt.txrepetitions_num i;
  txrepetitions_period = value_or-cons (unsigned 10) b'p' key arg calls c.rt.txrepetitions_period i;
  ratespec = value_or-cons (unsigned 0) b'r' key arg calls c.rt.ratespec i;
}

Lasts-cons :
    (c : Config) (call : Call) (calls : List Call) (c' : Config)
    → Lasts (set_opt c call) calls c'
    → Lasts c (call ∷ calls) c'
unfolding set_opt
Lasts-cons c (key, arg) calls c' v = record {
  rt = v.rt ∙ set_rt-cons c key arg calls;
  ifname = v.ifname ∙ arg_or-cons b'I' key arg calls c.ifname;
  filepath = v.filepath ∙ arg_or-cons b'f' key arg calls c.filepath;
  log_level = v.log_level ∙ value_or-cons signed b'l' key arg calls c.log_level;
}

options-IsParser : IsParser options parse_opt is_missing Lasts
unfolding last_arg last_text
options-IsParser = record {
  set_opt = set_opt;
  called = parse_opt-set_opt;
  no_calls = λ c. record { rt = refl; ifname = refl; filepath = refl; log_level = refl };
  one_more = Lasts-cons;
}

-- For a command line of the options of injectutil, its calls of parse_opt read a number at NULL
-- where a p has no argument, and otherwise leave in each global, and in each number of the
-- radiotap header, what the last option for it says, and what was there where it has none.
pub parse_all-Parses_inject :
    (c : Config) (calls : List Call)
    → All (IsCall options) calls
    → Parses is_missing Lasts c calls (parse_all parse_opt c calls)
parse_all-Parses_inject = parse_all-Parses_calls options-IsParser

pub nex_rt-IsRadiotap : IsRadiotap nex_rt
nex_rt-IsRadiotap = record {
  sized = refl;
  delay = omega arith;
  number = omega arith;
  period = omega arith;
  rate = omega arith;
}

value_or-lt :
    (base old : ℕ) (text : Option Bytes) → old < 2 ^ 32 → value_or (unsigned base) old text < 2 ^ 32
value_or-lt base old (some text) h = strtoul-lt base text
value_or-lt base old none h = h

pub set_rt-IsRadiotap :
    (rt : InjectRadiotap) (calls : List Call) → IsRadiotap rt → IsRadiotap (set_rt rt calls)
set_rt-IsRadiotap rt calls h = record {
  sized = h.sized;
  delay = value_or-lt 10 rt.txdelay (last_text b'd' calls) h.delay;
  number = value_or-lt 10 rt.txrepetitions_num (last_text b'n' calls) h.number;
  period = value_or-lt 10 rt.txrepetitions_period (last_text b'p' calls) h.period;
  rate = value_or-lt 0 rt.ratespec (last_text b'r' calls) h.rate;
}
