-- ===== src/Capture/Options/Laws.antt =====
-- What the command line of Csi/csiutil.c makes of the globals.
use app_loctag.Base.{
  ℕ, ◌≡◌, refl, ◌∙◌, Bool, false, ◌||◌, List, ◌∷◌, Option, none, some, Bytes, ◌==◌, if◌then◌else◌,
  ℤ, inl, inr, All,
}
use mathlib.Core.Path.{subst}
use app_loctag.Libc.Scan.{strtol}
use app_loctag.Libc.Argp.{
  Call, IsCall, on_required, on_optional, parsed, faults, parse_all, last_arg, last_text, arg_or,
  arg_or-cons, value_or, value_or-cons,
}
use app_loctag.Libc.Argp.Laws.{Parses, IsParser, parse_all-Parses_calls}
use app_loctag.Capture.Options.{Config, parse_opt, options}

-- A call that reads a number at NULL.
abbrev pub is_missing : Call → Bool
is_missing (key, some arg) = false
is_missing (key, none) = key == b't' || key == b'm'

-- `strtol (arg, NULL, 0)`.
abbrev pub number : Bytes → ℤ
number text = (strtol 0 text).0

-- Each global is what the last option for it says, and as it was where there is none.
pub record Lasts (c : Config) (calls : List Call) (c' : Config) : Type 0 where
  pub ifname : c'.ifname ≡ arg_or c.ifname (last_arg b'I' calls)
  pub num_packets : c'.num_packets ≡ value_or number c.num_packets (last_text b'n' calls)
  pub pkt_type : c'.pkt_type ≡ value_or number c.pkt_type (last_text b't' calls)
  pub filter_exp : c'.filter_exp ≡ arg_or c.filter_exp (last_arg b'f' calls)
  pub filepath : c'.filepath ≡ arg_or c.filepath (last_arg b'o' calls)
  pub mode : c'.mode ≡ value_or number c.mode (last_text b'm' calls)
  pub delay : c'.delay ≡ value_or number c.delay (last_text b'd' calls)
  pub log_level : c'.log_level ≡ value_or number c.log_level (last_text b'l' calls)

-- The globals behind one call.
set_opt : Config → Call → Config
set_opt c (key, arg) = record {
  ifname = if key == b'I' then arg else c.ifname;
  num_packets = if key == b'n' then value_or number c.num_packets arg else c.num_packets;
  pkt_type = if key == b't' then value_or number c.pkt_type arg else c.pkt_type;
  filter_exp = if key == b'f' then arg else c.filter_exp;
  filepath = if key == b'o' then arg else c.filepath;
  mode = if key == b'm' then value_or number c.mode arg else c.mode;
  delay = if key == b'd' then value_or number c.delay arg else c.delay;
  log_level = if key == b'l' then value_or number c.log_level arg else c.log_level;
}

abbrev AsSet : Config → ℕ → Option Bytes → Type 0
AsSet c key arg =
    parse_opt c key arg ≡ (if is_missing (key, arg) then faults else parsed (set_opt c (key, arg)))

parse_opt-set_opt :
    (c : Config) (key : ℕ) (arg : Option Bytes) → IsCall options (key, arg) → AsSet c key arg
unfolding parse_opt set_opt
parse_opt-set_opt c key arg (inl (e, a)) =
    subst (λ k. AsSet c k arg) e (on_required (AsSet c b'I') arg a (λ t. refl))
parse_opt-set_opt c key arg (inr (inl (e, a))) =
    subst (λ k. AsSet c k arg) e (on_required (AsSet c b'n') arg a (λ t. refl))
parse_opt-set_opt c key arg (inr (inr (inl (e, a)))) =
    subst (λ k. AsSet c k arg) e (on_optional (AsSet c b't') arg (λ t. refl) refl)
parse_opt-set_opt c key arg (inr (inr (inr (inl (e, a))))) =
    subst (λ k. AsSet c k arg) e (on_optional (AsSet c b'f') arg (λ t. refl) refl)
parse_opt-set_opt c key arg (inr (inr (inr (inr (inl (e, a)))))) =
    subst (λ k. AsSet c k arg) e (on_optional (AsSet c b'o') arg (λ t. refl) refl)
parse_opt-set_opt c key arg (inr (inr (inr (inr (inr (inl (e, a))))))) =
    subst (λ k. AsSet c k arg) e (on_optional (AsSet c b'm') arg (λ t. refl) refl)
parse_opt-set_opt c key arg (inr (inr (inr (inr (inr (inr (inl (e, a)))))))) =
    subst (λ k. AsSet c k arg) e (on_required (AsSet c b'd') arg a (λ t. refl))
parse_opt-set_opt c key arg (inr (inr (inr (inr (inr (inr (inr (inl (e, a))))))))) =
    subst (λ k. AsSet c k arg) e (on_required (AsSet c b'l') arg a (λ t. refl))
parse_opt-set_opt c key arg (inr (inr (inr (inr (inr (inr (inr (inr past)))))))) = elim past [ ]

Lasts-cons :
    (c : Config) (call : Call) (calls : List Call) (c' : Config)
    → Lasts (set_opt c call) calls c'
    → Lasts c (call ∷ calls) c'
unfolding set_opt
Lasts-cons c (key, arg) calls c' v = record {
  ifname = v.ifname ∙ arg_or-cons b'I' key arg calls c.ifname;
  num_packets = v.num_packets ∙ value_or-cons number b'n' key arg calls c.num_packets;
  pkt_type = v.pkt_type ∙ value_or-cons number b't' key arg calls c.pkt_type;
  filter_exp = v.filter_exp ∙ arg_or-cons b'f' key arg calls c.filter_exp;
  filepath = v.filepath ∙ arg_or-cons b'o' key arg calls c.filepath;
  mode = v.mode ∙ value_or-cons number b'm' key arg calls c.mode;
  delay = v.delay ∙ value_or-cons number b'd' key arg calls c.delay;
  log_level = v.log_level ∙ value_or-cons number b'l' key arg calls c.log_level;
}

options-IsParser : IsParser options parse_opt is_missing Lasts
unfolding last_arg last_text
options-IsParser = record {
  set_opt = set_opt;
  called = parse_opt-set_opt;
  no_calls = λ c. record {
    ifname = refl;
    num_packets = refl;
    pkt_type = refl;
    filter_exp = refl;
    filepath = refl;
    mode = refl;
    delay = refl;
    log_level = refl;
  };
  one_more = Lasts-cons;
}

-- For a command line of the options of csiutil, its calls of parse_opt read a number at NULL where
-- a t or an m has no argument, and otherwise leave in each global what the last option for it
-- says, and what was there where it has none.
pub parse_all-Parses :
    (c : Config) (calls : List Call)
    → All (IsCall options) calls
    → Parses is_missing Lasts c calls (parse_all parse_opt c calls)
parse_all-Parses = parse_all-Parses_calls options-IsParser
