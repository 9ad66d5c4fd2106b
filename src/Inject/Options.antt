-- ===== src/Inject/Options.antt =====
-- `parse_opt` of Csi/injectutil.c and what it sets. An argument is `none` where it is NULL.
pub mod Laws
use app_loctag.Base.{
  ℕ, ◌≡◌, refl, true, false, List, [], ◌∷◌, Option, none, some, Bytes, codes, ◌==◌, if◌then◌else◌,
  ℤ, pos,
}
use app_loctag.Libc.Argp.{ArgpOption, Parsed, parsed, unknown, faults}
use app_loctag.Libc.Scan.{strtoul, strtol}
use app_loctag.Inject.Radiotap.{InjectRadiotap, nex_rt}

pub record Config : Type 0 where
  pub rt : InjectRadiotap
  pub ifname : Option Bytes
  pub filepath : Option Bytes
  pub log_level : ℤ

abbrev pub defaults : Config
defaults = record {
  rt = nex_rt;
  ifname = some (codes "wlan0");
  filepath = some (codes "");
  log_level = pos 2;
}

-- `strtoul` and `strtol` fault where they are called on NULL.
abbrev pub with_text : Option Bytes → (Bytes → Config) → Parsed Config
with_text (some arg) store = parsed (store arg)
with_text none store = faults

unfoldable pub parse_opt : Config → ℕ → Option Bytes → Parsed Config
unfolding strtoul strtol
parse_opt c key arg =
    if key == b'I'
    then parsed (record c { ifname = arg })
    else if key == b'n'
    then with_text arg
        (λ t. record c { rt = record (c.rt) { txrepetitions_num = (strtoul 10 t).0 } })
    else if key == b'p'
    then with_text arg
        (λ t. record c { rt = record (c.rt) { txrepetitions_period = (strtoul 10 t).0 } })
    else if key == b'd'
    then with_text arg (λ t. record c { rt = record (c.rt) { txdelay = (strtoul 10 t).0 } })
    else if key == b'r'
    then with_text arg (λ t. record c { rt = record (c.rt) { ratespec = (strtoul 0 t).0 } })
    else if key == b'f'
    then parsed (record c { filepath = arg })
    else if key == b'l'
    then with_text arg (λ t. record c { log_level = (strtol 0 t).0 })
    else unknown

-- The table `options`.
abbrev pub options : List ArgpOption
options =
    record { key = b'I'; optional = false }
    ∷ record { key = b'n'; optional = false }
    ∷ record { key = b'p'; optional = true }
    ∷ record { key = b'd'; optional = false }
    ∷ record { key = b'r'; optional = false }
    ∷ record { key = b'f'; optional = true }
    ∷ record { key = b'l'; optional = false }
    ∷ []
