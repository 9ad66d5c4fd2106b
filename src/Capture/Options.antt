-- ===== src/Capture/Options.antt =====
-- The globals of Csi/csiutil.c that options set, and `parse_opt`. `argp` is not modelled: it calls
-- `parse_opt` with a key and an argument, which is NULL (`none`) where an optional one is missing.
pub mod Laws
use app_loctag.Base.{
  ℕ, Bool, true, false, List, [], ◌∷◌, not, Option, none, some, Bytes, codes, ◌==◌, if◌then◌else◌,
  bit_and, ℤ, pos, wrap, ◌^◌,
}
use app_loctag.Libc.Argp.{ArgpOption, Parsed, parsed, unknown, faults}
use app_loctag.Libc.Scan.{strtol}

pub record Config : Type 0 where
  pub ifname : Option Bytes
  pub num_packets : ℤ
  pub pkt_type : ℤ
  pub filter_exp : Option Bytes
  pub filepath : Option Bytes
  pub mode : ℤ
  pub delay : ℤ
  pub log_level : ℤ

-- The bits of `enum MODE`.
abbrev pub standalone : ℕ
standalone = 1

abbrev pub forwarding : ℕ
forwarding = 2

abbrev pub defaults : Config
defaults = record {
  ifname = some (codes "wlan0");
  num_packets = pos 1;
  pkt_type = pos 0;
  filter_exp = some (codes "");
  filepath = some (codes "");
  mode = pos standalone;
  delay = pos 0;
  log_level = pos 2;
}

-- `mode & mask` is not 0.
unfoldable pub has_mode : Config → ℕ → Bool
has_mode c mask = not (bit_and (wrap (2 ^ 32) c.mode) mask == 0)

-- `strtol` faults where it is called on NULL.
abbrev pub with_number : Option Bytes → (ℤ → Config) → Parsed Config
with_number (some arg) store = parsed (store (strtol 0 arg).0)
with_number none store = faults

unfoldable pub parse_opt : Config → ℕ → Option Bytes → Parsed Config
unfolding strtol
parse_opt c key arg =
    if key == b'I'
    then parsed (record c { ifname = arg })
    else if key == b'n'
    then with_number arg (λ n. record c { num_packets = n })
    else if key == b't'
    then with_number arg (λ n. record c { pkt_type = n })
    else if key == b'f'
    then parsed (record c { filter_exp = arg })
    else if key == b'o'
    then parsed (record c { filepath = arg })
    else if key == b'm'
    then with_number arg (λ n. record c { mode = n })
    else if key == b'd'
    then with_number arg (λ n. record c { delay = n })
    else if key == b'l'
    then with_number arg (λ n. record c { log_level = n })
    else unknown

-- The table `options`.
abbrev pub options : List ArgpOption
options =
    record { key = b'I'; optional = false }
    ∷ record { key = b'n'; optional = false }
    ∷ record { key = b't'; optional = true }
    ∷ record { key = b'f'; optional = true }
    ∷ record { key = b'o'; optional = true }
    ∷ record { key = b'm'; optional = true }
    ∷ record { key = b'd'; optional = false }
    ∷ record { key = b'l'; optional = false }
    ∷ []
