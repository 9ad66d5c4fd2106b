-- ===== src/CsiParams/Options.antt =====
-- The option loop of `main` in makecsiparams.c. `getopt` is not modelled: the options that it
-- finds are the input, each with its argument. `ether_aton` is a parameter.
use app_loctag.Base.{
  ℕ, ◌+◌, ◌*◌, Bool, true, false, ◌||◌, List, [], ◌∷◌, ◌++◌, Option, none, some, ◌>>=◌, Bytes, ltb,
  leb, ◌==◌, if◌then◌else◌, bit_and, bit_or, ◌<<<◌, byte_at, u8, ℤ, pos, wrap, is_negative, ◌^◌,
}
use app_loctag.Libc.Scan.{strtol}
use app_loctag.Chanspec.Parse.{wf_chspec_aton}
use app_loctag.CsiParams.Store.{CsiParams, cleared, st16le, load16, write_at}

abbrev pub max_mac_address : ℕ
max_mac_address = 4

-- An option that `getopt` returns: its letter, or `?` for one that it does not know.
pub record Opt : Type 0 where
  pub c : ℕ
  pub optarg : Bytes

-- The local variables of `main` that outlive an option. The masks are the 32 bits of an `int`.
pub record Locals : Type 0 where
  pub p : CsiParams
  pub enable : ℤ
  pub coremask : ℕ
  pub nssmask : ℕ
  pub force_delay : Bool
  pub nmac : ℕ
  pub chanspec : ℕ
  pub doraw : Bool

abbrev pub initial : Locals
initial = record {
  p = cleared;
  enable = pos 1;
  coremask = 0;
  nssmask = 0;
  force_delay = false;
  nmac = 0;
  chanspec = 0;
  doraw = false;
}

-- `(int) strtol (optarg, &endptr, 0)`, and `none` where something follows the number.
unfoldable pub whole_int : Bytes → Option ℤ
unfolding strtol
whole_int text =
    let (value, endptr) = strtol 0 text in if byte_at endptr 0 == 0 then some value else none

unfoldable pub set_enable : Locals → Bytes → Option Locals
unfolding whole_int
set_enable s optarg = do enable ← whole_int optarg; some (record s { enable = enable })

-- The parts of a text between commas, empty ones left out: the calls of `strtok`.
unfoldable pub strtok_from : Bytes → Bytes → List Bytes
strtok_from [] part = if byte_at part 0 == 0 then [] else part ∷ []
strtok_from (c ∷ text) part =
    let next = strtok_from text [] in
    let longer = strtok_from text (part ++ c ∷ []) in
    if c == b',' then (if byte_at part 0 == 0 then next else part ∷ next) else longer

unfoldable pub strtok_all : Bytes → List Bytes
unfolding strtok_from
strtok_all text = strtok_from text []

-- One address that was read: copied behind those that are there, and counted.
unfoldable pub add_mac : Locals → Bytes → Locals
unfolding write_at st16le load16
add_mac s octets = record s {
  p = record (s.p) {
    src_macs = write_at (s.p).src_macs (s.nmac * 6) octets;
    n_mac_addr = load16 (st16le (s.nmac + 1));
  };
  nmac = s.nmac + 1;
}

module _ (ether_aton : Bytes → Option Bytes) where
  unfoldable pub add_macs : Locals → List Bytes → Option Locals
  unfolding add_mac
  add_macs s [] = some s
  add_macs s (split ∷ rest) =
      if leb max_mac_address s.nmac
      then none
      else elim (ether_aton split) [ some octets ↦ add_macs (add_mac s octets) rest | none ↦ none ]

unfoldable pub set_byte : Locals → Bytes → Option Locals
unfolding whole_int
set_byte s optarg = do
  byte ← whole_int optarg
  if is_negative byte || ltb 255 (wrap (2 ^ 32) byte)
      then none
      else some
          (record s { p = record (s.p) { use_pkt_filter = 1; first_pkt_byte = wrap 256 byte } })

-- The static pointer of `wf_chspec_aton` is always unmoved: a text that moves it has the value 0,
-- at which main ends.
unfoldable pub set_chanspec : Locals → Bytes → Option Locals
unfolding wf_chspec_aton
set_chanspec s optarg =
    let chanspec = wf_chspec_aton optarg in
    if chanspec == 0
    then none
    else some (record s { p = record (s.p) { chanspec = chanspec }; chanspec = chanspec })

-- A mask must have no bit but the low four.
unfoldable pub mask_of : Bytes → Option ℕ
unfolding whole_int
mask_of optarg = do
  value ← whole_int optarg
  if bit_and (wrap (2 ^ 32) value) 0xfffffff0 == 0 then some (wrap (2 ^ 32) value) else none

unfoldable pub set_coremask : Locals → Bytes → Option Locals
unfolding mask_of
set_coremask s optarg = do
  mask ← mask_of optarg
  some (record s {
    p = record (s.p) { core_nss_mask = u8 (bit_or (bit_and (s.p).core_nss_mask 0xf0) mask) };
    coremask = mask;
  })

unfoldable pub set_nssmask : Locals → Bytes → Option Locals
unfolding mask_of
set_nssmask s optarg = do
  mask ← mask_of optarg
  some (record s {
    p = record (s.p) {
      core_nss_mask = u8 (bit_or (bit_and (s.p).core_nss_mask 0x0f) (mask <<< 4));
    };
    nssmask = mask;
  })

unfoldable pub set_delay : Locals → Bytes → Option Locals
unfolding whole_int st16le load16
set_delay s optarg = do
  delay ← whole_int optarg
  if is_negative delay
      then none
      else some (record s {
        p = record (s.p) { delay = load16 (st16le (wrap (2 ^ 16) delay)) };
        force_delay = true;
      })

-- What an option makes of the locals: the loop goes on, or `main` ends.
pub data Step : Type 0 where
  goes_on : Locals → Step
  helps : Step
  fails : Step

abbrev pub or_fail : Option Locals → Step
or_fail (some s) = goes_on s
or_fail none = fails

module _ (ether_aton : Bytes → Option Bytes) where
  unfoldable pub option_step : Locals → Opt → Step
  unfolding set_enable add_macs strtok_all set_byte set_chanspec set_coremask set_nssmask set_delay
  option_step s o =
      if o.c == b'h'
      then helps
      else if o.c == b'r'
      then goes_on (record s { doraw = true })
      else if o.c == b'e'
      then or_fail (set_enable s o.optarg)
      else if o.c == b'm'
      then or_fail (add_macs ether_aton s (strtok_all o.optarg))
      else if o.c == b'b'
      then or_fail (set_byte s o.optarg)
      else if o.c == b'c'
      then or_fail (set_chanspec s o.optarg)
      else if o.c == b'C'
      then or_fail (set_coremask s o.optarg)
      else if o.c == b'N'
      then or_fail (set_nssmask s o.optarg)
      else if o.c == b'd'
      then or_fail (set_delay s o.optarg)
      else fails

  unfoldable pub option_loop : Locals → List Opt → Step
  unfolding option_step
  option_loop s [] = goes_on s
  option_loop s (o ∷ rest) = elim (option_step s o) [
    | goes_on s' ↦ option_loop s' rest
    | helps ↦ helps
    | fails ↦ fails
  ]
