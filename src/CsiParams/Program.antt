-- ===== src/CsiParams/Program.antt =====
-- `main` of makecsiparams.c: the checks behind the option loop, the delay, and the output.
use app_loctag.Base.{
  ℕ, ◌*◌, Bool, true, not, ◌&&◌, ◌||◌, List, Option, Bytes, ltb, leb, ◌==◌, if◌then◌else◌, wrap,
  ◌^◌,
}
use app_loctag.CsiParams.Base64.{encode}
use app_loctag.CsiParams.Store.{countbit, bytes_of, st16le, load16}
use app_loctag.CsiParams.Options.{Opt, Locals, initial, goes_on, helps, fails, option_loop}

abbrev pub default_delay_us : ℕ
default_delay_us = 50

-- What is written to `stdout`; a line ends in a newline that is left out here.
pub data Output : Type 0 where
  usage : Output
  nothing : Output
  raw : Bytes → Output
  line : Bytes → Output

pub record Exit : Type 0 where
  pub output : Output
  pub status : ℕ

unfoldable pub store_enable : Locals → Locals
store_enable s = record s { p = record (s.p) { csi_collect = wrap 256 s.enable } }

-- The checks on what must be given for the collection to be enabled.
unfoldable pub is_complete : Locals → Bool
is_complete s =
    if wrap (2 ^ 32) s.enable == 0
    then true
    else not (s.chanspec == 0) && not (s.nssmask == 0 || s.coremask == 0)

-- The delay that many captures per frame need, unless one was given.
unfoldable pub default_delay : Locals → Locals
unfolding countbit st16le load16
default_delay s =
    if not s.force_delay && leb 12 (countbit s.nssmask * countbit s.coremask)
    then record s { p = record (s.p) { delay = load16 (st16le default_delay_us) } }
    else s

unfoldable pub print_params : Locals → Output
unfolding encode bytes_of
print_params s = if s.doraw then raw (bytes_of s.p) else line (encode (bytes_of s.p))

-- From behind the loop to `finish`.
unfoldable pub conclude : Locals → Output
unfolding store_enable is_complete default_delay print_params
conclude s =
    if is_complete (store_enable s) then print_params (default_delay (store_enable s)) else nothing

-- `retval` is set on an error, and `main` returns 0 all the same.
module _ (ether_aton : Bytes → Option Bytes) where
  unfoldable pub main : ℕ → List Opt → Exit
  unfolding option_loop conclude
  main argc opts = record {
    output = if ltb argc 2 then usage else elim (option_loop ether_aton initial opts) [
      | goes_on s ↦ conclude s
      | helps ↦ usage
      | fails ↦ nothing
    ];
    status = 0;
  }
