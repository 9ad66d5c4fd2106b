-- ===== src/Capture/Program.antt =====
-- Csi/csiutil.c from its command line on: the calls that `argp_parse` makes of `parse_opt`, and what
-- `main` does behind it.
pub mod Laws
mod Tests
use app_loctag.Base.{List}
use app_loctag.Libc.Argp.{Call, Parsed, parsed, unknown, faults, parse_all}
use app_loctag.Capture.Options.{Config, defaults, parse_opt}
use app_loctag.Capture.Session.{State}
use app_loctag.Capture.Session.Run.{Environment, main}

-- `usage`: argp refuses the command line and ends the process. `crashed_early`: a number is read at NULL.
pub data Outcome : Type 0 where
  usage crashed_early : Outcome
  ran : State → Outcome

unfoldable pub csiutil : List Call → Environment → Outcome
unfolding parse_all parse_opt main
csiutil calls e = elim (parse_all parse_opt defaults calls) [
  | parsed c ↦ ran (main c e)
  | unknown ↦ usage
  | faults ↦ crashed_early
]
