-- ===== src/Inject/Command.antt =====
-- Csi/injectutil.c from its command line on: the calls that `argp_parse` makes of `parse_opt`, and
-- what `main` does behind it.
pub mod Laws
use app_loctag.Base.{List, some, none, Bytes}
use app_loctag.Libc.Argp.{Call, parsed, unknown, faults, parse_all}
use app_loctag.McUtils.{System}
use app_loctag.Inject.Options.{defaults, parse_opt}
use app_loctag.Inject.Socket.{Kernel}
use app_loctag.Inject.Main.{Run, main}

-- `usage`: argp refuses the command line and ends the process. `crashed`: NULL is read.
pub data Outcome : Type 0 where
  usage crashed : Outcome
  ran : Run → Outcome

unfoldable pub injectutil : Kernel → System → Bytes → List Call → Outcome
unfolding parse_all parse_opt main
injectutil k sys buff calls = elim (parse_all parse_opt defaults calls) [
  | parsed c ↦ elim (main k sys buff c) [ some run ↦ ran run | none ↦ crashed ]
  | unknown ↦ usage
  | faults ↦ crashed
]
