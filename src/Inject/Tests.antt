-- ===== src/Inject/Tests.antt =====
-- Runs of injectutil.c and mcutils.c, and the theorems about them at concrete inputs.
use app_loctag.Base.{
  ◌≤◌, ◌≡◌, refl, sym, arith, true, [], ◌∷◌, none, some, Bytes, codes, take, length, length-take,
  negsuc, pos, ◌++◌, ◌==◌, if◌then◌else◌, replicate, ℕ, List, All, inl, inr,
}
use mathlib.Core.Option.{some-injective}
use app_loctag.McUtils.{System, read_file}
use app_loctag.Inject.Radiotap.{nex_rt}
use app_loctag.Libc.Argp.{Call, IsCall}
use app_loctag.Inject.Options.{Config, defaults, options}
use app_loctag.Inject.Program.{sends, inject}
use app_loctag.Inject.Socket.{Kernel}
use app_loctag.Inject.Main.{Run, main}
use app_loctag.Inject.Command.{crashed, injectutil}
use app_loctag.Inject.Command.Laws.{Injects, injectutil-Injects}
use app_loctag.Inject.Laws.{ReadsWithin}

abbrev three : Bytes
three = 0x80 ∷ 0 ∷ 1 ∷ []

-- A system with one file of three bytes.
abbrev one_file : System
one_file = record {
  opens = λ flags path. true;
  reads = λ path max. some (take max three);
  writes = λ flags path bytes. some (length bytes);
}

one_file-ReadsWithin : ReadsWithin one_file
one_file-ReadsWithin path bytes max h =
    let short : length (take max three) ≤ max = omega (arith, length-take max three) in
    rw (sym (some-injective _ _ h)) short

abbrev packet : Bytes
packet =
    0 ∷ 0 ∷ 36 ∷ 0 ∷ 0 ∷ 0 ∷ 0 ∷ 0xc0 ∷ 7 ∷ 0 ∷ 0 ∷ 0 ∷ b'N' ∷ b'E' ∷ b'X' ∷ 0 ∷ 18 ∷ 0 ∷ 0 ∷ 0 ∷ 0
    ∷ 0 ∷ 0 ∷ 0 ∷ 1 ∷ 0 ∷ 0 ∷ 0 ∷ 0 ∷ 0 ∷ 0 ∷ 0 ∷ 0 ∷ 0 ∷ 0 ∷ 0xc1 ∷ 0x80 ∷ 0 ∷ 1 ∷ []

injects : inject one_file nex_rt (codes "f") ≡ sends packet
unfolding inject
injects = refl

-- A file that cannot be read stays open.
leaks :
    read_file (record one_file { reads = λ path max. none }) 0 4060 (codes "f")
    ≡ record { code = negsuc 1; buf = []; fds = 1 }
unfolding read_file
leaks = refl

-- A system with the interface `wlan0`.
abbrev one_interface : Kernel
one_interface = record {
  makes_socket = true;
  index_of = λ name. if length name == 5 then some 7 else none;
  binds = λ index. true;
  joins = λ index. true;
  writes = λ index bytes. some (length bytes);
}

abbrev from_f : Config
from_f = record defaults { filepath = some (codes "f") }

abbrev sent : Run
sent = record {
  status = pos 0;
  written = (7, packet) ∷ [];
  output = codes "delay=0 number=1 period=0 ratespec=0xc1000000 size=39" ++ 10 ∷ [];
}

main_run : main one_interface one_file (replicate 17 9) from_f ≡ some sent
unfolding main
main_run = refl

-- Where the interface is not found, the program still returns 0.
no_socket :
    main (record one_interface { index_of = λ name. none }) one_file (replicate 17 9) from_f
    ≡ some (record {
      status = pos 0;
      written = [];
      output = codes "delay=0 number=1 period=0 ratespec=0xc1000000 size=-1" ++ 10 ∷ [];
    })
unfolding main
no_socket = refl

-- `injectutil -n100 -p -ff`, and the same with a period.
abbrev with_text : ℕ → Bytes → Call
with_text key text = (key, some text)

abbrev command_line : List Call
command_line =
    with_text b'n' (codes "100") ∷ with_text b'p' (codes "20") ∷ with_text b'f' (codes "f") ∷ []

command_line_calls : All (IsCall options) command_line
command_line_calls = (
  inr (inl (refl, refl)),
  (inr (inr (inl (refl, refl))), (inr (inr (inr (inr (inr (inl (refl, refl)))))), tt)),
)

injectutil-Injects_example :
    Injects one_interface one_file command_line
      (injectutil one_interface one_file (replicate 17 9) command_line)
injectutil-Injects_example =
    injectutil-Injects one_interface one_file (replicate 17 9) command_line command_line_calls
      one_file-ReadsWithin

crashes : injectutil one_interface one_file [] ((b'p', none) ∷ []) ≡ crashed
unfolding injectutil
crashes = refl
