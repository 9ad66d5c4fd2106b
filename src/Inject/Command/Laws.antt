-- ===== src/Inject/Command/Laws.antt =====
-- What Csi/injectutil.c gives to the system, by its command line.
use app_loctag.Base.{
  ℕ, ◌≡◌, refl, sym, ◌∙◌, arith, true, false, List, [], ◌∷◌, negsuc, Option, none, some, Bytes,
  codes, ◌==◌, if◌then◌else◌, Bool-cases, Option-cases, inl, inr, All,
}
use mathlib.Core.Path.{subst}
use app_loctag.Libc.Argp.{
  Call, IsCall, Parsed, parsed, unknown, faults, parse_all, last_arg, arg_or, arg_or-cons,
}
use app_loctag.Libc.Argp.Laws.{any_missing, Parses, crashes, reads}
use app_loctag.McUtils.{System}
use app_loctag.Inject.Options.{Config, defaults, options, parse_opt}
use app_loctag.Inject.Options.Laws.{
  is_missing, Lasts, nex_rt-IsRadiotap, set_rt-IsRadiotap, parse_all-Parses_inject,
}
use app_loctag.Inject.Laws.{ReadsWithin, IsRadiotap}
use app_loctag.Inject.Program.{Sent, exits, sends}
use app_loctag.Inject.Socket.{Kernel, Created, create_raw_socket}
use app_loctag.Inject.Main.{Run, packet_of, send, main}
use app_loctag.Inject.Main.Laws.{Wrote, main-Wrote}
use app_loctag.Inject.Command.{Outcome, usage, crashed, ran, injectutil}

-- A run that crashes at an option p without an argument, or that has taken its globals from the
-- options and has then written what they say.
pub data Injects (k : Kernel) (sys : System) (calls : List Call) : Outcome → Type 0 where
  crashes_early : any_missing is_missing calls ≡ true → Injects k sys calls crashed
  runs :
      any_missing is_missing calls ≡ false
      → (c : Config) → Lasts defaults calls c
      → (run : Run) → Wrote k sys c run.written
      → Injects k sys calls (ran run)

-- The table gives an argument to each call for the interface, so that its name is never NULL.
still_named :
    (key : ℕ) (arg : Option Bytes) (old : Bytes)
    → IsCall options (key, arg)
    → (name : Bytes) × ((if key == b'I' then arg else some old) ≡ some name)
still_named key (some text) old call = elim (Bool-cases (key == b'I')) [
  | inl same ↦ (text, rw same refl)
  | inr other ↦ (old, rw other refl)
]
still_named key none old call = (old, ground arith)

interface_named :
    (calls : List Call) (old : Bytes)
    → All (IsCall options) calls
    → (name : Bytes) × (arg_or (some old) (last_arg b'I' calls) ≡ some name)
unfolding last_arg
interface_named [] old ok = (old, refl)
interface_named ((key, arg) ∷ calls) old (first, rest) =
    let (text, same) = still_named key arg old first in
    let (name, e) = interface_named calls text rest in
    (name, sym (arg_or-cons b'I' key arg calls (some old)) ∙ rw same e)

no_crash : (k : Kernel) (name : Bytes) → ¬ (create_raw_socket k (some name) ≡ none)
unfolding create_raw_socket
no_crash k name h = ground arith

create_raw_socket-returns :
    (k : Kernel) (name : Bytes)
    → (created : Created) × (create_raw_socket k (some name) ≡ some created)
create_raw_socket-returns k name = elim (Option-cases (create_raw_socket k (some name))) [
  | inl crash ↦ absurd (no_crash k name crash)
  | inr returns ↦ returns
]

sent-returns :
    (k : Kernel) (c : Config) (buff : Bytes) (fd : Option ℕ) (sent : Sent)
    → (run : Run) × (elim sent [
      | exits ↦ some (record { status = negsuc 0; written = []; output = [] })
      | sends packet ↦ some (send k c buff fd packet)
    ]
        ≡ some run)
sent-returns k c buff fd exits = (_, refl)
sent-returns k c buff fd (sends packet) = (_, refl)

main-run :
    (k : Kernel) (sys : System) (buff : Bytes) (c : Config) (name : Bytes) (created : Created)
    (run : Run)
    → c.ifname ≡ some name
    → create_raw_socket k (some name) ≡ some created
    → elim (packet_of sys c.rt c.filepath) [
      | exits ↦ some (record { status = negsuc 0; written = []; output = [] })
      | sends packet ↦ some (send k c buff created.fd packet)
    ]
      ≡ some run
    → main k sys buff c ≡ some run
unfolding main
main-run k sys buff c name created run named made e = rw (named, made) e

main-returns :
    (k : Kernel) (sys : System) (buff : Bytes) (c : Config) (name : Bytes)
    → c.ifname ≡ some name
    → (run : Run) × (main k sys buff c ≡ some run)
main-returns k sys buff c name named =
    let (created, made) = create_raw_socket-returns k name in
    let (run, e) = sent-returns k c buff created.fd (packet_of sys c.rt c.filepath) in
    (run, main-run k sys buff c name created run named made e)

-- For a command line of the options of injectutil, and a read that puts no more bytes into the
-- buffer than it is told to, a run crashes only where an option p has no argument. Otherwise it
-- takes its globals and the numbers of the radiotap header from the last options for them, and
-- gives to the system one packet, made of that header and the bytes of the file, if the socket is
-- made, bound to the interface with the first 15 bytes of the name and made promiscuous, the file
-- is opened and read, and write succeeds, and no packet if one of these fails.
pub injectutil-Injects :
    (k : Kernel) (sys : System) (buff : Bytes) (calls : List Call)
    → All (IsCall options) calls
    → ReadsWithin sys
    → Injects k sys calls (injectutil k sys buff calls)
unfolding injectutil
injectutil-Injects k sys buff calls ok within =
    go (parse_all parse_opt defaults calls) (parse_all-Parses_inject defaults calls ok)
  where
    go :
        (p : Parsed Config)
        → Parses is_missing Lasts defaults calls p
        → Injects k sys calls (elim p [
          | parsed c ↦ elim (main k sys buff c) [ some run ↦ ran run | none ↦ crashed ]
          | unknown ↦ usage
          | faults ↦ crashed
        ])
    go p (crashes missing) = crashes_early missing
    go p (reads given c v) =
        let (name, named) = interface_named calls (codes "wlan0") ok in
        let (run, e) = main-returns k sys buff c name (v.ifname ∙ named) in
        let header : IsRadiotap c.rt =
          subst IsRadiotap (sym v.rt) (set_rt-IsRadiotap defaults.rt calls nex_rt-IsRadiotap) in
        rw e (runs given c v run (main-Wrote k sys buff c run within header e))
