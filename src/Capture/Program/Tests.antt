-- ===== src/Capture/Program/Tests.antt =====
-- Command lines of Csi/csiutil.c, and the theorems about them at concrete inputs.
use app_loctag.Base.{
  ℕ, ◌≡◌, refl, inl, inr, arith, true, false, none, some, List, [], ◌∷◌, Bytes, All, map, replicate,
  codes, pos,
}
use app_loctag.Libc.Scan.{strtol}
use app_loctag.Libc.Argp.{Call, IsCall, parse_all, last_arg, last_text}
use app_loctag.Libc.Argp.Laws.{Parses}
use app_loctag.Nexmon.Csi4339.Laws.{Sent, IsSent}
use app_loctag.Capture.Options.{defaults, options, parse_opt}
use app_loctag.Capture.Options.Laws.{is_missing, number, Lasts, parse_all-Parses}
use app_loctag.Capture.Session.{names_file}
use app_loctag.Capture.Session.Run.{Environment}
use app_loctag.Capture.Session.Run.Ends.{AnswersWell}
use app_loctag.Capture.Delivery.{Frame, IsFrame, payload, arrival, IsRead}
use app_loctag.Capture.Program.{crashed_early, csiutil}
use app_loctag.Capture.Program.Laws.{Forwards, Delivers, csiutil-Delivers, csiutil-Delivers_whole}

abbrev sent_frame : Sent
sent_frame = record {
  mac = (0, 1, 2, 3, 4, 5);
  seq_num = 7;
  pad = 0;
  core_num = 2;
  ss_num = 1;
  top = 0;
  chanspec = 0xe33a;
  chip_ver = 0;
}

-- A packet of a 20 MHz channel, and one of a 40 MHz channel.
abbrev first : Frame
first = record { net_headers = replicate 42 0; sent = sent_frame; elems = replicate 64 (1, 0xffff) }

abbrev second : Frame
second = record { net_headers = replicate 42 1; sent = sent_frame; elems = replicate 128 (2, 3) }

sent_frame-IsSent : IsSent sent_frame
sent_frame-IsSent = record {
  pad_byte = omega arith;
  core_bits = omega arith;
  ss_bits = omega arith;
}

both-IsFrame : All IsFrame (first ∷ second ∷ [])
both-IsFrame = (
  record { headers = refl; fields = sent_frame-IsSent; count = inl refl },
  (record { headers = refl; fields = sent_frame-IsSent; count = inr (inl refl) }, tt),
)

abbrev two_arrive : Environment
two_arrive = record {
  opens_live = true;
  compiles_filter = true;
  sets_filter = true;
  makes_socket = true;
  binds_socket = true;
  opens_dump = true;
  bufsiz = 1024;
  arrivals = map arrival (first ∷ second ∷ []);
}

two_arrive-AnswersWell : AnswersWell two_arrive
two_arrive-AnswersWell = record { live = refl; filter = refl; set = refl; dump = refl }

abbrev with_text : ℕ → Bytes → Call
with_text key text = (key, some text)

-- `csiutil -t1 -n2 -t2 -m0x3 -oa.pcap`: the second -t is the one that counts.
abbrev command_line : List Call
command_line =
    with_text b't' (codes "1")
    ∷ with_text b'n' (codes "2")
    ∷ with_text b't' (codes "2")
    ∷ with_text b'm' (codes "0x3")
    ∷ with_text b'o' (codes "a.pcap")
    ∷ []

command_line_calls : All (IsCall options) command_line
command_line_calls = (
  inr (inr (inl (refl, refl))),
  (
    inr (inl (refl, refl)),
    (
      inr (inr (inl (refl, refl))),
      (
        inr (inr (inr (inr (inr (inl (refl, refl)))))),
        (inr (inr (inr (inr (inl (refl, refl))))), tt),
      ),
    ),
  ),
)

-- The command lines of the application: `csiutil -m2 -f"dst port 5500" -l0 -t2 -d1 -n2` for CSI, and
-- one with -t1 for frames. No file is saved.
abbrev of_the_app : Bytes → List Call
of_the_app type_text =
    with_text b'm' (codes "2")
    ∷ with_text b'f' (codes "dst port 5500")
    ∷ with_text b'l' (codes "0")
    ∷ with_text b't' type_text
    ∷ with_text b'd' (codes "1")
    ∷ with_text b'n' (codes "2")
    ∷ []

of_the_app_calls : (type_text : Bytes) → All (IsCall options) (of_the_app type_text)
of_the_app_calls type_text = (
  inr (inr (inr (inr (inr (inl (refl, refl)))))),
  (
    inr (inr (inr (inl (refl, refl)))),
    (
      inr (inr (inr (inr (inr (inr (inr (inl (refl, refl)))))))),
      (
        inr (inr (inl (refl, refl))),
        (inr (inr (inr (inr (inr (inr (inl (refl, refl))))))), (inr (inl (refl, refl)), tt)),
      ),
    ),
  ),
)

of_the_app-Forwards :
    (type_text : Bytes) (t : ℕ)
    → number type_text ≡ pos t
    → Forwards (of_the_app type_text) t 2 1 false
unfolding strtol last_arg last_text names_file
of_the_app-Forwards type_text t e = record {
  calls_options = of_the_app_calls type_text;
  given = refl;
  type_text = type_text;
  typed = refl;
  type_number = e;
  mode_text = codes "2";
  moded = refl;
  mode_number = refl;
  num_text = codes "2";
  numbered = refl;
  num_number = refl;
  filed = refl;
}

type_numbers : (number (codes "2") ≡ pos 2) × (number (codes "1") ≡ pos 1)
unfolding strtol
type_numbers = (refl, refl)

csiutil-Delivers_example :
    Delivers false (map payload (first ∷ second ∷ [])) (csiutil (of_the_app (codes "2")) two_arrive)
    × All IsRead (first ∷ second ∷ [])
csiutil-Delivers_example =
    csiutil-Delivers (of_the_app (codes "2")) two_arrive first (second ∷ []) 2 false
      (of_the_app-Forwards (codes "2") 2 type_numbers.0) (inl refl) two_arrive-AnswersWell refl
      (omega arith, (omega arith, tt)) both-IsFrame

-- Two packets of any bytes.
abbrev frames_arrive : Environment
frames_arrive = record two_arrive { arrivals = (1 ∷ 2 ∷ 3 ∷ [], 3) ∷ (4 ∷ [], 1) ∷ [] }

csiutil-Delivers_whole_example :
    Delivers false
      ((1 ∷ 2 ∷ 3 ∷ []) ∷ (4 ∷ []) ∷ [])
      (csiutil (of_the_app (codes "1")) frames_arrive)
csiutil-Delivers_whole_example =
    csiutil-Delivers_whole (of_the_app (codes "1")) frames_arrive (1 ∷ 2 ∷ 3 ∷ [], 3)
      ((4 ∷ [], 1) ∷ []) 1 false (of_the_app-Forwards (codes "1") 1 type_numbers.1) (omega arith)
      (record { live = refl; filter = refl; set = refl; dump = refl }) refl
      (omega arith, (omega arith, tt)) (refl, (refl, tt))

parse_all-Parses_example :
    Parses is_missing Lasts defaults command_line (parse_all parse_opt defaults command_line)
parse_all-Parses_example = parse_all-Parses defaults command_line command_line_calls

-- `csiutil -m` crashes before anything is captured.
crashes_early : csiutil ((b'm', none) ∷ []) two_arrive ≡ crashed_early
unfolding csiutil
crashes_early = refl
