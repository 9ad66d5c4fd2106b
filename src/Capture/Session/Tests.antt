-- ===== src/Capture/Session/Tests.antt =====
-- Runs of `main` of Csi/csiutil.c, and the theorems about it at concrete inputs.
use app_loctag.Base.{
  ◌≤◌, ◌≡◌, refl, arith, true, false, [], ◌∷◌, some, ◌⊎◌, replicate, codes, length, take, pos,
}
use app_loctag.Capture.Options.{Config, defaults, has_mode}
use app_loctag.Capture.Event.{sends}
use app_loctag.Capture.Session.{
  State, ended, crashed, closed, limit_of, names_file, run_packets, Step, Reach, opens, start,
  compiling,
}
use app_loctag.Capture.Session.Invariant.{IsWithin, Reach-run_packets, has_file}
use app_loctag.Capture.Session.Termination.{Steps, none_yet, one_more, IsOver, Steps-IsOver}
use app_loctag.Capture.Session.Run.{Environment, main}
use app_loctag.Capture.Session.Run.Status.{Status, main-Status}
use app_loctag.Capture.Session.Run.Laws.{main-Reach}
use app_loctag.Capture.Session.Run.Ends.{AnswersWell, Ends, main-Ends}

-- Every packet is forwarded whole, and saved; two of three are waited for.
abbrev two_forwarded : Config
two_forwarded = record defaults {
  num_packets = pos 2;
  mode = pos 2;
  filepath = some (codes "a.pcap");
}

abbrev three_arrive : Environment
three_arrive = record {
  opens_live = true;
  compiles_filter = true;
  sets_filter = true;
  makes_socket = true;
  binds_socket = true;
  opens_dump = true;
  bufsiz = 1024;
  arrivals = (replicate 4 1, 4) ∷ (replicate 5 2, 5) ∷ (replicate 6 3, 6) ∷ [];
}

final : main two_forwarded three_arrive ≡ record {
  phase = ended (pos 0);
  pcap_handle = false;
  fp = false;
  output_file = false;
  sock_fd = closed;
  stop_sent = true;
  trace = sends 0 4 ∷ sends 0 5 ∷ [];
  got = (replicate 4 1, 4) ∷ (replicate 5 2, 5) ∷ [];
}
unfolding main names_file
final = refl

-- Without a file name, `pcap_dump_close` is called with NULL.
crashes : (main defaults three_arrive).phase ≡ crashed
unfolding main names_file
crashes = refl

limits_two : limit_of two_forwarded.num_packets ≡ some 2
unfolding limit_of
limits_two = refl

names_one : names_file two_forwarded.filepath ≡ some true
unfolding names_file
names_one = refl

two_run :
    run_packets two_forwarded true (take 2 three_arrive.arrivals)
    ≡ some (sends 0 4 ∷ sends 0 5 ∷ [])
unfolding run_packets
two_run = refl

reached :
    Reach two_forwarded (main two_forwarded three_arrive)
    × IsOver (main two_forwarded three_arrive).phase
reached = main-Reach two_forwarded three_arrive

Reach-run_packets_example :
    (run_packets two_forwarded (has_file two_forwarded) (main two_forwarded three_arrive).got
      ≡ some (main two_forwarded three_arrive).trace)
    × IsWithin (limit_of two_forwarded.num_packets) (length (main two_forwarded three_arrive).got)
Reach-run_packets_example =
    Reach-run_packets two_forwarded (main two_forwarded three_arrive)
      (main-Reach two_forwarded three_arrive).0

opened : Steps two_forwarded 1 (record start { phase = compiling; pcap_handle = true })
opened = one_more none_yet (opens start refl)

Steps-IsOver_example :
    (1 ≤ 10)
    × (IsOver (record start { phase = compiling; pcap_handle = true }).phase
        ⊎ ((t : State) × Step two_forwarded
              (record start { phase = compiling; pcap_handle = true })
              t))
Steps-IsOver_example = Steps-IsOver two_forwarded 2 1 _ limits_two opened

three_arrive-AnswersWell : AnswersWell three_arrive
three_arrive-AnswersWell = record { live = refl; filter = refl; set = refl; dump = refl }

main-Ends_example :
    Ends true true
      (take 2 three_arrive.arrivals)
      (sends 0 4 ∷ sends 0 5 ∷ [])
      (main two_forwarded three_arrive)
unfolding has_mode
main-Ends_example =
    main-Ends two_forwarded three_arrive 2 true (omega arith) two_run limits_two names_one
      three_arrive-AnswersWell

main-Status_example : Status two_forwarded three_arrive (main two_forwarded three_arrive)
main-Status_example = main-Status two_forwarded three_arrive
