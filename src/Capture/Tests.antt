-- ===== src/Capture/Tests.antt =====
-- Runs of csiutil.c, and the theorems about it at concrete inputs.
use app_loctag.Base.{
  ℕ, ◌≡◌, ◌≤◌, ◌↔◌, length, All, inr, inl, refl, arith, true, false, List, [], ◌∷◌, ◌++◌, none,
  some, Bytes, replicate, codes, pos, ◌^◌, ◌-◌,
}
use app_loctag.Nexmon.Csi4339.Laws.{Sent, sent_bytes, elems_bytes}
use app_loctag.Jni.Csi.Laws.{csi_object}
use app_loctag.Jni.Csi.Laws.{buff_to_csi4339-sent}
use app_loctag.Capture.Options.{Config, defaults, forwarding, has_mode, parse_opt}
use app_loctag.Libc.Argp.{parsed, faults, unknown}
use app_loctag.Capture.Event.{logs, sends}
use app_loctag.Capture.Csi.{check_csi}
use app_loctag.Capture.Csi.Agree.{Reports, check_csi-Reports}
use app_loctag.Capture.Packet.{got_packet}
use app_loctag.Capture.Forward.{SendsWithin}
use app_loctag.Capture.Forward.Snapshot.{captured, snapshot-SendsWithin}

abbrev sent_packet : Sent
sent_packet = record {
  mac = (0, 1, 2, 3, 4, 5);
  seq_num = 5;
  pad = 0;
  core_num = 1;
  ss_num = 1;
  top = 0;
  chanspec = 0x1001;
  chip_ver = 0;
}

abbrev elems : List (ℕ × ℕ)
elems = replicate 64 (2, 3)

abbrev captured_packet : Bytes
captured_packet = replicate 42 0 ++ (sent_bytes sent_packet ++ (elems_bytes elems ++ []))

logs_one : logs defaults 1 ≡ true
unfolding logs
logs_one = refl

check_csi-Reports_example :
    Reports defaults captured_packet 316
      (csi_object sent_packet elems)
      (check_csi defaults captured_packet 316)
check_csi-Reports_example =
    check_csi-Reports defaults captured_packet 316 _ logs_one (omega arith) (
      buff_to_csi4339-sent sent_packet elems (replicate 42 0) []
        (record { pad_byte = omega arith; core_bits = omega arith; ss_bits = omega arith })
        (inl refl))

-- CSI packets that are only forwarded.
abbrev forwards : Config
forwards = record defaults { pkt_type = pos 2; mode = pos 2 }

forwards_mode : has_mode forwards forwarding ≡ true
unfolding has_mode
forwards_mode = refl

-- A packet of an 80 MHz channel, and its capture with a snapshot length of 1024.
abbrev wide : Bytes
wide = replicate 42 0 ++ (sent_bytes sent_packet ++ (elems_bytes (replicate 256 (2, 3)) ++ []))

wide_run : got_packet forwards false (captured 1024 wide) 1084 ≡ some (sends 42 1042 ∷ [])
unfolding got_packet
wide_run = refl

snapshot-SendsWithin_example :
    All (SendsWithin (length (captured 1024 wide))) (sends 42 1042 ∷ []) ↔ (length wide ≤ 1024)
snapshot-SendsWithin_example =
    snapshot-SendsWithin forwards false 1024 wide (sends 42 1042 ∷ []) (inr (inr refl))
      forwards_mode (omega arith) (omega arith) wide_run

-- A packet without the headers is forwarded with a length below 0, as an unsigned number.
short_run : got_packet forwards false (replicate 10 0) 10 ≡ some (sends 42 (2 ^ 32 - 32) ∷ [])
unfolding got_packet
short_run = refl

-- `-t` without an argument makes `strtol` read at NULL.
option_runs :
    (parse_opt defaults b't' none ≡ faults)
    × (parse_opt defaults b't' (some (codes "0x2")) ≡ parsed (record defaults { pkt_type = pos 2 }))
    × (parse_opt defaults b'x' none ≡ unknown)
unfolding parse_opt
option_runs = (refl, refl, refl)
