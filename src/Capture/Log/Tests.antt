-- ===== src/Capture/Log/Tests.antt =====
-- Lines of Csi/csiutil.c, and the theorem about them at a concrete packet.
use app_loctag.Base.{
  Bytes, false, map, ◌≡◌, refl, inl, arith, true, none, some, [], ◌∷◌, ◌++◌, codes, replicate, pos,
  negsuc,
}
use app_loctag.Capture.Options.{defaults}
use app_loctag.Capture.Event.{
  logs, broke_radiotap, prints_addresses, prints_frame, incorrect_size, broke_csi,
}
use app_loctag.Capture.Csi.{process_csi}
use app_loctag.Capture.Delivery.{Frame, IsFrame, arrival}
use app_loctag.Capture.Log.{csi_line, line}
use app_loctag.Capture.Session.{start, ended}
use app_loctag.Nexmon.Dot11Rt.Sent.{frame_bytes, frame_arrival}
use app_loctag.Jni.Dot11Rt.Examples.{cafe, cafe-IsSentFrame}
use app_loctag.Capture.Dot11.{process_dot11rt}
use app_loctag.Capture.Log.Parts.{IsMac}
use app_loctag.Capture.Log.Frames.{IsOfOctets, PrintsFrame, process_dot11rt-PrintsFrame}
use app_loctag.Capture.Log.Main.{filter_line, main_output}
use app_loctag.Capture.Log.Run.{Lines, tail_of, main-PrintsLines}
use app_loctag.Capture.Session.{limit_of, names_file}
use app_loctag.Capture.Session.Run.{Environment, main}
use app_loctag.Capture.Options.{Config, has_mode}
use app_loctag.Capture.Log.Laws.{PrintsCsi, process_csi-PrintsCsi}

csi_text :
    csi_line 7 2 1 0xe33a (pos 256)
    ≡ codes "> seq=00007 core=2 ss=1 chanspec=0xe33a size=256" ++ 10 ∷ []
unfolding line
csi_text = refl

address_text :
    line [] (
      prints_addresses
        (1 ∷ 2 ∷ 3 ∷ 4 ∷ 5 ∷ 6 ∷ [])
        (replicate 6 255)
        11
        2437
        (negsuc 59)
        (negsuc 91))
    ≡ codes " 01:02:03:04:05:06->ff:ff:ff:ff:ff:ff rate= 5.5 chan=2437 dbm=-60/-92 "
unfolding line
address_text = refl

frame_texts :
    (line [] (prints_frame (codes "MGMT") (some (codes "Beacon")) (codes "net"))
      ≡ codes "[MGMT/Beacon] net" ++ 10 ∷ [])
    × (line [] (prints_frame (codes "DATA") none []) ≡ codes "[DATA/(null)] " ++ 10 ∷ [])
unfolding line
frame_texts = (refl, refl)

broken_texts :
    (line [] (broke_csi (negsuc 2)) ≡ codes "broke csi packet -3" ++ 10 ∷ [])
    × (line [] (broke_radiotap 0x2f) ≡ codes "broke radiotap, it_present=0x0000002f" ++ 10 ∷ [])
unfolding line
broken_texts = (refl, refl)

-- What `main` prints of a run that opens nothing, one that cannot save, and one that saves.
main_texts :
    (main_output defaults [] (record start { phase = ended (pos 2) }) ≡ [])
    × (main_output defaults [] (record start { phase = ended (negsuc 0) })
        ≡ codes "Filter expression: " ++ 10 ∷ (codes "Fail to save captured packet." ++ 10 ∷ []))
    × (main_output defaults [] (record start { phase = ended (pos 0); trace = incorrect_size ∷ [] })
        ≡ codes "Filter expression: "
          ++ 10 ∷ (codes "incorrect csi data size" ++ 10 ∷ (codes "Capture complete." ++ 10 ∷ [])))
unfolding main_output
main_texts = (refl, refl, refl)

logs_one : logs defaults 1 ≡ true
unfolding logs
logs_one = refl

abbrev frame : Frame
frame = record {
  net_headers = replicate 42 0;
  sent = record {
    mac = (0, 1, 2, 3, 4, 5);
    seq_num = 7;
    pad = 0;
    core_num = 2;
    ss_num = 1;
    top = 0;
    chanspec = 0xe33a;
    chip_ver = 0;
  };
  elems = replicate 64 (1, 0xffff);
}

frame-IsFrame : IsFrame frame
frame-IsFrame = record {
  headers = refl;
  fields = record { pad_byte = omega arith; core_bits = omega arith; ss_bits = omega arith };
  count = inl refl;
}

process_csi-PrintsCsi_example :
    PrintsCsi (replicate 17 9) frame (process_csi defaults true (arrival frame).0 (arrival frame).1)
process_csi-PrintsCsi_example =
    process_csi-PrintsCsi defaults frame true (replicate 17 9) frame-IsFrame logs_one (omega arith)
      (omega arith)

cafe-IsOfOctets : IsOfOctets cafe
unfolding IsMac
cafe-IsOfOctets = record {
  addr2 = (omega arith, omega arith, omega arith, omega arith, omega arith, omega arith);
  addr1 = (omega arith, omega arith, omega arith, omega arith, omega arith, omega arith);
  data_rate = omega arith;
  chan_freq = omega arith;
  signal = omega arith;
  noise = omega arith;
}

prints_cafe :
    PrintsFrame
      (replicate 17 9)
      cafe
      (process_dot11rt defaults true (frame_bytes cafe ++ (3 ∷ [])) 80)
prints_cafe =
    process_dot11rt-PrintsFrame defaults cafe (3 ∷ []) 80 true (replicate 17 9) cafe-IsSentFrame
      cafe-IsOfOctets logs_one (omega arith)

-- A run that monitors frames and saves them.
abbrev monitors : Config
monitors = record defaults {
  pkt_type = pos 1;
  mode = pos 1;
  num_packets = pos 2;
  filepath = some (codes "a.pcap");
}

abbrev cafe_twice : Environment
cafe_twice = record {
  opens_live = true;
  compiles_filter = true;
  sets_filter = true;
  makes_socket = false;
  binds_socket = false;
  opens_dump = true;
  bufsiz = 1024;
  arrivals = map frame_arrival (cafe ∷ cafe ∷ []);
}

main-PrintsLines_example :
    (text : Bytes) × (main_output monitors [] (main monitors cafe_twice)
      ≡ filter_line monitors ++ text)
    × Lines (cafe ∷ cafe ∷ []) text (tail_of monitors true)
unfolding has_mode logs limit_of names_file
main-PrintsLines_example =
    main-PrintsLines monitors cafe_twice (cafe ∷ cafe ∷ []) true [] refl refl refl refl refl
      (record { live = refl; filter = refl; set = refl; dump = refl }) refl
      (omega arith, (omega arith, tt)) (cafe-IsSentFrame, (cafe-IsSentFrame, tt))
      (cafe-IsOfOctets, (cafe-IsOfOctets, tt))
