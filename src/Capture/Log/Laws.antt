-- ===== src/Capture/Log/Laws.antt =====
-- What process_csi of Csi/csiutil.c prints of a packet with CSI, read back.
use app_loctag.Base.{
  ℕ, ◌≡◌, ◌<◌, ◌^◌, ◌*◌, refl, ◌∙◌, arith, Bool, true, false, List, ◌∷◌, ◌++◌, Option, some, Bytes,
  length, pos,
}
use app_loctag.Nexmon.Csi4339.Laws.{header_of}
use app_loctag.Jni.Csi.Laws.{count-IsDataSize}
use app_loctag.Capture.Options.{Config}
use app_loctag.Capture.Event.{Event, prints_csi, logs}
use app_loctag.Capture.Csi.{dump, csi_data_size, check_csi, process_csi}
use app_loctag.Capture.Csi.Agree.{detail, report_csi-eq}
use app_loctag.Capture.Delivery.{Frame, IsFrame, arrival}
use app_loctag.Capture.Delivery.Laws.{data_size, header, magic, whole, check_csi-accepts}
use app_loctag.Capture.Log.{csi_line, line, output}
use app_loctag.Capture.Log.Reader.{CsiLine, read_csi_line, read_csi_line-csi_line}

-- The values that stand in a packet of the firmware.
abbrev pub csi_of : Frame → CsiLine
csi_of f = record {
  seq = f.sent.seq_num;
  core = f.sent.core_num;
  ss = f.sent.ss_num;
  chanspec = f.sent.chanspec;
  size = length f.elems * 4;
}

-- What is printed begins with a line that is read as the packet's values.
pub record PrintsCsi (buff : Bytes) (f : Frame) (result : Option (List Event)) : Type 0 where
  pub events : List Event
  pub rest : Bytes
  pub done : result ≡ some events
  pub read_back : read_csi_line (output buff events) ≡ some (csi_of f, rest)

-- What is printed behind the line.
abbrev behind : Config → Frame → List Event
behind c f = detail c (arrival f).0 (arrival f).1 (header_of f.sent).src_mac

reported :
    (c : Config) (f : Frame)
    → IsFrame f
    → logs c 1 ≡ true
    → check_csi c (arrival f).0 (arrival f).1
      ≡ some (
          prints_csi f.sent.seq_num f.sent.core_num f.sent.ss_num f.sent.chanspec
            (csi_data_size (arrival f).1)
          ∷ behind c f)
reported c f ok loud =
    let accepts =
      check_csi-accepts c (arrival f).0 (arrival f).1 _ (data_size f ok) (magic f ok)
        (count-IsDataSize (length f.elems) ok.count) in
    accepts
    ∙ report_csi-eq c (arrival f).0 (arrival f).1 (header_of f.sent) loud (header f ok) (whole f ok)

-- The line stands first whether the packet is saved or not.
output-line :
    (buff : Bytes) (saved : Bool) (seq core ss chanspec size : ℕ) (rest : List Event)
    → output buff (dump saved ++ prints_csi seq core ss chanspec (pos size) ∷ rest)
      ≡ csi_line seq core ss chanspec (pos size) ++ output buff rest
unfolding output line
output-line buff true seq core ss chanspec size rest = refl
output-line buff false seq core ss chanspec size rest = refl

-- For a packet of 42 bytes of headers, a CSI header whose bit fields fit and whose sequence number
-- and chanspec have 16 bits, and 64, 128 or 256 elements, where lines are logged, what process_csi
-- prints, whether it saves the packet or not, begins with a line that a reader, which uses strtoul
-- for the numbers, reads as the packet's sequence number, core, spatial stream, chanspec and size
-- of the elements.
pub process_csi-PrintsCsi :
    (c : Config) (f : Frame) (saved : Bool) (buff : Bytes)
    → IsFrame f
    → logs c 1 ≡ true
    → f.sent.seq_num < 2 ^ 16
    → f.sent.chanspec < 2 ^ 16
    → PrintsCsi buff f (process_csi c saved (arrival f).0 (arrival f).1)
unfolding process_csi
process_csi-PrintsCsi c f saved buff ok loud seq chanspec =
    let few : length f.elems < 257 = ground (arith, ok.count) in
    record {
      events =
          dump saved
          ++ prints_csi f.sent.seq_num f.sent.core_num f.sent.ss_num f.sent.chanspec
              (pos (length f.elems * 4))
            ∷ behind c f;
      rest = output buff (behind c f);
      done = rw (reported c f ok loud, data_size f ok) refl;
      read_back =
          rw
            (output-line buff saved f.sent.seq_num f.sent.core_num f.sent.ss_num f.sent.chanspec
              (length f.elems * 4) (behind c f))
            (read_csi_line-csi_line f.sent.seq_num f.sent.core_num f.sent.ss_num f.sent.chanspec
              (length f.elems * 4) (output buff (behind c f)) (omega arith)
              (omega (arith, ok.fields.core_bits)) (omega (arith, ok.fields.ss_bits)) (omega arith)
              (omega arith));
    }
