-- ===== src/Capture/Log/Frames.antt =====
-- What process_dot11rt of Csi/csiutil.c prints of a frame that the firmware hands over, read back.
use app_loctag.Base.{
  ℕ, ◌+◌, ◌≡◌, ◌≤◌, ◌<◌, ◌^◌, refl, ◌∙◌, arith, Bool, true, false, List, [], ◌∷◌, ◌++◌, Option,
  some, Bytes, codes, get_or, append_assoc, append-nil, ltb,
}
use mathlib.Core.Path.{subst}
use app_loctag.Memory.{signed8, read16, read32}
use app_loctag.Nexmon.Dot11Rt.{frame_type_names, subtype_name, nexmon_header_size, dot11_present}
use app_loctag.Nexmon.Dot11Rt.Sent.{SentFrame, frame_bytes, it_len_of, mac_bytes}
use app_loctag.Jni.Dot11Rt.Sent.{
  IsSentFrame, ssid_of, read_dot11-sent, read_radiotap-sent, read_ssid-sent, it_len_read,
  present_read,
}
use app_loctag.Capture.Options.{Config}
use app_loctag.Capture.Event.{Event, prints_addresses, prints_frame, logs}
use app_loctag.Capture.Csi.{dump}
use app_loctag.Capture.Dot11.{report_dot11, check_dot11, process_dot11rt}
use app_loctag.Capture.Dot11.Agree.{report_dot11-eq}
use app_loctag.Capture.Log.{string, address_line, line, output}
use app_loctag.Capture.Log.Parts.{IsMac}
use app_loctag.Capture.Log.Address.{AddressLine, read_address_line, read_address_line-address_line}

-- The octets of a frame that are printed are octets, and the frequency has 16 bits.
pub record IsOfOctets (f : SentFrame) : Type 0 where
  pub addr2 : IsMac (f.hdr).addr2
  pub addr1 : IsMac (f.hdr).addr1
  pub data_rate : (f.header).data_rate < 256
  pub chan_freq : (f.header).chan_freq < 2 ^ 16
  pub signal : (f.header).dbm_antsignal < 256
  pub noise : (f.header).dbm_antnoise < 256

-- The values that stand in a frame.
abbrev pub address_of : SentFrame → AddressLine
address_of f = record {
  addr2 = mac_bytes (f.hdr).addr2;
  addr1 = mac_bytes (f.hdr).addr1;
  data_rate = (f.header).data_rate;
  chan_freq = (f.header).chan_freq;
  signal = signed8 (f.header).dbm_antsignal;
  noise = signed8 (f.header).dbm_antnoise;
}

-- The rest of the line: the names of the type and the subtype, and the SSID.
abbrev pub named_of : SentFrame → Bytes
named_of f =
    let control = (f.hdr).control in
    codes "["
    ++ (get_or frame_type_names control.frame_type []
        ++ (codes "/"
            ++ (string (subtype_name control.frame_type control.subtype)
                ++ (codes "] " ++ (ssid_of control f.body ++ 10 ∷ [])))))

-- What is printed is a line that is read as the frame's values, with its names and its SSID behind them.
pub record PrintsFrame (buff : Bytes) (f : SentFrame) (result : Option (List Event)) : Type 0 where
  pub events : List Event
  pub done : result ≡ some events
  pub read_back :
      (more : Bytes)
      → read_address_line (output buff events ++ more) ≡ some (address_of f, named_of f ++ more)

-- What is printed behind the dump.
abbrev addresses_of : SentFrame → Event
addresses_of f =
    prints_addresses (mac_bytes (f.hdr).addr2) (mac_bytes (f.hdr).addr1) (f.header).data_rate
      (f.header).chan_freq (signed8 (f.header).dbm_antsignal) (signed8 (f.header).dbm_antnoise)

abbrev names_of : SentFrame → Event
names_of f =
    prints_frame (get_or frame_type_names ((f.hdr).control).frame_type [])
      (subtype_name ((f.hdr).control).frame_type ((f.hdr).control).subtype)
      (ssid_of (f.hdr).control f.body)

check_dot11-accepts :
    (c : Config) (packet : Bytes) (len : ℕ) {it_len : ℕ}
    → read16 packet 2 ≡ some it_len
    → read32 packet 4 ≡ some dot11_present
    → ltb len nexmon_header_size ≡ false
    → check_dot11 c packet len ≡ report_dot11 c packet it_len
unfolding check_dot11
check_dot11-accepts c packet len e1 e2 long = rw (e1, e2, long) refl

module _ (f : SentFrame) (back : Bytes) (c : Config) (loud : logs c 1 ≡ true)
    (ok : IsSentFrame f) where
  abbrev packet : Bytes
  packet = frame_bytes f ++ back

  reported : report_dot11 c packet (it_len_of f) ≡ some (addresses_of f ∷ names_of f ∷ [])
  reported =
      subst (λ at. report_dot11 c packet at ≡ some (addresses_of f ∷ names_of f ∷ [])) (omega arith)
        (report_dot11-eq c packet (0 + it_len_of f) loud (read_dot11-sent f [] back ok)
          (read_radiotap-sent f [] back) (read_ssid-sent f [] back ok))

  checked :
      (len : ℕ) → 40 ≤ len → check_dot11 c packet len ≡ some (addresses_of f ∷ names_of f ∷ [])
  checked len enough =
      let long : ltb len nexmon_header_size ≡ false = ground arith in
      check_dot11-accepts c packet len (it_len_read f [] back) (present_read f [] back) long
      ∙ reported

-- The line stands first whether the packet is saved or not.
output-line :
    (f : SentFrame) (buff : Bytes) (saved : Bool)
    → output buff (dump saved ++ addresses_of f ∷ names_of f ∷ [])
      ≡ address_line
          (mac_bytes (f.hdr).addr2)
          (mac_bytes (f.hdr).addr1)
          (f.header).data_rate
          (f.header).chan_freq
          (signed8 (f.header).dbm_antsignal)
          (signed8 (f.header).dbm_antnoise)
        ++ named_of f
unfolding output line
output-line f buff true = simp (append-nil {A = ℕ}, append_assoc {A = ℕ})
output-line f buff false = simp (append-nil {A = ℕ}, append_assoc {A = ℕ})

-- For a packet that begins with a frame whose octets fit and that counts at least 40 bytes, where lines
-- are logged, what process_dot11rt prints is read as the frame's values, its names and its SSID, whatever
-- is printed behind it.
pub process_dot11rt-PrintsFrame :
    (c : Config) (f : SentFrame) (back : Bytes) (len : ℕ) (saved : Bool) (buff : Bytes)
    → IsSentFrame f
    → IsOfOctets f
    → logs c 1 ≡ true
    → 40 ≤ len
    → PrintsFrame buff f (process_dot11rt c saved (frame_bytes f ++ back) len)
unfolding process_dot11rt
process_dot11rt-PrintsFrame c f back len saved buff ok octets loud enough = record {
  events = dump saved ++ addresses_of f ∷ names_of f ∷ [];
  done = rw (checked f back c loud ok len enough) refl;
  read_back = λ more.
      rw
        (
          output-line f buff saved,
          append_assoc
              (address_line (mac_bytes (f.hdr).addr2) (mac_bytes (f.hdr).addr1) (f.header).data_rate
                (f.header).chan_freq (signed8 (f.header).dbm_antsignal)
                (signed8 (f.header).dbm_antnoise))
              (named_of f) more,
        )
        (read_address_line-address_line (f.hdr).addr2 (f.hdr).addr1 (f.header).data_rate
          (f.header).chan_freq (f.header).dbm_antsignal (f.header).dbm_antnoise (named_of f ++ more)
          octets.addr2 octets.addr1 octets.data_rate octets.chan_freq octets.signal octets.noise);
}
