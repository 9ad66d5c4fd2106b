-- ===== src/Jni/Dot11Rt/Sent.antt =====
-- What `buffToDot11Rt` makes of a frame that the firmware hands over.
use app_loctag.Base.{
  ℕ, ◌+◌, ◌<◌, ◌≤◌, ◌≡◌, refl, ap, ◌∙◌, arith, Bool, true, false, ◌&&◌, [], ◌∷◌, ◌++◌, append_assoc,
  Option, none, some, ◌>>=◌, Bytes, length, ◌==◌, ltb, lt→ltb, if◌then◌else◌,
}
use native.Mathlib.Nat.{add_assoc}
use mathlib.Core.Path.{ap₂}
use app_loctag.Memory.{read8, read16, read32, signed8}
use app_loctag.Nexmon.Mac.{mac_text}
use app_loctag.Memory.Laws.{le16, read16-append, read32-append}
use app_loctag.McUtils.HexDump.{c_string}
use app_loctag.Nexmon.Dot11Rt.{
  dot11_present, nexmon_header_size, FrameControl, Dot11Header, read_radiotap, read_dot11,
  read_string, tag_length, ssid_length,
}
use app_loctag.Nexmon.Dot11Rt.Sent.{
  SentFrame, Ieee80211Hdr, octets, Body, tagged, untagged, header_bytes, radiotap_of, hdr_bytes,
  dot11_of, body_bytes, mac_bytes, it_len_of, frame_bytes,
}
use app_loctag.Nexmon.Dot11Rt.Laws.{
  read_radiotap-append, read_dot11-append, read_string-append, ssid_length-append,
  read_radiotap-header_bytes, read_dot11-hdr_bytes, read_string-c_string,
}
use app_loctag.Jni.Dot11Rt.Overflow.{fill-some, dot11-eq}
use app_loctag.Jni.Dot11Rt.{
  by_two, Dot11Object, buf_size, sprintf, read_ssid, filled, fill, buff_to_dot11_rt,
}

abbrev pub is_beacon : FrameControl → Bool
is_beacon control = control.frame_type == 0 && control.subtype == 8

-- The SSID: the first tagged parameter of a beacon, up to a NUL, if its number is 0.
abbrev pub ssid_of : FrameControl → Body → Bytes
ssid_of control (tagged timestamp interval capability tag text rest) =
    if is_beacon control && tag == 0 then c_string text else []
ssid_of control (untagged bytes) = []

-- A beacon has tagged parameters, and its SSID has room in the buffer.
abbrev pub IsBody : FrameControl → Body → Type 0
IsBody control (tagged timestamp interval capability tag text rest) =
    length (c_string text) < buf_size
IsBody control (untagged bytes) = is_beacon control ≡ false

pub record IsSentFrame (f : SentFrame) : Type 0 where
  pub ve : ((f.hdr).ve) < 4
  pub frame_type : ((f.hdr).control).frame_type < 4
  pub subtype : ((f.hdr).control).subtype < 16
  pub body : IsBody (f.hdr).control f.body

abbrev pub object_of : SentFrame → Dot11Object
object_of f = record {
  status = 0;
  fields = some (record {
    tx_mac = mac_text (mac_bytes (f.hdr).addr2);
    rx_mac = mac_text (mac_bytes (f.hdr).addr1);
    rate = by_two (f.header).data_rate;
    c_freq = (f.header).chan_freq;
    rssi = signed8 (f.header).dbm_antsignal;
    noise = signed8 (f.header).dbm_antnoise;
    frame_type = ((f.hdr).control).frame_type;
    subtype = ((f.hdr).control).subtype;
    ssid = ssid_of (f.hdr).control f.body;
  });
}

module _ (front back : Bytes) (i : ℕ) where
  read_ssid-append :
      (hdr : Dot11Header) → read_ssid (front ++ back) (length front + i) hdr ≡ read_ssid back i hdr
  unfolding read_ssid
  read_ssid-append hdr =
      rw (ssid_length-append front back i hdr.control) (go (ssid_length back i hdr.control))
    where
      shown : Bytes → ℕ → Option ℕ → Option Bytes
      shown b at (some n) = read_string b (at + 38) n >>= sprintf
      shown b at none = some []

      same : (len : Option ℕ) → shown (front ++ back) (length front + i) len ≡ shown back i len
      same (some n) =
          rw (add_assoc (length front) i 38, read_string-append front back (i + 38) n) refl
      same none = refl

      go :
          (len : Option (Option ℕ))
          → (len >>= shown (front ++ back) (length front + i)) ≡ (len >>= shown back i)
      go none = refl
      go (some len) = same len

-- The SSID behind a header.
read_ssid-body :
    (hdr : Ieee80211Hdr) (body : Body) (back : Bytes)
    → IsBody hdr.control body
    → read_ssid (hdr_bytes hdr ++ (body_bytes body ++ back)) 0 (dot11_of hdr)
      ≡ some (ssid_of hdr.control body)
unfolding read_ssid ssid_length tag_length read8 sprintf
read_ssid-body hdr (untagged bytes) back none_given = rw none_given refl
read_ssid-body hdr (tagged timestamp interval capability tag text rest) back fits =
    go (is_beacon hdr.control) (tag == 0) spelled
  where
    front : Bytes
    front =
        hdr_bytes hdr
        ++ (octets timestamp ++ (le16 interval ++ (le16 capability ++ (tag ∷ length text ∷ []))))

    b : Bytes
    b = hdr_bytes hdr ++ (body_bytes (tagged timestamp interval capability tag text rest) ++ back)

    spelled : read_string b 38 (length text) ≡ some (c_string text)
    spelled =
        ap (λ (t : Bytes). read_string (front ++ t) 38 (length text)) (append_assoc text rest back)
        ∙ read_string-append front (text ++ (rest ++ back)) 0 (length text)
        ∙ read_string-c_string text (rest ++ back)

    go :
        (beacon zero_ : Bool)
        → read_string b 38 (length text) ≡ some (c_string text)
        → ((if beacon then (if zero_ then some (some (length text)) else some none) else some none)
            >>= λ len. elim len [ some n ↦ read_string b 38 n >>= sprintf | none ↦ some [] ])
          ≡ some (if beacon && zero_ then c_string text else [])
    go true true e = rw (e, lt→ltb (length (c_string text)) 64 fits) refl
    go true false e = refl
    go false zero_ e = refl

-- What is read behind the radiotap header of a frame, wherever the frame stands.
module _ (f : SentFrame) (front back : Bytes) where
  abbrev array : Bytes
  array = front ++ (frame_bytes f ++ back)

  behind :
      {A : Type 0} (read : Bytes → ℕ → A)
      → ((front back : Bytes) (i : ℕ) → read (front ++ back) (length front + i) ≡ read back i)
      → read array (length front + it_len_of f)
        ≡ read (hdr_bytes f.hdr ++ (body_bytes f.body ++ back)) 0
  behind read append =
      let prefix = header_bytes f.header (it_len_of f) ++ f.extra in
      let rest = hdr_bytes f.hdr ++ (body_bytes f.body ++ back) in
      let split : frame_bytes f ++ back ≡ prefix ++ rest =
        ap (λ (b : Bytes). header_bytes f.header (it_len_of f) ++ b)
          (append_assoc f.extra (hdr_bytes f.hdr ++ body_bytes f.body) back) in
      append front (frame_bytes f ++ back) (it_len_of f)
      ∙ ap₂ read split (omega arith)
      ∙ append prefix rest 0

  -- The two headers and the SSID are read where `it_len` says.
  pub read_dot11-sent :
      IsSentFrame f → read_dot11 array (length front + it_len_of f) ≡ some (dot11_of f.hdr)
  read_dot11-sent ok =
      behind read_dot11 read_dot11-append
      ∙ read_dot11-hdr_bytes f.hdr (body_bytes f.body ++ back) ok.ve ok.frame_type ok.subtype

  pub read_radiotap-sent : read_radiotap array (length front) ≡ some (radiotap_of f.header)
  read_radiotap-sent =
      ap (read_radiotap array) (omega arith)
      ∙ read_radiotap-append front (frame_bytes f ++ back) 0
      ∙ read_radiotap-header_bytes f.header (it_len_of f)
          (f.extra ++ (hdr_bytes f.hdr ++ body_bytes f.body) ++ back)

  pub read_ssid-sent :
      IsSentFrame f
      → read_ssid array (length front + it_len_of f) (dot11_of f.hdr)
        ≡ some (ssid_of (f.hdr).control f.body)
  read_ssid-sent ok =
      behind (λ b i. read_ssid b i (dot11_of f.hdr))
        (λ front back i. read_ssid-append front back i (dot11_of f.hdr))
      ∙ read_ssid-body f.hdr f.body back ok.body

  filled_in : IsSentFrame f → fill array (length front) (it_len_of f) ≡ some (object_of f)
  unfolding filled
  filled_in ok =
      fill-some array (length front) (it_len_of f) (read_dot11-sent ok) read_radiotap-sent
        (read_ssid-sent ok)

  pub it_len_read : read16 (frame_bytes f ++ back) 2 ≡ some (it_len_of f)
  unfolding read16 read8
  it_len_read = ap some (omega arith)

  pub present_read : read32 (frame_bytes f ++ back) 4 ≡ some dot11_present
  unfolding read32 read16 read8
  present_read = refl

  -- A frame whose 802.11 version, type and subtype fit their bits, and that is a beacon with
  -- tagged parameters or no beacon, and whose first tagged parameter, if it has any, is up to a
  -- NUL shorter than 64 bytes, is read back by buffToDot11Rt, wherever it stands in the array and
  -- however much stands between its two headers, for an iLength of at least 40: with status 0, its
  -- addresses, rate, frequency, signal and noise, type and subtype, and the SSID if it is a beacon
  -- and its first tagged parameter is one.
  pub buff_to_dot11_rt-sent :
      (len : ℕ)
      → IsSentFrame f
      → 40 ≤ len
      → buff_to_dot11_rt array (length front) len ≡ some (object_of f)
  buff_to_dot11_rt-sent len ok enough =
      let long : ltb len nexmon_header_size ≡ false = ground arith in
      let it_len : read16 array (length front + 2) ≡ some (it_len_of f) =
        read16-append front (frame_bytes f ++ back) 2 ∙ it_len_read in
      let present : read32 array (length front + 4) ≡ some dot11_present =
        read32-append front (frame_bytes f ++ back) 4 ∙ present_read in
      dot11-eq array (length front) len it_len present ∙ rw long (filled_in ok)
