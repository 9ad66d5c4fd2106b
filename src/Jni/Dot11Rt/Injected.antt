-- ===== src/Jni/Dot11Rt/Injected.antt =====
-- What `buffToDot11Rt` makes of a captured frame that is laid out as the structs of Csi/nex_inject.h.
use app_loctag.Base.{
  ℕ, ◌+◌, ◌*◌, ◌/◌, ◌%◌, ◌<◌, ◌≤◌, ◌≡◌, ◌≢◌, refl, ap, ◌∙◌, arith, [], ◌∷◌, ◌++◌, Bytes, take, drop,
  take-append-drop, length-take, length, some, ◌==◌, ◌&&◌, if◌then◌else◌,
}
use mathlib.Core.Path.{subst}
use app_loctag.McUtils.HexDump.{c_string}
use app_loctag.Memory.{signed8}
use app_loctag.Nexmon.Mac.{mac_text}
use app_loctag.Nexmon.Dot11Rt.Sent.{
  NexmonHeader, Ieee80211Hdr, Body, tagged, untagged, SentFrame, header_bytes, Mac, mac_bytes,
  hdr_bytes, body_bytes,
}
use app_loctag.Inject.Frames.{InjectFrame, beacon, data_frame, inject_bytes}
use app_loctag.Jni.Dot11Rt.{by_two, Dot11Rt, buff_to_dot11_rt}
use app_loctag.Jni.Dot11Rt.Sent.{IsSentFrame, object_of, buff_to_dot11_rt-sent}

-- The first octet of a frame, its receiver and its transmitter.
abbrev pub first_octet : InjectFrame → ℕ
first_octet (beacon b) = b.ver_type_subtype
first_octet (data_frame d) = d.ver_type_subtype

abbrev pub receiver : InjectFrame → Mac
receiver (beacon b) = b.dst_addr
receiver (data_frame d) = d.dst_addr

abbrev pub transmitter : InjectFrame → Mac
transmitter (beacon b) = b.src_addr
transmitter (data_frame d) = d.src_addr

-- The SSID that a frame shows.
abbrev pub shown_ssid : InjectFrame → Bytes
shown_ssid (beacon b) =
    if b.ver_type_subtype / 4 == 32 && b.ssid_tag_num == 0
    then c_string (take b.ssid_len (mac_bytes b.ssid))
    else []
shown_ssid (data_frame d) = []

-- The SSID of a beacon fits its array, and a data frame is no beacon.
abbrev pub HasItsKind : InjectFrame → Type 0
HasItsKind (beacon b) = b.ssid_len ≤ 6
HasItsKind (data_frame d) = d.ver_type_subtype / 4 ≢ 32

abbrev hdr_of : InjectFrame → Ieee80211Hdr
hdr_of (beacon b) = record {
  ve = b.ver_type_subtype % 4;
  control = record { frame_type = b.ver_type_subtype / 4 % 4; subtype = b.ver_type_subtype / 16 };
  flags = b.flags;
  duration_id = b.duration;
  addr1 = b.dst_addr;
  addr2 = b.src_addr;
  addr3 = b.bssid;
  seq_ctrl = b.frag_seq_num;
}
hdr_of (data_frame d) = record {
  ve = d.ver_type_subtype % 4;
  control = record { frame_type = d.ver_type_subtype / 4 % 4; subtype = d.ver_type_subtype / 16 };
  flags = d.flags;
  duration_id = d.duration;
  addr1 = d.dst_addr;
  addr2 = d.src_addr;
  addr3 = d.bssid;
  seq_ctrl = d.frag_seq_num;
}

abbrev body_of : InjectFrame → Body
body_of (beacon b) =
    tagged b.timestamp b.interval b.capa b.ssid_tag_num (take b.ssid_len (mac_bytes b.ssid))
      (drop b.ssid_len (mac_bytes b.ssid))
body_of (data_frame d) = untagged (drop 24 (inject_bytes (data_frame d)))

octet_parts : (v : ℕ) → v % 4 + v / 4 % 4 * 4 + v / 16 * 16 ≡ v
octet_parts v = omega arith

-- A first octet of a beacon.
beacon_octet : (v : ℕ) → (v / 4 % 4 == 0 && v / 16 == 8) ≡ (v / 4 == 32)
beacon_octet v = ground arith

c_string-shorter : (text : Bytes) → length (c_string text) ≤ length text
unfolding c_string
c_string-shorter [] = omega arith
c_string-shorter (c ∷ rest) = ground (arith, c_string-shorter rest)

inject_bytes-parts :
    (i : InjectFrame)
    → HasItsKind i
    → hdr_bytes (hdr_of i) ++ body_bytes (body_of i) ≡ inject_bytes i
inject_bytes-parts (beacon b) fits =
    let taken : length (take b.ssid_len (mac_bytes b.ssid)) ≡ b.ssid_len =
      length-take b.ssid_len (mac_bytes b.ssid) ∙ omega (arith, fits) in
    rw (octet_parts b.ver_type_subtype, taken, take-append-drop b.ssid_len (mac_bytes b.ssid)) refl
inject_bytes-parts (data_frame d) other = rw (octet_parts d.ver_type_subtype) refl

module _ (h : NexmonHeader) (extra : Bytes) where
  abbrev sent_of : InjectFrame → SentFrame
  sent_of i = record { header = h; extra = extra; hdr = hdr_of i; body = body_of i }

  sent_of-IsSentFrame :
      (i : InjectFrame) → first_octet i < 256 → HasItsKind i → IsSentFrame (sent_of i)
  unfolding c_string
  sent_of-IsSentFrame (beacon b) octet kind = record {
    ve = omega arith;
    frame_type = omega arith;
    subtype = omega (arith, octet);
    body = omega (
      arith,
      kind,
      c_string-shorter (take b.ssid_len (mac_bytes b.ssid)),
      length-take b.ssid_len (mac_bytes b.ssid),
    );
  }
  sent_of-IsSentFrame (data_frame d) octet kind = record {
    ve = omega arith;
    frame_type = omega arith;
    subtype = omega (arith, octet);
    body = beacon_octet d.ver_type_subtype ∙ ground (arith, kind);
  }

  -- What is captured: the radiotap header of the firmware, and the frame behind it.
  abbrev pub captured_bytes : InjectFrame → Bytes
  captured_bytes i = header_bytes h (40 + length extra) ++ (extra ++ inject_bytes i)

  abbrev pub seen : InjectFrame → Dot11Rt
  seen i = record {
    tx_mac = mac_text (mac_bytes (transmitter i));
    rx_mac = mac_text (mac_bytes (receiver i));
    rate = by_two h.data_rate;
    c_freq = h.chan_freq;
    rssi = signed8 h.dbm_antsignal;
    noise = signed8 h.dbm_antnoise;
    frame_type = first_octet i / 4 % 4;
    subtype = first_octet i / 16;
    ssid = shown_ssid i;
  }

  object_of-seen :
      (i : InjectFrame) → object_of (sent_of i) ≡ record { status = 0; fields = some (seen i) }
  object_of-seen (beacon b) = rw (beacon_octet b.ver_type_subtype) refl
  object_of-seen (data_frame d) = refl

-- What is captured as the firmware's radiotap header, any bytes that it counts, and a frame laid
-- out as struct beacon_frame, whose ssid_len is at most 6, or as struct data_frame, whose type and
-- subtype are not those of a beacon, with a first octet below 256, is read by buffToDot11Rt, for
-- an iLength of at least 40, with status 0, the frame's source as transmitter and destination as
-- receiver, its type and subtype, and the header's rate, frequency, signal and noise; the SSID is
-- the first ssid_len octets of ssid up to a NUL for a beacon whose ssid_tag_num is 0, and else
-- empty.
pub buff_to_dot11_rt-injected :
    (h : NexmonHeader) (extra : Bytes) (i : InjectFrame) (front back : Bytes) (len : ℕ)
    → first_octet i < 256
    → HasItsKind i
    → 40 ≤ len
    → buff_to_dot11_rt (front ++ (captured_bytes h extra i ++ back)) (length front) len
      ≡ some (record { status = 0; fields = some (seen h extra i) })
buff_to_dot11_rt-injected h extra i front back len octet kind enough =
    subst
      (λ b.
        buff_to_dot11_rt (front ++ ((header_bytes h (40 + length extra) ++ (extra ++ b)) ++ back))
          (length front) len
        ≡ some (record { status = 0; fields = some (seen h extra i) }))
      (inject_bytes-parts i kind)
      (buff_to_dot11_rt-sent (sent_of h extra i) front back len
          (sent_of-IsSentFrame h extra i octet kind) enough
        ∙ ap some (object_of-seen h extra i))
