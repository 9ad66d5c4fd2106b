-- ===== src/Nexmon/Dot11Rt/Sent.antt =====
-- The frames that the firmware hands over: the structs of Csi/nex_dot11rt.h with all their fields, as
-- bytes. `addr4` stands only in frames that are not read here.
use app_loctag.Base.{ℕ, ◌+◌, ◌*◌, ◌/◌, ◌%◌, [], ◌∷◌, ◌++◌, Bytes, length}
use app_loctag.Memory.Laws.{le16}
use app_loctag.Nexmon.Dot11Rt.{Radiotap, FrameControl, Dot11Header}

abbrev pub le32 : ℕ → Bytes
le32 v = v % 256 ∷ v / 256 % 256 ∷ v / 65536 % 256 ∷ v / 16777216 ∷ []

abbrev pub Mac : Type 0
Mac = ℕ × ℕ × ℕ × ℕ × ℕ × ℕ

abbrev pub mac_bytes : Mac → Bytes
mac_bytes mac = let (a, b, c, d, e, f) = mac in a ∷ b ∷ c ∷ d ∷ e ∷ f ∷ []

-- A time in eight octets.
abbrev pub Octets : Type 0
Octets = ℕ × ℕ × ℕ × ℕ × ℕ × ℕ × ℕ × ℕ

abbrev pub octets : Octets → Bytes
octets time = let (a, b, c, d, e, f, g, h) = time in a ∷ b ∷ c ∷ d ∷ e ∷ f ∷ g ∷ h ∷ []

-- `struct nexmon_radiotap_header`; `it_present` is the one that is accepted.
pub record NexmonHeader : Type 0 where
  pub it_version : ℕ
  pub it_pad : ℕ
  pub tsf_l : ℕ
  pub tsf_h : ℕ
  pub flags : ℕ
  pub data_rate : ℕ
  pub chan_freq : ℕ
  pub chan_flags : ℕ
  pub dbm_antsignal : ℕ
  pub dbm_antnoise : ℕ
  pub mcs : ℕ × ℕ × ℕ
  pub last_pad : ℕ
  pub vendor_oui : ℕ × ℕ × ℕ
  pub vendor_sub_namespace : ℕ
  pub vendor_skip_length : ℕ
  pub plcp_data : Mac

abbrev pub header_bytes : NexmonHeader → ℕ → Bytes
header_bytes h it_len =
    let (m0, m1, m2) = h.mcs in
    let (o0, o1, o2) = h.vendor_oui in
    h.it_version
    ∷ h.it_pad
    ∷ (le16 it_len
        ++ (0x6f
            ∷ 0
            ∷ 0x08
            ∷ 0x40
            ∷ (le32 h.tsf_l
                ++ (le32 h.tsf_h
                    ++ (h.flags
                        ∷ h.data_rate
                        ∷ (le16 h.chan_freq
                            ++ (le16 h.chan_flags
                                ++ (h.dbm_antsignal
                                    ∷ h.dbm_antnoise
                                    ∷ m0
                                    ∷ m1
                                    ∷ m2
                                    ∷ h.last_pad
                                    ∷ o0
                                    ∷ o1
                                    ∷ o2
                                    ∷ h.vendor_sub_namespace
                                    ∷ (le16 h.vendor_skip_length ++ mac_bytes h.plcp_data)))))))))

abbrev pub radiotap_of : NexmonHeader → Radiotap
radiotap_of h = record {
  data_rate = h.data_rate;
  chan_freq = h.chan_freq;
  dbm_antsignal = h.dbm_antsignal;
  dbm_antnoise = h.dbm_antnoise;
}

-- `struct ieee80211_hdr`, less `addr4`.
pub record Ieee80211Hdr : Type 0 where
  pub ve : ℕ
  pub control : FrameControl
  pub flags : ℕ
  pub duration_id : ℕ
  pub addr1 : Mac
  pub addr2 : Mac
  pub addr3 : Mac
  pub seq_ctrl : ℕ

abbrev pub hdr_bytes : Ieee80211Hdr → Bytes
hdr_bytes d =
    (d.ve + (d.control).frame_type * 4 + (d.control).subtype * 16)
    ∷ d.flags
    ∷ (le16 d.duration_id
        ++ (mac_bytes d.addr1 ++ (mac_bytes d.addr2 ++ (mac_bytes d.addr3 ++ le16 d.seq_ctrl))))

abbrev pub dot11_of : Ieee80211Hdr → Dot11Header
dot11_of d = record { control = d.control; addr1 = mac_bytes d.addr1; addr2 = mac_bytes d.addr2 }

-- What stands behind the header: in a beacon the timestamp, the interval and the capabilities, and the
-- tagged parameters, of which the first is shown.
pub data Body : Type 0 where
  tagged : (timestamp : Octets) (interval capability tag : ℕ) (text rest : Bytes) → Body
  untagged : Bytes → Body

abbrev pub body_bytes : Body → Bytes
body_bytes (tagged timestamp interval capability tag text rest) =
    octets timestamp ++ (le16 interval ++ (le16 capability ++ (tag ∷ length text ∷ (text ++ rest))))
body_bytes (untagged bytes) = bytes

-- A frame: the radiotap header with what follows it up to `it_len`, the header and the body.
pub record SentFrame : Type 0 where
  pub header : NexmonHeader
  pub extra : Bytes
  pub hdr : Ieee80211Hdr
  pub body : Body

abbrev pub it_len_of : SentFrame → ℕ
it_len_of f = 40 + length f.extra

abbrev pub frame_bytes : SentFrame → Bytes
frame_bytes f =
    header_bytes f.header (it_len_of f) ++ (f.extra ++ (hdr_bytes f.hdr ++ body_bytes f.body))

-- A frame with its length, as it arrives at `got_packet` of Csi/csiutil.c.
abbrev pub frame_arrival : SentFrame → Bytes × ℕ
frame_arrival f = (frame_bytes f, length (frame_bytes f))
