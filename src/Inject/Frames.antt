-- ===== src/Inject/Frames.antt =====
-- The frames of Csi/nex_inject.h that can be injected.
use app_loctag.Base.{◌≡◌, ℕ, ◌∷◌, ◌++◌, Bytes, length}
use app_loctag.Memory.Laws.{le16}
use app_loctag.Nexmon.Dot11Rt.Sent.{Mac, mac_bytes, Octets, octets}

-- `struct beacon_frame`, with an SSID in an array of six.
pub record BeaconFrame : Type 0 where
  pub ver_type_subtype : ℕ
  pub flags : ℕ
  pub duration : ℕ
  pub dst_addr : Mac
  pub src_addr : Mac
  pub bssid : Mac
  pub frag_seq_num : ℕ
  pub timestamp : Octets
  pub interval : ℕ
  pub capa : ℕ
  pub ssid_tag_num : ℕ
  pub ssid_len : ℕ
  pub ssid : Mac

-- `struct data_frame`.
pub record DataFrame : Type 0 where
  pub ver_type_subtype : ℕ
  pub flags : ℕ
  pub duration : ℕ
  pub dst_addr : Mac
  pub src_addr : Mac
  pub bssid : Mac
  pub frag_seq_num : ℕ
  pub qos_ctrl : ℕ
  pub llc_dsap : ℕ
  pub llc_ssap : ℕ
  pub llc_ctrl : ℕ
  pub llc_org_code : ℕ × ℕ × ℕ
  pub llc_type : ℕ
  pub payload : Bytes
  pub payload_size : length payload ≡ 34

abbrev pub beacon_bytes : BeaconFrame → Bytes
beacon_bytes b =
    b.ver_type_subtype
    ∷ b.flags
    ∷ (le16 b.duration
        ++ (mac_bytes b.dst_addr
            ++ (mac_bytes b.src_addr
                ++ (mac_bytes b.bssid
                    ++ (le16 b.frag_seq_num
                        ++ (octets b.timestamp
                            ++ (le16 b.interval
                                ++ (le16 b.capa
                                    ++ (b.ssid_tag_num ∷ b.ssid_len ∷ mac_bytes b.ssid)))))))))

abbrev pub data_bytes : DataFrame → Bytes
data_bytes d =
    let (o0, o1, o2) = d.llc_org_code in
    d.ver_type_subtype
    ∷ d.flags
    ∷ (le16 d.duration
        ++ (mac_bytes d.dst_addr
            ++ (mac_bytes d.src_addr
                ++ (mac_bytes d.bssid
                    ++ (le16 d.frag_seq_num
                        ++ (le16 d.qos_ctrl
                            ++ (d.llc_dsap
                                ∷ d.llc_ssap
                                ∷ d.llc_ctrl
                                ∷ o0
                                ∷ o1
                                ∷ o2
                                ∷ (le16 d.llc_type ++ d.payload))))))))

-- A frame of either kind.
pub data InjectFrame : Type 0 where
  beacon : BeaconFrame → InjectFrame
  data_frame : DataFrame → InjectFrame

abbrev pub inject_bytes : InjectFrame → Bytes
inject_bytes (beacon b) = beacon_bytes b
inject_bytes (data_frame d) = data_bytes d
