-- ===== src/Jni/Dot11Rt/Examples.antt =====
-- Frames of Csi/nex_dot11rt.h for the tests.
use app_loctag.Base.{arith, refl, [], ◌∷◌, Bytes, codes}
use app_loctag.McUtils.HexDump.{c_string}
use app_loctag.Nexmon.Dot11Rt.Sent.{SentFrame, NexmonHeader, Ieee80211Hdr, tagged, untagged}
use app_loctag.Jni.Dot11Rt.Sent.{IsSentFrame}

abbrev pub radiotap_header : NexmonHeader
radiotap_header = record {
  it_version = 0;
  it_pad = 0;
  tsf_l = 0x12345678;
  tsf_h = 0;
  flags = 0;
  data_rate = 2;
  chan_freq = 2437;
  chan_flags = 0;
  dbm_antsignal = 0xd0;
  dbm_antnoise = 0xa0;
  mcs = (0, 0, 0);
  last_pad = 0;
  vendor_oui = (0, 1, 2);
  vendor_sub_namespace = 0;
  vendor_skip_length = 6;
  plcp_data = (0, 0, 0, 0, 0, 0);
}

abbrev pub beacon_hdr : Ieee80211Hdr
beacon_hdr = record {
  ve = 0;
  control = record { frame_type = 0; subtype = 8 };
  flags = 0;
  duration_id = 0;
  addr1 = (255, 255, 255, 255, 255, 255);
  addr2 = (0, 1, 2, 3, 4, 5);
  addr3 = (0, 1, 2, 3, 4, 5);
  seq_ctrl = 7;
}

-- A beacon of the network "cafe", with one byte between the headers.
abbrev pub cafe : SentFrame
cafe = record {
  header = radiotap_header;
  extra = 9 ∷ [];
  hdr = beacon_hdr;
  body = tagged (1, 0, 0, 0, 2, 0, 0, 0) 100 0x431 0 (codes "cafe") (1 ∷ 0 ∷ []);
}

pub cafe-IsSentFrame : IsSentFrame cafe
unfolding c_string
cafe-IsSentFrame = record {
  ve = omega arith;
  frame_type = omega arith;
  subtype = omega arith;
  body = omega arith;
}

-- A data frame.
abbrev pub data_frame : Bytes → SentFrame
data_frame bytes = record {
  header = radiotap_header;
  extra = [];
  hdr = record beacon_hdr { control = record { frame_type = 2; subtype = 0 } };
  body = untagged bytes;
}

pub data_frame-IsSentFrame : (bytes : Bytes) → IsSentFrame (data_frame bytes)
data_frame-IsSentFrame bytes = record {
  ve = omega arith;
  frame_type = omega arith;
  subtype = omega arith;
  body = refl;
}
