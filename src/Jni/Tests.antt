-- ===== src/Jni/Tests.antt =====
-- Runs of JNICsi.c, and the theorems about it at concrete inputs.
use app_loctag.Base.{
  ℕ, codes, ◌≡◌, ◌⊎◌, inl, refl, arith, List, [], ◌∷◌, ◌++◌, none, some, Bytes, All, IsByte, Bool,
  true, u16, ◌&&◌, ltb, ltb→lt, replicate,
}
use app_loctag.Chanspec.Check.{wf_chspec_valid}
use app_loctag.Chanspec.Fields.{chspec_band, chspec_channel, chspec_ctl_sb, chspec_bw}
use app_loctag.Jni.Chanspec.{str_to_chanspec, chanspec_to_str, str_to_chanspec-chanspec_to_str}
use app_loctag.Memory.{read16}
use app_loctag.McUtils.HexDump.{c_string}
use app_loctag.Nexmon.Csi4339.Laws.{Sent, IsSent, sent_bytes, elems_bytes}
use app_loctag.Jni.Csi.{CsiObject, only_status, buff_to_csi4339}
use app_loctag.Jni.Csi.Laws.{csi_object, buff_to_csi4339-sent, buff_to_csi4339-total}
use app_loctag.Nexmon.Dot11Rt.Sent.{frame_bytes}
use app_loctag.Jni.Dot11Rt.{Dot11Object, buff_to_dot11_rt}
use app_loctag.Jni.Dot11Rt.Sent.{object_of, buff_to_dot11_rt-sent}
use app_loctag.Inject.Frames.{InjectFrame, beacon}
use app_loctag.Jni.Dot11Rt.Examples.{radiotap_header, cafe, cafe-IsSentFrame}
use app_loctag.Jni.Dot11Rt.Injected.{captured_bytes, seen, buff_to_dot11_rt-injected}
use app_loctag.Jni.Dot11Rt.Laws.{Overflows}
use app_loctag.Jni.Dot11Rt.Overflow.{buff_to_dot11_rt-cases}

abbrev sent_packet : Sent
sent_packet = record {
  mac = (0, 0x11, 0x22, 0x33, 0x44, 0x55);
  seq_num = 0x1230;
  pad = 9;
  core_num = 3;
  ss_num = 2;
  top = 1;
  chanspec = 0xe33a;
  chip_ver = 0x006a;
}

sent_packet-IsSent : IsSent sent_packet
sent_packet-IsSent = record {
  pad_byte = omega arith;
  core_bits = omega arith;
  ss_bits = omega arith;
}

abbrev elems : List (ℕ × ℕ)
elems = replicate 64 (1, 0xffff)

buff_to_csi4339-sent_example :
    buff_to_csi4339 (7 ∷ (sent_bytes sent_packet ++ (elems_bytes elems ++ []))) 1 274
    ≡ some (csi_object sent_packet elems)
buff_to_csi4339-sent_example =
    buff_to_csi4339-sent sent_packet elems (7 ∷ []) [] sent_packet-IsSent (inl refl)

buff_to_csi4339-total_example :
    (o : CsiObject) × (buff_to_csi4339 (replicate 20 0x11) 1 19 ≡ some o)
buff_to_csi4339-total_example =
    buff_to_csi4339-total (replicate 20 0x11) 1 19 (omega arith) (omega arith)

refusals :
    (buff_to_csi4339 [] 0 17 ≡ some (only_status 1))
    × (buff_to_csi4339 (replicate 18 0) 0 18 ≡ some (only_status 1))
    × (buff_to_csi4339 (replicate 18 0x11) 0 18 ≡ some (only_status 2))
    × (buff_to_csi4339 [] 0 18 ≡ none)
unfolding buff_to_csi4339
refusals = (refl, refl, refl, refl)

-- A beacon with an SSID of `n` letters, in a frame that is long enough to be read.
abbrev long_beacon : ℕ → Bytes
long_beacon n =
    0
    ∷ 0
    ∷ 40
    ∷ 0
    ∷ 0x6f
    ∷ 0
    ∷ 0x08
    ∷ 0x40
    ∷ (replicate 32 0
        ++ (0x80 ∷ (replicate 35 0 ++ (0 ∷ n ∷ (replicate n b'a' ++ replicate 300 0)))))

overflow_run : buff_to_dot11_rt (long_beacon 64) 0 500 ≡ none
unfolding buff_to_dot11_rt
overflow_run = refl

abbrev all_small : Bytes → Bool
all_small [] = true
all_small (x ∷ b) = ltb x 256 && all_small b

all_small-IsByte : (b : Bytes) → all_small b ≡ true → All IsByte b
all_small-IsByte [] h = tt
all_small-IsByte (x ∷ b) h =
    let parts : (ltb x 256 ≡ true) × (all_small b ≡ true) = ground arith in
    (ltb→lt x 256 parts.0, all_small-IsByte b parts.1)

long_beacon-IsByte : All IsByte (long_beacon 64)
long_beacon-IsByte = all_small-IsByte (long_beacon 64) refl

it_len_read : read16 (long_beacon 64) 2 ≡ some 40
unfolding read16
it_len_read = refl

buff_to_dot11_rt-cases_example :
    ((o : Dot11Object) × (buff_to_dot11_rt (long_beacon 64) 0 500 ≡ some o))
    ⊎ ((buff_to_dot11_rt (long_beacon 64) 0 500 ≡ none) × Overflows (long_beacon 64) 40)
buff_to_dot11_rt-cases_example =
    buff_to_dot11_rt-cases (long_beacon 64) 0 500 40 long_beacon-IsByte it_len_read (omega arith)
      (omega arith)

valid_channel : wf_chspec_valid 0x1006 ≡ some true
unfolding wf_chspec_valid chspec_band chspec_channel chspec_ctl_sb chspec_bw
valid_channel = refl

reads_printed :
    (text : Bytes) × (chanspec_to_str 0x11006 ≡ some text)
    × (str_to_chanspec (some text) ≡ u16 0x11006)
reads_printed = str_to_chanspec-chanspec_to_str 0x11006 valid_channel

buff_to_dot11_rt-sent_example :
    buff_to_dot11_rt (7 ∷ (frame_bytes cafe ++ (3 ∷ []))) 1 60 ≡ some (object_of cafe)
buff_to_dot11_rt-sent_example =
    buff_to_dot11_rt-sent cafe (7 ∷ []) (3 ∷ []) 60 cafe-IsSentFrame (omega arith)

-- A beacon that is injected, with four of its six octets as the SSID.
abbrev injected : InjectFrame
injected = beacon (record {
  ver_type_subtype = 0x80;
  flags = 0;
  duration = 0;
  dst_addr = (255, 255, 255, 255, 255, 255);
  src_addr = (0, 1, 2, 3, 4, 5);
  bssid = (0, 1, 2, 3, 4, 5);
  frag_seq_num = 7;
  timestamp = (1, 0, 0, 0, 2, 0, 0, 0);
  interval = 100;
  capa = 0x431;
  ssid_tag_num = 0;
  ssid_len = 4;
  ssid = (b'c', b'a', b'f', b'e', 0, 0);
})

buff_to_dot11_rt-injected_example :
    buff_to_dot11_rt (7 ∷ (captured_bytes radiotap_header [] injected ++ (3 ∷ []))) 1 80
    ≡ some (record { status = 0; fields = some (seen radiotap_header [] injected) })
buff_to_dot11_rt-injected_example =
    buff_to_dot11_rt-injected radiotap_header [] injected (7 ∷ []) (3 ∷ []) 80 (omega arith)
      (omega arith) (omega arith)

-- What is seen of it has the four octets.
injected_ssid : (seen radiotap_header [] injected).ssid ≡ codes "cafe"
unfolding c_string
injected_ssid = refl
