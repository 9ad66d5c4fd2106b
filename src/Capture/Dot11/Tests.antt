-- ===== src/Capture/Dot11/Tests.antt =====
-- A frame that csiutil.c and JNICsi.c read alike.
use app_loctag.Base.{◌≡◌, refl, arith, true, [], ◌∷◌, ◌++◌, some, Bytes, replicate, codes, pos}
use app_loctag.Jni.Dot11Rt.{by_two, Dot11Object, buff_to_dot11_rt}
use app_loctag.Capture.Options.{defaults}
use app_loctag.Capture.Event.{logs}
use app_loctag.Capture.Dot11.{check_dot11}
use app_loctag.Capture.Dot11.Agree.{Reports, check_dot11-Reports}

logs_one : logs defaults 1 ≡ true
unfolding logs
logs_one = refl

-- A beacon with the SSID `ab`.
abbrev beacon : Bytes
beacon =
    0
    ∷ 0
    ∷ 40
    ∷ 0
    ∷ 0x6f
    ∷ 0
    ∷ 0x08
    ∷ 0x40
    ∷ (replicate 32 0 ++ (0x80 ∷ (replicate 35 0 ++ (0 ∷ 2 ∷ b'a' ∷ b'b' ∷ []))))

abbrev no_mac : Bytes
no_mac = codes "00:00:00:00:00:00"

abbrev beacon_object : Dot11Object
beacon_object = record {
  status = 0;
  fields = some (record {
    tx_mac = no_mac;
    rx_mac = no_mac;
    rate = by_two 0;
    c_freq = 0;
    rssi = pos 0;
    noise = pos 0;
    frame_type = 0;
    subtype = 8;
    ssid = codes "ab";
  });
}

beacon_run : buff_to_dot11_rt beacon 0 80 ≡ some beacon_object
unfolding buff_to_dot11_rt
beacon_run = refl

check_dot11-Reports_example : Reports beacon_object (check_dot11 defaults beacon 80)
check_dot11-Reports_example =
    check_dot11-Reports defaults beacon 80 beacon_object logs_one (omega arith) beacon_run
