-- ===== src/Capture/Dot11.antt =====
-- `process_dot11rt` of Csi/csiutil.c.
pub mod Agree
mod Tests
use app_loctag.Base.{
  ℕ, ◌+◌, Bool, not, ◌||◌, List, [], ◌∷◌, ◌++◌, Option, none, some, ◌>>=◌, Bytes, ltb, ◌==◌,
  if◌then◌else◌, get_or,
}
use app_loctag.Memory.{read16, read32, signed8}
use app_loctag.Nexmon.Dot11Rt.{
  dot11_present, nexmon_header_size, tagged_offset, read_radiotap, read_dot11, FrameControl,
  read_control, read_string, ssid_length, frame_type_names, subtype_name,
}
use app_loctag.Capture.Options.{Config}
use app_loctag.Capture.Event.{
  Event, broke_radiotap, prints_addresses, prints_frame, logs, log, then_events,
}
use app_loctag.Capture.Csi.{dump}

-- `ssid_len` is 0 where there is no SSID, and then nothing of it is read.
abbrev pub ssid_len : Option ℕ → ℕ
ssid_len (some n) = n
ssid_len none = 0

unfoldable pub addresses : Bytes → ℕ → Option Event
unfolding read_radiotap read_dot11
addresses packet it_len = do
  hdr ← read_dot11 packet it_len
  rhdr ← read_radiotap packet 0
  some (
      prints_addresses hdr.addr2 hdr.addr1 rhdr.data_rate rhdr.chan_freq
        (signed8 rhdr.dbm_antsignal) (signed8 rhdr.dbm_antnoise))

unfoldable pub frame_line : Bytes → ℕ → FrameControl → Option ℕ → Option Event
unfolding read_string subtype_name
frame_line packet it_len control len = do
  ssid ← read_string packet (it_len + (tagged_offset + 2)) (ssid_len len)
  some (
      prints_frame (get_or frame_type_names control.frame_type [])
        (subtype_name control.frame_type control.subtype) ssid)

-- The length of the SSID is found whether it is printed or not.
unfoldable pub report_dot11 : Config → Bytes → ℕ → Option (List Event)
unfolding addresses frame_line read_control ssid_length logs
report_dot11 c packet it_len = do
  first ← log (logs c 1) (addresses packet it_len)
  control ← read_control packet it_len
  len ← ssid_length packet it_len control
  second ← log (logs c 1) (frame_line packet it_len control len)
  some (first ++ second)

unfoldable pub check_dot11 : Config → Bytes → ℕ → Option (List Event)
unfolding read16 read32 report_dot11
check_dot11 c packet len = do
  it_len ← read16 packet 2
  it_present ← read32 packet 4
  if ltb len nexmon_header_size || not (it_present == dot11_present)
      then some (broke_radiotap it_present ∷ [])
      else report_dot11 c packet it_len

unfoldable pub process_dot11rt : Config → Bool → Bytes → ℕ → Option (List Event)
unfolding check_dot11
process_dot11rt c output_file packet len =
    then_events (some (dump output_file)) (check_dot11 c packet len)
