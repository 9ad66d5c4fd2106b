-- ===== src/Nexmon/Dot11Rt.antt =====
-- Csi/nex_dot11rt.h and Csi/nex_dot11rt.c: the radiotap header of the firmware, the 802.11 header
-- behind it, and the names of the frame types.
pub mod Sent
pub mod Laws
use app_loctag.Base.{
  ℕ, zero, suc, ◌+◌, ◌/◌, ◌%◌, ◌&&◌, List, [], ◌∷◌, Option, none, some, ◌>>=◌, Bytes, codes,
  get_elem?, get_or, ◌==◌, if◌then◌else◌,
}
use app_loctag.Memory.{read8, read16, read_bytes}

abbrev pub dot11_present : ℕ
dot11_present = 0x4008006f

-- `sizeof (struct nexmon_radiotap_header)`.
abbrev pub nexmon_header_size : ℕ
nexmon_header_size = 40

-- From the 802.11 header to the tagged parameters of a beacon.
abbrev pub tagged_offset : ℕ
tagged_offset = 0x24

-- The fields of the radiotap header that are used; `dbm` fields are their bytes.
pub record Radiotap : Type 0 where
  pub data_rate : ℕ
  pub chan_freq : ℕ
  pub dbm_antsignal : ℕ
  pub dbm_antnoise : ℕ

unfoldable pub read_radiotap : Bytes → ℕ → Option Radiotap
unfolding read8 read16
read_radiotap b at = do
  data_rate ← read8 b (at + 17)
  chan_freq ← read16 b (at + 18)
  dbm_antsignal ← read8 b (at + 22)
  dbm_antnoise ← read8 b (at + 23)
  some (record {
    data_rate = data_rate;
    chan_freq = chan_freq;
    dbm_antsignal = dbm_antsignal;
    dbm_antnoise = dbm_antnoise;
  })

-- `type` and `subtype` share the first byte of `struct ieee80211_hdr` with the version.
pub record FrameControl : Type 0 where
  pub frame_type : ℕ
  pub subtype : ℕ

unfoldable pub read_control : Bytes → ℕ → Option FrameControl
unfolding read8
read_control b at = do
  byte ← read8 b at
  some (record { frame_type = byte / 4 % 4; subtype = byte / 16 % 16 })

-- The fields of the header that are used.
pub record Dot11Header : Type 0 where
  pub control : FrameControl
  pub addr1 : Bytes
  pub addr2 : Bytes

unfoldable pub read_dot11 : Bytes → ℕ → Option Dot11Header
unfolding read_control read_bytes
read_dot11 b at = do
  control ← read_control b at
  addr1 ← read_bytes b (at + 4) 6
  addr2 ← read_bytes b (at + 10) 6
  some (record { control = control; addr1 = addr1; addr2 = addr2 })

-- At most `n` bytes of a string, up to a NUL: what `%.*s` reads and prints.
unfoldable pub read_string : Bytes → ℕ → ℕ → Option Bytes
unfolding read8
read_string b at zero = some []
read_string b at (suc n) = do
  first ← read8 b at
  rest ← if first == 0 then some [] else read_string b (at + 1) n
  some (if first == 0 then [] else first ∷ rest)

-- The length of the first tagged parameter, if that has the number 0, of an SSID.
unfoldable pub tag_length : Bytes → ℕ → Option (Option ℕ)
unfolding read8
tag_length b at = do
  num ← read8 b at
  if num == 0 then read8 b (at + 1) >>= (λ len. some (some len)) else some none

-- The tag is read for a beacon only, as `&&` has it.
unfoldable pub ssid_length : Bytes → ℕ → FrameControl → Option (Option ℕ)
unfolding tag_length
ssid_length b at control =
    if control.frame_type == 0 && control.subtype == 8
    then tag_length b (at + tagged_offset)
    else some none

abbrev pub frame_type_names : List Bytes
frame_type_names = codes "mgt" ∷ codes "ctl" ∷ codes "data" ∷ codes "ext" ∷ []

abbrev pub frame_subtype_names : List (List Bytes)
frame_subtype_names =
    (codes "Association Request"
      ∷ codes "Association Response"
      ∷ codes "Reassociation Request"
      ∷ codes "Reassociation Response"
      ∷ codes "Probe Request"
      ∷ codes "Probe Response"
      ∷ codes "Timing Advertisement"
      ∷ codes "Reserved"
      ∷ codes "Beacon"
      ∷ codes "ATIM"
      ∷ codes "Disassociation"
      ∷ codes "Authentication"
      ∷ codes "Deauthentication"
      ∷ codes "Action"
      ∷ codes "Action No Ack"
      ∷ codes "Reserved"
      ∷ [])
    ∷ (codes "Reserved"
        ∷ codes "Reserved"
        ∷ codes "Reserved"
        ∷ codes "Reserved"
        ∷ codes "Beamforming Report Poll"
        ∷ codes "VHT NDP Announcement"
        ∷ codes "Control Frame Extension"
        ∷ codes "Control Wrapper"
        ∷ codes "Block Ack Request (BlockAckReq)"
        ∷ codes "Block Ack (BlockAck)"
        ∷ codes "PS-Poll"
        ∷ codes "RTS"
        ∷ codes "CTS"
        ∷ codes "Ack"
        ∷ codes "CF-End"
        ∷ codes "CF-End +CF-Ack"
        ∷ [])
    ∷ (codes "Data"
        ∷ codes "Data+CF-Ack"
        ∷ codes "Data+CF-Poll"
        ∷ codes "Data+CF-Ack +CF-Poll"
        ∷ codes "Null(no data)"
        ∷ codes "CF-Ack(no data)"
        ∷ codes "CF-Poll(no data)"
        ∷ codes "CF-Ack+CF-Poll(no data)"
        ∷ codes "QoS Data"
        ∷ codes "QoS Data+CF-Ack"
        ∷ codes "QoS Data+CF-Poll"
        ∷ codes "QoS Data+CF-Ack +CF-Poll"
        ∷ codes "QoS Null(no data)"
        ∷ codes "Reserved"
        ∷ codes "QoS CF-Poll(no data)"
        ∷ codes "QoS CF-Ack+CF-Poll (no data)"
        ∷ [])
    ∷ (codes "DMG Beacon" ∷ [])
    ∷ []

-- The entry of the table for a type and a subtype, and `none` for a NULL.
unfoldable pub subtype_name : ℕ → ℕ → Option Bytes
subtype_name frame_type subtype = get_elem? (get_or frame_subtype_names frame_type []) subtype
