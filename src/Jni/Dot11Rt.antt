-- ===== src/Jni/Dot11Rt.antt =====
-- `buffToDot11Rt` of Csi/JNICsi.c, with its buffer of 64 characters.
pub mod Laws
pub mod Overflow
pub mod Sent
pub mod Examples
pub mod Injected
use app_loctag.Base.{
  ℕ, ◌+◌, ◌/◌, ◌%◌, ◌≡◌, refl, not, List, [], ◌∷◌, Option, none, some, ◌>>=◌, Bytes, ◌==◌, ltb, leb,
  length, if◌then◌else◌, ℤ, pos, negsuc,
}
use app_loctag.Memory.{read16, read32, signed8}
use app_loctag.Nexmon.Mac.{mac_text}
use app_loctag.Nexmon.Dot11Rt.{
  dot11_present, nexmon_header_size, tagged_offset, Radiotap, read_radiotap, Dot11Header,
  read_dot11, read_string, ssid_length,
}

-- The `double` that a number of 8 bits divided by 2.0 is, which has the quotient exactly: its whole
-- part, and the halves behind it.
pub record Halved : Type 0 where
  pub whole : ℕ
  pub halves : ℕ

abbrev pub by_two : ℕ → Halved
by_two n = record { whole = n / 2; halves = n % 2 }

pub record Dot11Rt : Type 0 where
  pub tx_mac : Bytes
  pub rx_mac : Bytes
  pub rate : Halved
  pub c_freq : ℕ
  pub rssi : ℤ
  pub noise : ℤ
  pub frame_type : ℕ
  pub subtype : ℕ
  pub ssid : Bytes

pub record Dot11Object : Type 0 where
  pub status : ℕ
  pub fields : Option Dot11Rt

abbrev pub buf_size : ℕ
buf_size = 64

-- `sprintf (buf, ...)`: `none` where the text and its NUL do not fit.
unfoldable pub sprintf : Bytes → Option Bytes
sprintf text = if ltb (length text) buf_size then some text else none

-- The text that is left in `buf`.
unfoldable pub read_ssid : Bytes → ℕ → Dot11Header → Option Bytes
unfolding ssid_length read_string sprintf
read_ssid b at hdr = do
  len ← ssid_length b at hdr.control
  elim len [ some n ↦ read_string b (at + (tagged_offset + 2)) n >>= sprintf | none ↦ some [] ]

unfoldable pub filled : Radiotap → Dot11Header → Bytes → Dot11Rt
unfolding mac_text
filled rhdr hdr ssid = record {
  tx_mac = mac_text hdr.addr2;
  rx_mac = mac_text hdr.addr1;
  rate = by_two rhdr.data_rate;
  c_freq = rhdr.chan_freq;
  rssi = signed8 rhdr.dbm_antsignal;
  noise = signed8 rhdr.dbm_antnoise;
  frame_type = (hdr.control).frame_type;
  subtype = (hdr.control).subtype;
  ssid = ssid;
}

unfoldable pub fill : Bytes → ℕ → ℕ → Option Dot11Object
unfolding read_radiotap read_dot11 read_ssid filled
fill b i_offset it_len = do
  hdr ← read_dot11 b (i_offset + it_len)
  rhdr ← read_radiotap b i_offset
  ssid ← read_ssid b (i_offset + it_len) hdr
  some (record { status = 0; fields = some (filled rhdr hdr ssid) })

abbrev pub broke_radiotap : Dot11Object
broke_radiotap = record { status = 1; fields = none }

-- `it_len` is read before the length is compared, as an unsigned number.
unfoldable pub buff_to_dot11_rt : Bytes → ℕ → ℕ → Option Dot11Object
unfolding read16 read32 fill
buff_to_dot11_rt b i_offset i_length = do
  it_len ← read16 b (i_offset + 2)
  if ltb i_length nexmon_header_size then some broke_radiotap else do
    it_present ← read32 b (i_offset + 4)
    if not (it_present == dot11_present) then some broke_radiotap else fill b i_offset it_len
