-- ===== src/Capture/Log.antt =====
-- What Csi/csiutil.c prints about packets: the text of the `printf` behind each line.
pub mod Reader
pub mod Main
pub mod Parts
pub mod Address
pub mod Frames
pub mod Run
pub mod Laws
mod Tests
use app_loctag.Base.{
  ℕ, ◌+◌, ◌-◌, ◌/◌, ◌%◌, List, [], ◌∷◌, ◌++◌, Option, none, some, Bytes, codes, length, replicate,
  ◌==◌, if◌then◌else◌, ℤ,
}
use app_loctag.Libc.Decimal.{decimal, signed_decimal}
use app_loctag.Libc.Format.{hex_text, hex_padded, zero_padded}
use app_loctag.Nexmon.Mac.{mac_text}
use app_loctag.McUtils.HexDump.{hex_dump}
use app_loctag.Capture.Event.{
  Event, dumps, broke_radiotap, prints_addresses, prints_frame, broke_csi, incorrect_size,
  prints_csi, prints_src_mac, hex_dumps, sends,
}

-- `%4.1lf` of half of a number.
unfoldable pub halves_text : ℕ → Bytes
unfolding decimal
halves_text n =
    let text = decimal (n / 2) ++ (if n % 2 == 0 then codes ".0" else codes ".5") in
    replicate (4 - length text) b' ' ++ text

-- `%s`, which prints a text for NULL.
abbrev pub string : Option Bytes → Bytes
string (some text) = text
string none = codes "(null)"

-- `seq` is printed with five digits, and `chanspec` with four.
unfoldable pub csi_line : (seq core ss chanspec : ℕ) (size : ℤ) → Bytes
csi_line seq core ss chanspec size =
    codes "> seq="
    ++ (zero_padded 5 (decimal seq)
        ++ (codes " core="
            ++ (decimal core
                ++ (codes " ss="
                    ++ (decimal ss
                        ++ (codes " chanspec="
                            ++ b'0'
                              ∷ b'x'
                              ∷ (hex_padded 4 chanspec
                                  ++ (codes " size=" ++ (signed_decimal size ++ 10 ∷ [])))))))))

-- `addr2` is the transmitter, and `addr1` the receiver.
unfoldable pub address_line :
    (addr2 addr1 : Bytes) (data_rate chan_freq : ℕ) (signal noise : ℤ) → Bytes
unfolding mac_text halves_text decimal signed_decimal
address_line addr2 addr1 data_rate chan_freq signal noise =
    codes " "
    ++ (mac_text addr2
        ++ (codes "->"
            ++ (mac_text addr1
                ++ (codes " rate="
                    ++ (halves_text data_rate
                        ++ (codes " chan="
                            ++ (decimal chan_freq
                                ++ (codes " dbm="
                                    ++ (signed_decimal signal
                                        ++ (codes "/"
                                            ++ (signed_decimal noise ++ codes " ")))))))))))

-- `buff` is what the buffer of `hexDump` holds at first. Nothing is printed of a packet that is saved
-- or sent.
unfoldable pub line : Bytes → Event → Bytes
unfolding csi_line address_line decimal hex_padded hex_text signed_decimal mac_text hex_dump
line buff dumps = []
line buff (broke_radiotap it_present) =
    codes "broke radiotap, it_present=0x" ++ (hex_padded 8 it_present ++ 10 ∷ [])
line buff (prints_addresses addr2 addr1 data_rate chan_freq signal noise) =
    address_line addr2 addr1 data_rate chan_freq signal noise
line buff (prints_frame frame_type frame_subtype ssid) =
    codes "["
    ++ (frame_type ++ (codes "/" ++ (string frame_subtype ++ (codes "] " ++ (ssid ++ 10 ∷ [])))))
line buff (broke_csi size) = codes "broke csi packet " ++ (signed_decimal size ++ 10 ∷ [])
line buff incorrect_size = codes "incorrect csi data size" ++ 10 ∷ []
line buff (prints_csi seq core ss chanspec size) = csi_line seq core ss chanspec size
line buff (prints_src_mac src_mac) = codes "  src_mac=" ++ (mac_text src_mac ++ 10 ∷ [])
line buff (hex_dumps bytes) = (hex_dump buff (some (codes "  csi dump")) bytes).0
line buff (sends offset len) = []

-- What a list of events prints.
unfoldable pub output : Bytes → List Event → Bytes
unfolding line
output buff [] = []
output buff (e ∷ events) = line buff e ++ output buff events
