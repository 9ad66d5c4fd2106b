-- ===== src/Nexmon/Csi4339.antt =====
-- `struct csi_header_4339` of Csi/nex_csi4339.h. GCC puts the first bit field of a unit in its lowest
-- bits on a little-endian machine.
pub mod Laws
use app_loctag.Base.{
  ℕ, zero, suc, ◌+◌, ◌*◌, ◌/◌, ◌%◌, ◌||◌, List, [], ◌∷◌, Option, none, some, ◌>>=◌, Bytes, ◌==◌, ℤ,
  pos, negsuc, Bool, false,
}
use app_loctag.Memory.{read16, read32, read_bytes, signed16}

abbrev pub csi_magic : ℕ
csi_magic = 0x11111111

-- `sizeof (struct csi_header_4339)`: `data` takes no room.
abbrev pub csi_header_size : ℕ
csi_header_size = 18

abbrev pub net_headers_size : ℕ
net_headers_size = 42

pub record CsiHeader : Type 0 where
  pub src_mac : Bytes
  pub seq_num : ℕ
  pub core_num : ℕ
  pub ss_num : ℕ
  pub chanspec : ℕ
  pub chip_ver : ℕ

-- The fields behind `magic`. The second byte of the bit fields holds 3, 3 and 2 bits.
unfoldable pub read_header : Bytes → ℕ → Option CsiHeader
unfolding read16 read_bytes
read_header b at = do
  src_mac ← read_bytes b (at + 4) 6
  seq_num ← read16 b (at + 10)
  bits ← read16 b (at + 12)
  chanspec ← read16 b (at + 14)
  chip_ver ← read16 b (at + 16)
  some (record {
    src_mac = src_mac;
    seq_num = seq_num;
    core_num = bits / 256 % 8;
    ss_num = bits / 2048 % 8;
    chanspec = chanspec;
    chip_ver = chip_ver;
  })

-- `struct csi_elem_4339`, and the elements of `data`.
unfoldable pub read_elem : Bytes → ℕ → Option (ℤ × ℤ)
unfolding read16
read_elem b at = do
  real ← read16 b at
  imag ← read16 b (at + 2)
  some (signed16 real, signed16 imag)

unfoldable pub read_elems : Bytes → ℕ → ℕ → Option (List (ℤ × ℤ))
unfolding read_elem
read_elems b at zero = some []
read_elems b at (suc n) = do
  elem ← read_elem b at
  rest ← read_elems b (at + 4) n
  some (elem ∷ rest)

-- 64, 128 or 256 elements: a channel of 20, 40 or 80 MHz.
unfoldable pub is_data_size : ℤ → Bool
is_data_size (pos n) = n == 256 || n == 512 || n == 1024
is_data_size (negsuc n) = false
