-- ===== src/Jni/Csi.antt =====
-- `buffToCsi4339` of Csi/JNICsi.c. The array is its bytes and `iLength` the 32 bits of a `jint`; the
-- object is its status with the fields that are set, if any are.
pub mod Laws
use app_loctag.Base.{
  ℕ, ◌+◌, ◌/◌, not, ◌≡◌, refl, List, Option, none, some, ◌>>=◌, Bytes, ◌==◌, if◌then◌else◌, ℤ, pos,
  negsuc, signed32, sub32, is_negative, wrap, ◌^◌,
}
use app_loctag.Memory.{read32}
use app_loctag.Nexmon.Mac.{mac_text}
use app_loctag.Nexmon.Csi4339.{
  csi_magic, csi_header_size, CsiHeader, read_header, read_elems, is_data_size,
}

pub record Csi4339 : Type 0 where
  pub src_mac : Bytes
  pub seq : ℕ
  pub core_num : ℕ
  pub ss_num : ℕ
  pub chanspec : ℕ
  pub chip_ver : ℕ
  pub csi : List (ℤ × ℤ)

pub record CsiObject : Type 0 where
  pub status : ℕ
  pub fields : Option Csi4339

unfoldable pub filled : CsiHeader → List (ℤ × ℤ) → Csi4339
unfolding mac_text
filled h csi = record {
  src_mac = mac_text h.src_mac;
  seq = h.seq_num;
  core_num = h.core_num;
  ss_num = h.ss_num;
  chanspec = h.chanspec;
  chip_ver = h.chip_ver;
  csi = csi;
}

-- `none`: a byte is read that is not in the array.
unfoldable pub fill : Bytes → ℕ → ℕ → Option CsiObject
unfolding read_header read_elems filled
fill b i_offset size = do
  h ← read_header b i_offset
  csi ← read_elems b (i_offset + csi_header_size) (size / 4)
  some (record { status = 0; fields = some (filled h csi) })

abbrev pub only_status : ℕ → CsiObject
only_status status = record { status = status; fields = none }

unfoldable pub buff_to_csi4339 : Bytes → ℕ → ℕ → Option CsiObject
unfolding read32 is_data_size fill
buff_to_csi4339 b i_offset i_length =
    let csi_data_size = signed32 (sub32 i_length csi_header_size) in
    if is_negative csi_data_size then some (only_status 1) else do
      magic ← read32 b i_offset
      if not (magic == csi_magic)
          then some (only_status 1)
          else if not (is_data_size csi_data_size)
          then some (only_status 2)
          else fill b i_offset (wrap (2 ^ 32) csi_data_size)
