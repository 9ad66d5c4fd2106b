-- ===== src/CsiParams/Store.antt =====
-- `st16le`, `st16be`, `countbit`, `struct csi_params` and its bytes in memory. The machine is
-- little-endian, and the struct has no padding: 34 bytes.
pub mod Laws
use app_loctag.Base.{
  ℕ, zero, suc, ◌+◌, ◌*◌, ◌/◌, ◌≡◌, refl, Bool, true, false, List, [], ◌∷◌, ◌++◌, Bytes, ◌==◌,
  if◌then◌else◌, bit_and, ◌>>>◌, ◌<<<◌, byte_at, take, drop, replicate,
}

unfoldable pub st16le : ℕ → Bytes
st16le value = bit_and value 0xff ∷ bit_and (value >>> 8) 0xff ∷ []

unfoldable pub st16be : ℕ → Bytes
st16be value = bit_and (value >>> 8) 0xff ∷ bit_and value 0xff ∷ []

-- The `uint16_t` that two bytes of memory hold.
unfoldable pub load16 : Bytes → ℕ
load16 bytes = byte_at bytes 0 + byte_at bytes 1 * 256

-- The loop of `countbit`, with fuel for the rounds.
unfoldable pub count_loop : ℕ → ℕ → ℕ → ℕ
count_loop zero val counter = counter
count_loop (suc fuel) val counter =
    let rest = count_loop fuel (val >>> 1) (if bit_and val 1 == 1 then counter + 1 else counter) in
    if val == 0 then counter else rest

-- A `uint32_t` has 32 bits.
unfoldable pub countbit : ℕ → ℕ
unfolding count_loop
countbit val = count_loop 32 val 0

-- `src_macs` is the memory of the twelve fields `cmp_src_mac_0_0` to `cmp_src_mac_3_2`.
pub record CsiParams : Type 0 where
  pub chanspec : ℕ
  pub csi_collect : ℕ
  pub core_nss_mask : ℕ
  pub use_pkt_filter : ℕ
  pub first_pkt_byte : ℕ
  pub n_mac_addr : ℕ
  pub src_macs : Bytes
  pub delay : ℕ

-- `memset (&p, 0, sizeof (p))`.
abbrev pub cleared : CsiParams
cleared = record {
  chanspec = 0;
  csi_collect = 0;
  core_nss_mask = 0;
  use_pkt_filter = 0;
  first_pkt_byte = 0;
  n_mac_addr = 0;
  src_macs = replicate 24 0;
  delay = 0;
}

-- The bytes of a `uint16_t` field in memory.
unfoldable pub field16 : ℕ → Bytes
unfolding st16le
field16 value = st16le value

unfoldable pub bytes_of : CsiParams → Bytes
unfolding field16
bytes_of p =
    field16 p.chanspec
    ++ (p.csi_collect
        ∷ p.core_nss_mask
        ∷ p.use_pkt_filter
        ∷ p.first_pkt_byte
        ∷ (field16 p.n_mac_addr ++ (p.src_macs ++ field16 p.delay)))

-- `memcpy (memory + offset, bytes, length of bytes)`; what would lie past the end is not written.
unfoldable pub write_at : Bytes → ℕ → Bytes → Bytes
write_at memory zero [] = memory
write_at [] offset bytes = []
write_at (m ∷ memory) zero (b ∷ bytes) = b ∷ write_at memory zero bytes
write_at (m ∷ memory) (suc offset) bytes = m ∷ write_at memory offset bytes
