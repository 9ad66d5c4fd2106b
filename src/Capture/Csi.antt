-- ===== src/Capture/Csi.antt =====
-- `process_csi` of Csi/csiutil.c. `len` is the `uint32_t` of the capture's header.
pub mod Agree
use app_loctag.Base.{
  ℕ, ◌+◌, ◌≡◌, refl, Bool, true, false, not, List, [], ◌∷◌, ◌++◌, Option, none, some, ◌>>=◌, Bytes,
  ◌==◌, if◌then◌else◌, ℤ, signed32, sub32, is_negative,
}
use app_loctag.Memory.{read32, read_bytes}
use app_loctag.Nexmon.Csi4339.{
  csi_magic, csi_header_size, net_headers_size, CsiHeader, read_header, is_data_size,
}
use app_loctag.Capture.Options.{Config}
use app_loctag.Capture.Event.{
  Event, dumps, broke_csi, incorrect_size, prints_csi, prints_src_mac, hex_dumps, logs, log,
  then_events,
}

-- `pcap_dump`, if there is an output file.
abbrev pub dump : Bool → List Event
dump true = dumps ∷ []
dump false = []

unfoldable pub csi_data_size : ℕ → ℤ
csi_data_size len = signed32 (sub32 (sub32 len net_headers_size) csi_header_size)

-- The three lines about a packet that is accepted. `hexDump` reads as many bytes as the header says the
-- packet has, which can be more than were captured.
unfoldable pub report_csi : Config → Bytes → ℕ → Option (List Event)
unfolding read_header logs csi_data_size read_bytes
report_csi c packet len =
    let h = read_header packet net_headers_size in
    then_events
      (log (logs c 1)
        (h >>= λ h. some (prints_csi h.seq_num h.core_num h.ss_num h.chanspec (csi_data_size len))))
      (then_events (log (logs c 2) (h >>= λ h. some (prints_src_mac h.src_mac)))
        (log (logs c 3) (read_bytes packet 0 len >>= λ bytes. some (hex_dumps bytes))))

unfoldable pub check_csi : Config → Bytes → ℕ → Option (List Event)
unfolding read32 is_data_size csi_data_size report_csi
check_csi c packet len =
    let size = csi_data_size len in
    if is_negative size then some (broke_csi size ∷ []) else do
      magic ← read32 packet net_headers_size
      if not (magic == csi_magic)
          then some (broke_csi size ∷ [])
          else if not (is_data_size size)
          then some (incorrect_size ∷ [])
          else report_csi c packet len

unfoldable pub process_csi : Config → Bool → Bytes → ℕ → Option (List Event)
unfolding check_csi
process_csi c output_file packet len =
    then_events (some (dump output_file)) (check_csi c packet len)
