-- ===== src/Inject/Program.antt =====
-- `main` of Csi/injectutil.c behind `argp_parse`: what is written to the socket.
use app_loctag.Base.{ℕ, ◌-◌, ◌++◌, Bytes, is_negative, if◌then◌else◌}
use app_loctag.McUtils.{System, read_file}
use app_loctag.Inject.Radiotap.{InjectRadiotap, radiotap_size, rt_bytes}

abbrev pub max_frame_size : ℕ
max_frame_size = 4096

-- `exits`: the file could not be read, and `exit (-1)` is called.
pub data Sent : Type 0 where
  exits : Sent
  sends : Bytes → Sent

-- `t_buffer` up to `p`: the radiotap header and, behind it, what `readFile` puts there.
unfoldable pub inject : System → InjectRadiotap → Bytes → Sent
unfolding read_file rt_bytes
inject sys rt filepath =
    let frame = read_file sys 0 (max_frame_size - radiotap_size) filepath in
    if is_negative frame.code then exits else sends (rt_bytes rt ++ frame.buf)
