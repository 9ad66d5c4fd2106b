-- ===== src/Inject/Main.antt =====
-- `main` of Csi/injectutil.c behind `argp_parse`, with its output.
pub mod Laws
use app_loctag.Base.{
  ℕ, suc, ◌-◌, Bool, List, [], ◌∷◌, ◌++◌, Option, none, some, ◌>>=◌, Bytes, codes, length,
  replicate, false, ℤ, pos, negsuc, signed32, leb, if◌then◌else◌,
}
use app_loctag.Libc.Decimal.{signed_decimal}
use app_loctag.Libc.Format.{hex_text, hex_padded}
use app_loctag.McUtils.{System}
use app_loctag.McUtils.HexDump.{hex_dump}
use app_loctag.Inject.Radiotap.{InjectRadiotap}
use app_loctag.Inject.Options.{Config}
use app_loctag.Inject.Program.{Sent, exits, sends, inject}
use app_loctag.Inject.Socket.{Kernel, create_raw_socket}

-- The status, the packets that the system took with the interface of each, and the output.
pub record Run : Type 0 where
  pub status : ℤ
  pub written : List (ℕ × Bytes)
  pub output : Bytes

-- `level` is at most `log_level`.
unfoldable pub log_enabled : ℤ → ℕ → Bool
log_enabled (pos log_level) level = leb level log_level
log_enabled (negsuc n) level = false

unfoldable pub report : InjectRadiotap → ℤ → Bytes
unfolding signed_decimal hex_padded hex_text
report rt t_size =
    codes "delay="
    ++ (signed_decimal (signed32 rt.txdelay)
        ++ (codes " number="
            ++ (signed_decimal (signed32 rt.txrepetitions_num)
                ++ (codes " period="
                    ++ (signed_decimal (signed32 rt.txrepetitions_period)
                        ++ (codes " ratespec=0x"
                            ++ (hex_padded 8 rt.ratespec
                                ++ (codes " size=" ++ (signed_decimal t_size ++ 10 ∷ [])))))))))

-- `buff` is what the buffer of `hexDump` holds at first.
unfoldable pub output_of : Config → Bytes → Bytes → ℤ → Bytes
unfolding log_enabled report hex_dump
output_of c buff packet t_size =
    (if log_enabled c.log_level 1 then report c.rt t_size else [])
    ++ (if log_enabled c.log_level 3
        then (hex_dump buff (some (codes " The hexdump of packet")) packet).0
        else [])

-- `write` on the descriptor -1 is an error.
unfoldable pub write : Kernel → Option ℕ → Bytes → Option ℕ
write k (some index) packet = k.writes index packet
write k none packet = none

unfoldable pub send : Kernel → Config → Bytes → Option ℕ → Bytes → Run
unfolding write output_of
send k c buff t_socket packet = elim (write k t_socket packet) [
  | some size ↦ record {
    status = pos 0;
    written = elim t_socket [ some index ↦ (index, packet) ∷ [] | none ↦ [] ];
    output = output_of c buff packet (pos size);
  }
  | none ↦ record { status = pos 0; written = []; output = output_of c buff packet (negsuc 0) }
]

-- `readFile` fails on NULL.
unfoldable pub packet_of : System → InjectRadiotap → Option Bytes → Sent
unfolding inject
packet_of sys rt (some filepath) = inject sys rt filepath
packet_of sys rt none = exits

-- The result is `none` where `create_raw_socket` crashes.
unfoldable pub main : Kernel → System → Bytes → Config → Option Run
unfolding create_raw_socket packet_of send
main k sys buff c = do
  created ← create_raw_socket k c.ifname
  elim (packet_of sys c.rt c.filepath) [
    | exits ↦ some (record { status = negsuc 0; written = []; output = [] })
    | sends packet ↦ some (send k c buff created.fd packet)
  ]
