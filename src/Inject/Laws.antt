-- ===== src/Inject/Laws.antt =====
-- What Csi/injectutil.c writes to the socket.
use app_loctag.Base.{
  ◌∷◌, ℕ, ◌+◌, ◌*◌, ◌/◌, ◌%◌, ◌^◌, ◌≤◌, ◌<◌, ◌≡◌, refl, sym, ap, Bool, true, false, [], ◌++◌,
  Option, none, some, arith, Bytes, length, drop, pos, negsuc, is_negative, if◌then◌else◌,
}
use app_loctag.Memory.{read16, read32}
use app_loctag.McUtils.{o_rdonly, System, Outcome, read_file}
use app_loctag.Inject.Radiotap.{InjectRadiotap, radiotap_size, rt_bytes}
use app_loctag.Inject.Program.{Sent, exits, sends, inject, max_frame_size}

-- `read` puts at most as many bytes into the buffer as it is told to.
abbrev pub ReadsWithin : System → Type 0
ReadsWithin sys =
    (path bytes : Bytes) (max : ℕ) → sys.reads path max ≡ some bytes → length bytes ≤ max

-- The header's own length is in it, and the numbers fit 32 bits.
pub record IsRadiotap (rt : InjectRadiotap) : Type 0 where
  pub sized : rt.it_len ≡ radiotap_size
  pub delay : rt.txdelay < 2 ^ 32
  pub number : rt.txrepetitions_num < 2 ^ 32
  pub period : rt.txrepetitions_period < 2 ^ 32
  pub rate : rt.ratespec < 2 ^ 32

-- A packet that is the header of `rt` and the file's bytes.
pub record Framed (sys : System) (rt : InjectRadiotap) (path packet : Bytes) : Type 0 where
  pub frame : Bytes
  pub from_file : sys.reads path 4060 ≡ some frame
  pub bounded : length packet ≤ max_frame_size
  pub header_length : read16 packet 2 ≡ some 36
  pub behind : drop 36 packet ≡ frame
  pub delay : read32 packet 20 ≡ some rt.txdelay
  pub number : read32 packet 24 ≡ some rt.txrepetitions_num
  pub period : read32 packet 28 ≡ some rt.txrepetitions_period
  pub rate : read32 packet 32 ≡ some rt.ratespec

word_lem :
    (v : ℕ)
    → v < 2 ^ 32
    → v % 256 + v / 256 % 256 * 256 + (v / 65536 % 256 + v / 16777216 % 256 * 256) * 65536 ≡ v
word_lem v h = omega arith

packet-Framed :
    (sys : System) (rt : InjectRadiotap) (path frame : Bytes)
    → ReadsWithin sys
    → IsRadiotap rt
    → sys.reads path 4060 ≡ some frame
    → Framed sys rt path (rt_bytes rt ++ frame)
unfolding rt_bytes read32 read16
packet-Framed sys rt path frame within ok e = record {
  frame = frame;
  from_file = e;
  bounded = omega (arith, within path frame 4060 e);
  header_length = ap some (omega (arith, ok.sized));
  behind = refl;
  delay = ap some (word_lem rt.txdelay ok.delay);
  number = ap some (word_lem rt.txrepetitions_num ok.number);
  period = ap some (word_lem rt.txrepetitions_period ok.period);
  rate = ap some (word_lem rt.ratespec ok.rate);
}

abbrev sent_bytes : Sent → Bytes
sent_bytes (sends bytes) = bytes
sent_bytes exits = []

-- The file can be opened and read, where a packet is made of it.
pub reads_frame :
    (sys : System) (rt : InjectRadiotap) (path packet : Bytes)
    → inject sys rt path ≡ sends packet
    → (frame : Bytes) × (sys.reads path 4060 ≡ some frame)
      × (rt_bytes rt ++ frame ≡ packet)
      × (sys.opens (o_rdonly ∷ []) path ≡ true)
unfolding inject read_file
reads_frame sys rt path packet h =
    go (sys.opens (o_rdonly ∷ []) path) (sys.reads path 4060) refl refl h
  where
    go :
        (opens : Bool) (result : Option Bytes)
        → sys.opens (o_rdonly ∷ []) path ≡ opens
        → sys.reads path 4060 ≡ result
        → (let o : Outcome =
              if opens
              then elim result [
                | some bytes ↦ record { code = pos (length bytes); buf = bytes; fds = 0 }
                | none ↦ record { code = negsuc 1; buf = []; fds = 1 }
              ]
              else record { code = negsuc 0; buf = []; fds = 0 } in
            if is_negative o.code then exits else sends (rt_bytes rt ++ o.buf))
          ≡ sends packet
        → (frame : Bytes) × (sys.reads path 4060 ≡ some frame)
          × (rt_bytes rt ++ frame ≡ packet)
          × (sys.opens (o_rdonly ∷ []) path ≡ true)
    go true (some bytes) o e h = (bytes, e, ap sent_bytes h, o)
    go true none o e h = cc
    go false result o e h = cc

-- Where read puts no more bytes into the buffer than it is told to, and the header holds its own
-- length and numbers of 32 bits, what is sent is this header followed by the bytes of the file, at
-- most 4096 bytes.
pub inject-Framed :
    (sys : System) (rt : InjectRadiotap) (path packet : Bytes)
    → ReadsWithin sys
    → IsRadiotap rt
    → inject sys rt path ≡ sends packet
    → Framed sys rt path packet
inject-Framed sys rt path packet within ok h =
    let (frame, e, same, opened) = reads_frame sys rt path packet h in
    rw (sym same) (packet-Framed sys rt path frame within ok e)
