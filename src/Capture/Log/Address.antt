-- ===== src/Capture/Log/Address.antt =====
-- The line of Csi/csiutil.c about a frame's addresses is read back as the values that it is printed from.
use app_loctag.Base.{
  ℕ, ◌≡◌, ◌<◌, ◌^◌, refl, ◌∷◌, ◌++◌, append_assoc, Option, some, ◌>>=◌, Bytes, codes, ℤ,
}
use app_loctag.Memory.{signed8}
use app_loctag.Libc.Scan.{strtoul}
use app_loctag.Libc.Decimal.{decimal, signed_decimal}
use app_loctag.Nexmon.Mac.{mac_text}
use app_loctag.Nexmon.Dot11Rt.Sent.{Mac, mac_bytes}
use app_loctag.Capture.Log.{halves_text, address_line}
use app_loctag.Capture.Log.Reader.{expect}
use app_loctag.Capture.Log.Parts.{
  IsMac, read_mac, read_int, read_halves, read_mac-mac_text, read_halves-halves_text, freq_space,
  signal_slash, noise_space,
}

pub record AddressLine : Type 0 where
  pub addr2 : Bytes
  pub addr1 : Bytes
  pub data_rate : ℕ
  pub chan_freq : ℕ
  pub signal : ℤ
  pub noise : ℤ

-- A reader of the line, by the form of its parts alone.
pub read_address_line : Bytes → Option (AddressLine × Bytes)
read_address_line s = do
  s ← expect (codes " ") s
  (addr2, s) ← read_mac s
  s ← expect (codes "->") s
  (addr1, s) ← read_mac s
  s ← expect (codes " rate=") s
  (data_rate, s) ← read_halves s
  s ← expect (codes " chan=") s
  (chan_freq, s) ← some (strtoul 10 s)
  s ← expect (codes " dbm=") s
  (signal, s) ← some (read_int s)
  s ← expect (codes "/") s
  (noise, s) ← some (read_int s)
  s ← expect (codes " ") s
  some (
    record {
      addr2 = addr2;
      addr1 = addr1;
      data_rate = data_rate;
      chan_freq = chan_freq;
      signal = signal;
      noise = noise;
    },
    s,
  )

-- The line with a text behind it.
line_before :
    (addr2 addr1 : Bytes) (data_rate chan_freq : ℕ) (signal noise : ℤ) (rest : Bytes) → Bytes
line_before addr2 addr1 data_rate chan_freq signal noise rest =
    codes " "
    ++ (mac_text addr2
        ++ (codes "->"
            ++ (mac_text addr1
                ++ (codes " rate="
                    ++ (halves_text data_rate
                        ++ (codes " chan="
                            ++ (decimal chan_freq
                                ++ (codes " dbm="
                                    ++ (signed_decimal signal
                                        ++ (codes "/"
                                            ++ (signed_decimal noise ++ (b' ' ∷ rest))))))))))))

address_line-append :
    (addr2 addr1 : Bytes) (data_rate chan_freq : ℕ) (signal noise : ℤ) (rest : Bytes)
    → address_line addr2 addr1 data_rate chan_freq signal noise ++ rest
      ≡ line_before addr2 addr1 data_rate chan_freq signal noise rest
unfolding address_line line_before
address_line-append addr2 addr1 data_rate chan_freq signal noise rest = simp (append_assoc {A = ℕ})

-- The values of a line are octets, and the frequency has 16 bits; `signal` and `noise` are given as their
-- octets.
pub read_address_line-address_line :
    (mac2 mac1 : Mac) (data_rate chan_freq signal noise : ℕ) (rest : Bytes)
    → IsMac mac2
    → IsMac mac1
    → data_rate < 256
    → chan_freq < 2 ^ 16
    → signal < 256
    → noise < 256
    → read_address_line (
        address_line
          (mac_bytes mac2)
          (mac_bytes mac1)
          data_rate
          chan_freq
          (signed8 signal)
          (signed8 noise)
        ++ rest)
      ≡ some (
        record {
          addr2 = mac_bytes mac2;
          addr1 = mac_bytes mac1;
          data_rate = data_rate;
          chan_freq = chan_freq;
          signal = signed8 signal;
          noise = signed8 noise;
        },
        rest,
      )
unfolding read_address_line line_before
read_address_line-address_line mac2 mac1 data_rate chan_freq signal noise rest m2 m1 h1 h2 h3 h4 =
    rw
      (
        address_line-append (mac_bytes mac2) (mac_bytes mac1) data_rate chan_freq (signed8 signal)
            (signed8 noise) rest,
        read_mac-mac_text mac2 _ m2,
        read_mac-mac_text mac1 _ m1,
        read_halves-halves_text data_rate _ h1,
        freq_space chan_freq _ h2,
        signal_slash signal _ h3,
        noise_space noise _ h4,
      )
      refl
