-- ===== src/Capture/Log/Reader.antt =====
-- The line of Csi/csiutil.c about CSI is read back as the values that it is printed from.
use app_loctag.Base.{
  ℕ, ◌≡◌, ◌<◌, ◌^◌, refl, arith, [], ◌∷◌, ◌++◌, append_assoc, Option, none, some, ◌>>=◌, Bytes,
  codes, ◌==◌, if◌then◌else◌, pos,
}
use app_loctag.Libc.Scan.{strtoul, digit_value}
use app_loctag.Libc.Decimal.{decimal, signed_decimal}
use app_loctag.Libc.Decimal.Reread.{strtoul-decimal, strtoul-decimal_padded}
use app_loctag.Libc.Format.{hex_padded, zero_padded}
use app_loctag.Libc.Format.Hex.{strtoul-hex_padded}
use app_loctag.Capture.Log.{csi_line}

-- A text behind a text that it begins with.
abbrev pub expect : Bytes → Bytes → Option Bytes
expect [] s = some s
expect (c ∷ prefix) [] = none
expect (c ∷ prefix) (d ∷ s) = if c == d then expect prefix s else none

pub record CsiLine : Type 0 where
  pub seq : ℕ
  pub core : ℕ
  pub ss : ℕ
  pub chanspec : ℕ
  pub size : ℕ

-- A reader of the line about CSI, by the form of its numbers alone.
abbrev pub read_csi_line : Bytes → Option (CsiLine × Bytes)
read_csi_line s = do
  s ← expect (codes "> seq=") s
  (seq, s) ← some (strtoul 10 s)
  s ← expect (codes " core=") s
  (core, s) ← some (strtoul 10 s)
  s ← expect (codes " ss=") s
  (ss, s) ← some (strtoul 10 s)
  s ← expect (codes " chanspec=") s
  (chanspec, s) ← some (strtoul 0 s)
  s ← expect (codes " size=") s
  (size, s) ← some (strtoul 10 s)
  s ← expect (10 ∷ []) s
  some (record { seq = seq; core = core; ss = ss; chanspec = chanspec; size = size }, s)

-- The line with a text behind it.
line_before : (seq core ss chanspec size : ℕ) (rest : Bytes) → Bytes
line_before seq core ss chanspec size rest =
    codes "> seq="
    ++ (zero_padded 5 (decimal seq)
        ++ (codes " core="
            ++ (decimal core
                ++ (codes " ss="
                    ++ (decimal ss
                        ++ (codes " chanspec="
                            ++ b'0'
                              ∷ b'x'
                              ∷ (hex_padded 4 chanspec
                                  ++ (codes " size=" ++ (decimal size ++ 10 ∷ rest)))))))))

signed_decimal-pos : (n : ℕ) → signed_decimal (pos n) ≡ decimal n
unfolding signed_decimal
signed_decimal-pos n = refl

csi_line-append :
    (seq core ss chanspec size : ℕ) (rest : Bytes)
    → csi_line seq core ss chanspec (pos size) ++ rest ≡ line_before seq core ss chanspec size rest
unfolding csi_line line_before
csi_line-append seq core ss chanspec size rest = simp (signed_decimal-pos, append_assoc {A = ℕ})

-- Behind a number there is a space, or the end of the line.
module _ (n : ℕ) (h : n < 2 ^ 32) (s : Bytes) where
  decimal_space : strtoul 10 (decimal n ++ b' ' ∷ s) ≡ (n, b' ' ∷ s)
  unfolding digit_value
  decimal_space = strtoul-decimal n (b' ' ∷ s) h (omega arith)

  padded_space : strtoul 10 (zero_padded 5 (decimal n) ++ b' ' ∷ s) ≡ (n, b' ' ∷ s)
  unfolding digit_value
  padded_space = strtoul-decimal_padded 5 n (b' ' ∷ s) h (omega arith)

  hex_space : strtoul 0 (b'0' ∷ b'x' ∷ (hex_padded 4 n ++ b' ' ∷ s)) ≡ (n, b' ' ∷ s)
  unfolding digit_value
  hex_space = strtoul-hex_padded 4 n (b' ' ∷ s) h (omega arith)

  decimal_end : strtoul 10 (decimal n ++ 10 ∷ s) ≡ (n, 10 ∷ s)
  unfolding digit_value
  decimal_end = strtoul-decimal n (10 ∷ s) h (omega arith)

-- The numbers of a line fit 32 bits.
pub read_csi_line-csi_line :
    (seq core ss chanspec size : ℕ) (rest : Bytes)
    → seq < 2 ^ 32
    → core < 2 ^ 32
    → ss < 2 ^ 32
    → chanspec < 2 ^ 32
    → size < 2 ^ 32
    → read_csi_line (csi_line seq core ss chanspec (pos size) ++ rest)
      ≡ some (record { seq = seq; core = core; ss = ss; chanspec = chanspec; size = size }, rest)
unfolding line_before
read_csi_line-csi_line seq core ss chanspec size rest h1 h2 h3 h4 h5 =
    rw
      (
        csi_line-append seq core ss chanspec size rest,
        padded_space seq h1,
        decimal_space core h2,
        decimal_space ss h3,
        hex_space chanspec h4,
        decimal_end size h5,
      )
      refl
