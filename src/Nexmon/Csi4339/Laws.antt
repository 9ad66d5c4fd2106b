-- ===== src/Nexmon/Csi4339/Laws.antt =====
-- The packet that the firmware sends, as bytes, and what the reads of its struct find in it.
use native.Mathlib.Nat.{add_assoc}
use app_loctag.Base.{
  ℕ, zero, suc, ◌+◌, ◌*◌, ◌/◌, ◌%◌, ◌≤◌, ◌<◌, ◌≡◌, refl, ap, ◌∙◌, List, [], ◌∷◌, ◌++◌, map, some,
  arith, Bytes, length, ℤ,
}
use app_loctag.Memory.{read16, read_bytes, signed16}
use app_loctag.Memory.Laws.{
  le16, read16-append, read16-le16, read_bytes-append, read16-within, read_bytes-within,
}
use app_loctag.Nexmon.Csi4339.{CsiHeader, read_header, read_elem, read_elems}

-- Elements as the two words that they are sent as.
abbrev pub elems_bytes : List (ℕ × ℕ) → Bytes
elems_bytes [] = []
elems_bytes ((real, imag) ∷ elems) = le16 real ++ (le16 imag ++ elems_bytes elems)

abbrev pub signed_elem : ℕ × ℕ → ℤ × ℤ
signed_elem (real, imag) = (signed16 real, signed16 imag)

read_elem-append :
    (front back : Bytes) (i : ℕ) → read_elem (front ++ back) (length front + i) ≡ read_elem back i
unfolding read_elem
read_elem-append front back i =
    rw (add_assoc (length front) i 2, read16-append front back i, read16-append front back (i + 2))
      refl

pub read_elems-append :
    (front back : Bytes) (i n : ℕ)
    → read_elems (front ++ back) (length front + i) n ≡ read_elems back i n
unfolding read_elems
read_elems-append front back i zero = refl
read_elems-append front back i (suc n) =
    rw
      (
        add_assoc (length front) i 4,
        read_elem-append front back i,
        read_elems-append front back (i + 4) n,
      )
      refl

read_elem-words :
    (b : Bytes) (at : ℕ) {real imag : ℕ}
    → read16 b at ≡ some real
    → read16 b (at + 2) ≡ some imag
    → read_elem b at ≡ some (signed16 real, signed16 imag)
unfolding read_elem
read_elem-words b at h k = rw (h, k) refl

read_elem-elems_bytes :
    (real imag : ℕ) (back : Bytes)
    → read_elem (le16 real ++ (le16 imag ++ back)) 0 ≡ some (signed16 real, signed16 imag)
read_elem-elems_bytes real imag back =
    read_elem-words (le16 real ++ (le16 imag ++ back)) 0 (read16-le16 real (le16 imag ++ back))
      (read16-append (le16 real) (le16 imag ++ back) 0 ∙ read16-le16 imag back)

read_elems-suc :
    (b : Bytes) (n : ℕ) {elem : ℤ × ℤ} {rest : List (ℤ × ℤ)}
    → read_elem b 0 ≡ some elem
    → read_elems b 4 n ≡ some rest
    → read_elems b 0 (suc n) ≡ some (elem ∷ rest)
unfolding read_elems
read_elems-suc b n h k = rw (h, k) refl

read_elems-nil : (b : Bytes) → read_elems b 0 0 ≡ some []
unfolding read_elems
read_elems-nil b = refl

pub read_elems-elems_bytes :
    (elems : List (ℕ × ℕ)) (back : Bytes)
    → read_elems (elems_bytes elems ++ back) 0 (length elems) ≡ some (map signed_elem elems)
read_elems-elems_bytes [] back = read_elems-nil back
read_elems-elems_bytes ((real, imag) ∷ elems) back =
    let rest = elems_bytes elems ++ back in
    let behind = read_elems-append (le16 real ++ le16 imag) rest 0 (length elems) in
    read_elems-suc (le16 real ++ (le16 imag ++ rest)) (length elems)
      (read_elem-elems_bytes real imag rest) (rw behind (read_elems-elems_bytes elems back))

pub length-elems_bytes : (elems : List (ℕ × ℕ)) → length (elems_bytes elems) ≡ length elems * 4
length-elems_bytes [] = refl
length-elems_bytes ((real, imag) ∷ elems) = omega (arith, length-elems_bytes elems)

-- The header as it is sent; `pad` is the byte in front of the bit fields and `top` the two bits
-- behind them.
pub record Sent : Type 0 where
  pub mac : ℕ × ℕ × ℕ × ℕ × ℕ × ℕ
  pub seq_num : ℕ
  pub pad : ℕ
  pub core_num : ℕ
  pub ss_num : ℕ
  pub top : ℕ
  pub chanspec : ℕ
  pub chip_ver : ℕ

pub record IsSent (p : Sent) : Type 0 where
  pub pad_byte : p.pad < 256
  pub core_bits : p.core_num < 8
  pub ss_bits : p.ss_num < 8

abbrev pub mac_of : Sent → Bytes
mac_of p = let (a, b, c, d, e, f) = p.mac in a ∷ b ∷ c ∷ d ∷ e ∷ f ∷ []

abbrev pub sent_bytes : Sent → Bytes
sent_bytes p =
    0x11
    ∷ 0x11
    ∷ 0x11
    ∷ 0x11
    ∷ (mac_of p
        ++ (le16 p.seq_num
            ++ (p.pad
                ∷ (p.core_num + p.ss_num * 8 + p.top * 64)
                ∷ (le16 p.chanspec ++ le16 p.chip_ver))))

abbrev pub header_of : Sent → CsiHeader
header_of p = record {
  src_mac = mac_of p;
  seq_num = p.seq_num;
  core_num = p.core_num;
  ss_num = p.ss_num;
  chanspec = p.chanspec;
  chip_ver = p.chip_ver;
}

pub read_header-append :
    (front back : Bytes) (i : ℕ)
    → read_header (front ++ back) (length front + i) ≡ read_header back i
unfolding read_header
read_header-append front back i =
    rw
      (
        add_assoc (length front) i 4,
        add_assoc (length front) i 10,
        add_assoc (length front) i 12,
        add_assoc (length front) i 14,
        add_assoc (length front) i 16,
        read_bytes-append front back (i + 4) 6,
        read16-append front back (i + 10),
        read16-append front back (i + 12),
        read16-append front back (i + 14),
        read16-append front back (i + 16),
      )
      refl

read_header-some :
    (b : Bytes) (at : ℕ) {src_mac : Bytes} {seq_num bits chanspec chip_ver : ℕ}
    → read_bytes b (at + 4) 6 ≡ some src_mac
    → read16 b (at + 10) ≡ some seq_num
    → read16 b (at + 12) ≡ some bits
    → read16 b (at + 14) ≡ some chanspec
    → read16 b (at + 16) ≡ some chip_ver
    → read_header b at
      ≡ some (record {
        src_mac = src_mac;
        seq_num = seq_num;
        core_num = bits / 256 % 8;
        ss_num = bits / 2048 % 8;
        chanspec = chanspec;
        chip_ver = chip_ver;
      })
unfolding read_header
read_header-some b at h1 h2 h3 h4 h5 = rw (h1, h2, h3, h4, h5) refl

abbrev bits_of : Sent → ℕ
bits_of p = p.pad + (p.core_num + p.ss_num * 8 + p.top * 64) * 256

module _ (p : Sent) (back : Bytes) where
  mac_read : read_bytes (sent_bytes p ++ back) 4 6 ≡ some (mac_of p)
  unfolding read_bytes
  mac_read = refl

  words_read :
      (read16 (sent_bytes p ++ back) 10 ≡ some p.seq_num)
      × (read16 (sent_bytes p ++ back) 12 ≡ some (bits_of p))
      × (read16 (sent_bytes p ++ back) 14 ≡ some p.chanspec)
      × (read16 (sent_bytes p ++ back) 16 ≡ some p.chip_ver)
  unfolding read16
  words_read = (ap some (omega arith), refl, ap some (omega arith), ap some (omega arith))

  pub read_header-sent_bytes : IsSent p → read_header (sent_bytes p ++ back) 0 ≡ some (header_of p)
  read_header-sent_bytes h =
      let core : bits_of p / 256 % 8 ≡ p.core_num = omega (arith, h.pad_byte, h.core_bits) in
      let ss : bits_of p / 2048 % 8 ≡ p.ss_num =
        omega (arith, h.pad_byte, h.core_bits, h.ss_bits) in
      let (seq, bits, chanspec, chip) = words_read in
      read_header-some (sent_bytes p ++ back) 0 mac_read seq bits chanspec chip ∙ rw (core, ss) refl

-- Reads that stay within the memory.
module _ (b : Bytes) where
  pub read_header-within :
      (at : ℕ) → at + 18 ≤ length b → (h : CsiHeader) × (read_header b at ≡ some h)
  read_header-within at h =
      let (mac, e1) = read_bytes-within b (at + 4) 6 (omega arith) in
      let (seq, e2) = read16-within b (at + 10) (omega arith) in
      let (bits, e3) = read16-within b (at + 12) (omega arith) in
      let (chanspec, e4) = read16-within b (at + 14) (omega arith) in
      let (chip, e5) = read16-within b (at + 16) (omega arith) in
      (_, read_header-some b at e1 e2 e3 e4 e5)

  read_elem-within : (at : ℕ) → at + 4 ≤ length b → (elem : ℤ × ℤ) × (read_elem b at ≡ some elem)
  read_elem-within at h =
      let (real, e1) = read16-within b at (omega arith) in
      let (imag, e2) = read16-within b (at + 2) (omega arith) in (_, read_elem-words b at e1 e2)

  pub read_elems-within :
      (at n : ℕ)
      → at + n * 4 ≤ length b
      → (elems : List (ℤ × ℤ)) × (read_elems b at n ≡ some elems) × (length elems ≡ n)
  unfolding read_elems
  read_elems-within at zero h = ([], refl, refl)
  read_elems-within at (suc n) h =
      let (elem, e1) = read_elem-within at (omega arith) in
      let (rest, e2, long) = read_elems-within (at + 4) n (omega arith) in
      (elem ∷ rest, rw (e1, e2) refl, ap suc long)
