-- ===== src/Nexmon/Dot11Rt/Laws.antt =====
-- What is read of a frame: of any, what stands in front shifts the offsets; of one that the firmware
-- hands over, the fields of its structs.
use app_loctag.Base.{
  ℕ, zero, suc, ◌+◌, ◌*◌, ◌/◌, ◌%◌, ◌<◌, ◌≡◌, refl, ap, ◌∙◌, arith, [], ◌∷◌, ◌++◌, some, Bytes,
  length, ◌==◌, Bool-cases, inl, inr,
}
use native.Mathlib.Nat.{add_assoc}
use mathlib.Core.Path.{ap₂}
use app_loctag.Memory.{read8, read16, read_bytes}
use app_loctag.Memory.Laws.{read8-append, read16-append, read_bytes-append}
use app_loctag.McUtils.HexDump.{c_string}
use app_loctag.Nexmon.Dot11Rt.{
  read_radiotap, FrameControl, read_control, read_dot11, read_string, tag_length, ssid_length,
}
use app_loctag.Nexmon.Dot11Rt.Sent.{
  NexmonHeader, header_bytes, radiotap_of, Ieee80211Hdr, hdr_bytes, dot11_of,
}

module _ (front back : Bytes) where
  pub read_radiotap-append :
      (i : ℕ) → read_radiotap (front ++ back) (length front + i) ≡ read_radiotap back i
  unfolding read_radiotap
  read_radiotap-append i =
      rw
        (
          add_assoc (length front) i 17,
          add_assoc (length front) i 18,
          add_assoc (length front) i 22,
          add_assoc (length front) i 23,
          read8-append front back (i + 17),
          read16-append front back (i + 18),
          read8-append front back (i + 22),
          read8-append front back (i + 23),
        )
        refl

  pub read_dot11-append :
      (i : ℕ) → read_dot11 (front ++ back) (length front + i) ≡ read_dot11 back i
  unfolding read_dot11 read_control
  read_dot11-append i =
      rw
        (
          add_assoc (length front) i 4,
          add_assoc (length front) i 10,
          read8-append front back i,
          read_bytes-append front back (i + 4) 6,
          read_bytes-append front back (i + 10) 6,
        )
        refl

  pub read_string-append :
      (i n : ℕ) → read_string (front ++ back) (length front + i) n ≡ read_string back i n
  unfolding read_string
  read_string-append i zero = refl
  read_string-append i (suc n) =
      rw (add_assoc (length front) i 1, read8-append front back i, read_string-append (i + 1) n)
        refl

  pub tag_length-append :
      (i : ℕ) → tag_length (front ++ back) (length front + i) ≡ tag_length back i
  unfolding tag_length
  tag_length-append i =
      rw (add_assoc (length front) i 1, read8-append front back i, read8-append front back (i + 1))
        refl

  pub ssid_length-append :
      (i : ℕ) (control : FrameControl)
      → ssid_length (front ++ back) (length front + i) control ≡ ssid_length back i control
  unfolding ssid_length
  ssid_length-append i control = rw (add_assoc (length front) i 36, tag_length-append (i + 36)) refl

pub read_radiotap-header_bytes :
    (h : NexmonHeader) (it_len : ℕ) (back : Bytes)
    → read_radiotap (header_bytes h it_len ++ back) 0 ≡ some (radiotap_of h)
unfolding read_radiotap read16 read8
read_radiotap-header_bytes h it_len back =
    ap (λ (freq : ℕ). some (record (radiotap_of h) { chan_freq = freq })) (omega arith)

pub read_dot11-hdr_bytes :
    (d : Ieee80211Hdr) (back : Bytes)
    → d.ve < 4
    → (d.control).frame_type < 4
    → (d.control).subtype < 16
    → read_dot11 (hdr_bytes d ++ back) 0 ≡ some (dot11_of d)
unfolding read_dot11 read_control read8 read_bytes
read_dot11-hdr_bytes d back h1 h2 h3 =
    let byte = d.ve + (d.control).frame_type * 4 + (d.control).subtype * 16 in
    let frame_type : byte / 4 % 4 ≡ (d.control).frame_type = omega arith in
    let subtype : byte / 16 % 16 ≡ (d.control).subtype = omega arith in
    ap₂
      (λ (t s : ℕ). some (record (dot11_of d) { control = record { frame_type = t; subtype = s } }))
      frame_type subtype

-- A string up to its first NUL.
pub read_string-c_string :
    (text back : Bytes) → read_string (text ++ back) 0 (length text) ≡ some (c_string text)
unfolding read_string c_string read8
read_string-c_string [] back = refl
read_string-c_string (c ∷ text) back =
    let rest : read_string (c ∷ (text ++ back)) 1 (length text) ≡ some (c_string text) =
      read_string-append (c ∷ []) (text ++ back) 0 (length text) ∙ read_string-c_string text back in
    elim (Bool-cases (c == 0)) [ inl stop ↦ rw stop refl | inr more ↦ rw (more, rest) refl ]
