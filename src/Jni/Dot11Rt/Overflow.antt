-- ===== src/Jni/Dot11Rt/Overflow.antt =====
-- The one way in which `buffToDot11Rt` leaves its memory, for an array that has the bytes it reads.
use app_loctag.Base.{
  ℕ, ◌+◌, ◌≤◌, ◌≡◌, ◌⊎◌, inl, inr, refl, Bool, true, false, not, [], Option, none, some, arith,
  Bytes, All, IsByte, length, ltb, ◌==◌, if◌then◌else◌, Bool-cases,
}
use app_loctag.Memory.{read16, read32}
use app_loctag.Memory.Laws.{read32-within}
use app_loctag.Nexmon.Dot11Rt.{
  dot11_present, nexmon_header_size, Radiotap, read_radiotap, Dot11Header, read_dot11, read_string,
  ssid_length,
}
use app_loctag.Jni.Dot11Rt.{
  Dot11Object, broke_radiotap, buf_size, read_ssid, filled, fill, buff_to_dot11_rt,
}
use app_loctag.Jni.Dot11Rt.Laws.{
  Overflows, read_string-within, read_radiotap-within, ssid_length-within, ssid_length-IsByte,
  read_dot11-within,
}

module _ (b : Bytes) (at : ℕ) (hdr : Dot11Header) where
  read_ssid-tag :
      {n : ℕ} {text : Bytes}
      → ssid_length b at hdr.control ≡ some (some n)
      → read_string b (at + 38) n ≡ some text
      → read_ssid b at hdr ≡ (if ltb (length text) buf_size then some text else none)
  unfolding read_ssid
  read_ssid-tag h k = rw (h, k) refl

  read_ssid-none : ssid_length b at hdr.control ≡ some none → read_ssid b at hdr ≡ some []
  unfolding read_ssid
  read_ssid-none h = rw h refl

  -- The SSID is found, or it overflows the buffer.
  read_ssid-cases :
      All IsByte b
      → at + 293 ≤ length b
      → read_dot11 b at ≡ some hdr
      → ((text : Bytes) × (read_ssid b at hdr ≡ some text))
        ⊎ ((read_ssid b at hdr ≡ none) × Overflows b at)
  read_ssid-cases bytes inside read =
      let (len, e) = ssid_length-within b at hdr.control (omega arith) in go len e
    where
      long : {n : ℕ} → ssid_length b at hdr.control ≡ some (some n) → at + 38 + n ≤ length b
      long {n} e = omega (arith, ssid_length-IsByte b at n hdr.control bytes e)

      go :
          (len : Option ℕ)
          → ssid_length b at hdr.control ≡ some len
          → ((text : Bytes) × (read_ssid b at hdr ≡ some text))
            ⊎ ((read_ssid b at hdr ≡ none) × Overflows b at)
      go none e = inl ([], read_ssid-none e)
      go (some n) e =
          let (text, spelled, short) = read_string-within b (at + 38) n (long e) in
          let result = read_ssid-tag e spelled in
          elim (Bool-cases (ltb (length text) buf_size)) [
            | inl fits ↦ inl (text, rw (result, fits) refl)
            | inr over ↦ inr (
              rw (result, over) refl,
              record {
                hdr = hdr;
                read = read;
                n = n;
                tagged = e;
                text = text;
                spelled = spelled;
                long = ground arith;
              },
            )
          ]

module _ (b : Bytes) (i_offset it_len : ℕ) {hdr : Dot11Header} {rhdr : Radiotap} where
  pub fill-some :
      {text : Bytes}
      → read_dot11 b (i_offset + it_len) ≡ some hdr
      → read_radiotap b i_offset ≡ some rhdr
      → read_ssid b (i_offset + it_len) hdr ≡ some text
      → fill b i_offset it_len ≡ some (record { status = 0; fields = some (filled rhdr hdr text) })
  unfolding fill
  fill-some h1 h2 h3 = rw (h1, h2, h3) refl

  fill-none :
      read_dot11 b (i_offset + it_len) ≡ some hdr
      → read_radiotap b i_offset ≡ some rhdr
      → read_ssid b (i_offset + it_len) hdr ≡ none
      → fill b i_offset it_len ≡ none
  unfolding fill
  fill-none h1 h2 h3 = rw (h1, h2, h3) refl

pub dot11-eq :
    (b : Bytes) (i_offset i_length : ℕ) {it_len it_present : ℕ}
    → read16 b (i_offset + 2) ≡ some it_len
    → read32 b (i_offset + 4) ≡ some it_present
    → buff_to_dot11_rt b i_offset i_length ≡ (
        if ltb i_length nexmon_header_size
        then some broke_radiotap
        else if not (it_present == dot11_present)
        then some broke_radiotap
        else fill b i_offset it_len)
unfolding buff_to_dot11_rt
dot11-eq b i_offset i_length h1 h2 = rw (h1, h2) refl

abbrev Ends : Bytes → ℕ → Option Dot11Object → Type 0
Ends b at result = ((o : Dot11Object) × (result ≡ some o)) ⊎ ((result ≡ none) × Overflows b at)

-- For an array of bytes that has 40 bytes from iOffset and 293 bytes behind the radiotap header,
-- buffToDot11Rt returns an object, or the frame is a beacon whose SSID, up to a NUL, has at least
-- 64 bytes, and sprintf then writes past its buffer.
pub buff_to_dot11_rt-cases :
    (b : Bytes) (i_offset i_length it_len : ℕ)
    → All IsByte b
    → read16 b (i_offset + 2) ≡ some it_len
    → i_offset + 40 ≤ length b
    → i_offset + it_len + 293 ≤ length b
    → ((o : Dot11Object) × (buff_to_dot11_rt b i_offset i_length ≡ some o))
      ⊎ ((buff_to_dot11_rt b i_offset i_length ≡ none) × Overflows b (i_offset + it_len))
buff_to_dot11_rt-cases b i_offset i_length it_len bytes e inside room =
    let (present, e') = read32-within b (i_offset + 4) (omega arith) in
    let (hdr, h1) = read_dot11-within b (i_offset + it_len) (omega arith) in
    let (rhdr, h2) = read_radiotap-within b i_offset inside in
    let filled_ends : Ends b (i_offset + it_len) (fill b i_offset it_len) =
      elim (read_ssid-cases b (i_offset + it_len) hdr bytes room h1) [
        | inl (text, h3) ↦ inl (_, fill-some b i_offset it_len h1 h2 h3)
        | inr (h3, over) ↦ inr (fill-none b i_offset it_len h1 h2 h3, over)
      ] in
    rw (dot11-eq b i_offset i_length e e')
      (chosen (ltb i_length nexmon_header_size) (not (present == dot11_present)) filled_ends)
  where
    chosen :
        (t u : Bool)
        → Ends b (i_offset + it_len) (fill b i_offset it_len)
        → Ends b (i_offset + it_len) (
            if t
            then some broke_radiotap
            else if u
            then some broke_radiotap
            else fill b i_offset it_len)
    chosen true u h = inl (_, refl)
    chosen false true h = inl (_, refl)
    chosen false false h = h
