-- ===== src/Jni/Dot11Rt/Laws.antt =====
-- Where `buffToDot11Rt` reads and writes: what an array with enough bytes still allows.
use app_loctag.Base.{
  ℕ, zero, suc, ◌+◌, ◌/◌, ◌%◌, ◌≤◌, ◌<◌, ◌≡◌, inl, inr, refl, Bool, true, false, ◌&&◌, [], ◌∷◌,
  Option, none, some, ◌>>=◌, arith, Bytes, length, All, IsByte, >>=-eq-some, ◌==◌, if◌then◌else◌,
  Bool-cases,
}
use app_loctag.Memory.{read8, read16}
use app_loctag.Memory.Laws.{read8-within, read16-within, read_bytes-within, read8-IsByte}
use app_loctag.Nexmon.Dot11Rt.{
  tagged_offset, Radiotap, read_radiotap, FrameControl, read_control, Dot11Header, read_dot11,
  read_string, tag_length, ssid_length,
}

module _ (b : Bytes) where
  pub read_string-within :
      (at n : ℕ)
      → at + n ≤ length b
      → (text : Bytes) × (read_string b at n ≡ some text) × (length text ≤ n)
  unfolding read_string
  read_string-within at zero h = ([], refl, omega arith)
  read_string-within at (suc n) h =
      let (first, e) = read8-within b at (omega arith) in
      let (rest, r, short) = read_string-within (at + 1) n (omega arith) in
      elim (Bool-cases (first == 0)) [
        | inl stop ↦ ([], rw (e, stop) refl, omega arith)
        | inr more ↦ (first ∷ rest, rw (e, more, r) refl, omega (arith, short))
      ]

  pub read_radiotap-within :
      (at : ℕ) → at + 40 ≤ length b → (r : Radiotap) × (read_radiotap b at ≡ some r)
  read_radiotap-within at h =
      let (rate, e1) = read8-within b (at + 17) (omega arith) in
      let (freq, e2) = read16-within b (at + 18) (omega arith) in
      let (signal, e3) = read8-within b (at + 22) (omega arith) in
      let (noise, e4) = read8-within b (at + 23) (omega arith) in
      (
        record { data_rate = rate; chan_freq = freq; dbm_antsignal = signal; dbm_antnoise = noise },
        go e1 e2 e3 e4,
      )
    where
      go :
          {rate freq signal noise : ℕ}
          → read8 b (at + 17) ≡ some rate
          → read16 b (at + 18) ≡ some freq
          → read8 b (at + 22) ≡ some signal
          → read8 b (at + 23) ≡ some noise
          → read_radiotap b at
            ≡ some (record {
              data_rate = rate;
              chan_freq = freq;
              dbm_antsignal = signal;
              dbm_antnoise = noise;
            })
      go e1 e2 e3 e4 = unfold read_radiotap in rw (e1, e2, e3, e4) refl

  tag_length-within : (at : ℕ) → at + 2 ≤ length b → (len : Option ℕ) × (tag_length b at ≡ some len)
  unfolding tag_length
  tag_length-within at h =
      let (num, e1) = read8-within b at (omega arith) in
      let (len, e2) = read8-within b (at + 1) (omega arith) in
      elim (Bool-cases (num == 0)) [
        | inl zero_ ↦ (some len, rw (e1, zero_, e2) refl)
        | inr other ↦ (none, rw (e1, other) refl)
      ]

  pub ssid_length-within :
      (at : ℕ) (control : FrameControl)
      → at + 38 ≤ length b
      → (len : Option ℕ) × (ssid_length b at control ≡ some len)
  unfolding ssid_length
  ssid_length-within at control h =
      elim (Bool-cases (control.frame_type == 0 && control.subtype == 8)) [
        | inl beacon ↦
            let (len, e) = tag_length-within (at + 36) (omega arith) in (len, rw beacon e)
        | inr other ↦ (none, rw other refl)
      ]

  tag_length-IsByte : (at n : ℕ) → All IsByte b → tag_length b at ≡ some (some n) → n < 256
  unfolding tag_length
  tag_length-IsByte at n bytes h =
      let (num, e, chosen) = >>=-eq-some (read8 b at) _ h in
      go (num == 0) (read8 b (at + 1)) (λ v e'. read8-IsByte b (at + 1) v bytes e') chosen
    where
      go :
          (zero_ : Bool) (len : Option ℕ)
          → ((v : ℕ) → len ≡ some v → IsByte v)
          → (if zero_ then len >>= (λ v. some (some v)) else some none) ≡ some (some n)
          → n < 256
      go true (some v) small e = omega (arith, small v refl, inner e)
        where
          inner : {v : ℕ} → some (some v) ≡ some (some n) → v ≡ n
          inner e = cc
      go true none small e = cc
      go false len small e = cc

  pub ssid_length-IsByte :
      (at n : ℕ) (control : FrameControl)
      → All IsByte b
      → ssid_length b at control ≡ some (some n)
      → n < 256
  unfolding ssid_length
  ssid_length-IsByte at n control bytes h = go (control.frame_type == 0 && control.subtype == 8) h
    where
      go :
          (beacon : Bool)
          → (if beacon then tag_length b (at + tagged_offset) else some none) ≡ some (some n)
          → n < 256
      go true e = tag_length-IsByte (at + tagged_offset) n bytes e
      go false e = cc

  pub read_dot11-within :
      (at : ℕ) → at + 16 ≤ length b → (hdr : Dot11Header) × (read_dot11 b at ≡ some hdr)
  read_dot11-within at h =
      let (control, e1) = read8-within b at (omega arith) in
      let (addr1, e2) = read_bytes-within b (at + 4) 6 (omega arith) in
      let (addr2, e3) = read_bytes-within b (at + 10) 6 (omega arith) in
      (
        record {
          control = record { frame_type = control / 4 % 4; subtype = control / 16 % 16 };
          addr1 = addr1;
          addr2 = addr2;
        },
        unfold read_dot11 read_control in rw (e1, e2, e3) refl,
      )

  -- A beacon whose SSID, up to a NUL, does not fit the buffer with its own NUL.
  pub record Overflows (at : ℕ) : Type 0 where
    pub hdr : Dot11Header
    pub read : read_dot11 b at ≡ some hdr
    pub n : ℕ
    pub tagged : ssid_length b at hdr.control ≡ some (some n)
    pub text : Bytes
    pub spelled : read_string b (at + 38) n ≡ some text
    pub long : 64 ≤ length text
