-- ===== src/Capture/Dot11/Agree.antt =====
-- csiutil.c and JNICsi.c read a captured frame alike: the one prints what the other puts in an object.
use app_loctag.Base.{
  ℕ, ◌≡◌, refl, sym, ap, ◌∙◌, Bool, true, false, not, ◌||◌, List, [], ◌∷◌, Option, none, some,
  ◌>>=◌, >>=-eq-some, Bytes, ◌==◌, ltb, if◌then◌else◌, get_or, ◌+◌, length, ◌≤◌, arith,
}
use mathlib.Core.Path.{subst}
use mathlib.Core.Option.{some-injective}
use app_loctag.Memory.{read_bytes, read16, read32, signed8}
use app_loctag.Memory.Laws.{read32-within}
use app_loctag.Nexmon.Mac.{mac_text}
use app_loctag.Nexmon.Dot11Rt.{
  dot11_present, nexmon_header_size, tagged_offset, Radiotap, read_radiotap, read_control,
  Dot11Header, read_dot11, read_string, ssid_length, frame_type_names, subtype_name,
}
use app_loctag.Jni.Dot11Rt.{
  by_two, Dot11Rt, Dot11Object, sprintf, read_ssid, filled, fill, buff_to_dot11_rt,
}
use app_loctag.Capture.Options.{Config}
use app_loctag.Capture.Event.{Event, broke_radiotap, prints_addresses, prints_frame, logs}
use app_loctag.Capture.Dot11.{ssid_len, addresses, frame_line, report_dot11, check_dot11}

-- What is printed about a frame, by the object that it becomes.
pub data Reports : Dot11Object → Option (List Event) → Type 0 where
  broken :
      (present : ℕ)
      → Reports (record { status = 1; fields = none }) (some (broke_radiotap present ∷ []))
  read :
      (f : Dot11Rt) (addr1 addr2 : Bytes) (data_rate : ℕ)
      → f.tx_mac ≡ mac_text addr2
      → f.rx_mac ≡ mac_text addr1
      → f.rate ≡ by_two data_rate
      → Reports
          (record { status = 0; fields = some f })
          (some (
            prints_addresses addr2 addr1 data_rate f.c_freq f.rssi f.noise
            ∷ prints_frame
                (get_or frame_type_names f.frame_type [])
                (subtype_name f.frame_type f.subtype)
                f.ssid
            ∷ []))

sprintf-eq : (text out : Bytes) → sprintf text ≡ some out → text ≡ out
unfolding sprintf
sprintf-eq text out h = ground arith

module _ (b : Bytes) (at : ℕ) where
  read_dot11-control :
      (hdr : Dot11Header) → read_dot11 b at ≡ some hdr → read_control b at ≡ some hdr.control
  unfolding read_dot11
  read_dot11-control hdr h =
      let (control, e1, k1) = >>=-eq-some (read_control b at) _ h in
      let (addr1, e2, k2) = >>=-eq-some (read_bytes b (at + 4) 6) _ k1 in
      let (addr2, e3, k3) = >>=-eq-some (read_bytes b (at + 10) 6) _ k2 in
      e1 ∙ ap (λ (d : Dot11Header). some d.control) (some-injective _ _ k3)

  -- The SSID of the object is what `%.*s` prints.
  read_ssid-string :
      (hdr : Dot11Header) (ssid : Bytes)
      → read_ssid b at hdr ≡ some ssid
      → (len : Option ℕ) × (ssid_length b at hdr.control ≡ some len)
        × (read_string b (at + (tagged_offset + 2)) (ssid_len len) ≡ some ssid)
  unfolding read_ssid
  read_ssid-string hdr ssid h =
      let (len, e, k) = >>=-eq-some (ssid_length b at hdr.control) _ h in (len, e, spelled len k)
    where
      spelled :
          (len : Option ℕ)
          → elim len [
            | some n ↦ read_string b (at + (tagged_offset + 2)) n >>= sprintf
            | none ↦ some []
          ]
            ≡ some ssid
          → read_string b (at + (tagged_offset + 2)) (ssid_len len) ≡ some ssid
      spelled none k = unfold read_string in k
      spelled (some n) k =
          let (text, e, fits) = >>=-eq-some (read_string b (at + (tagged_offset + 2)) n) _ k in
          e ∙ ap some (sprintf-eq text ssid fits)

-- What is printed of headers and an SSID that are read.
pub report_dot11-eq :
    (c : Config) (packet : Bytes) (at : ℕ) {hdr : Dot11Header} {rhdr : Radiotap} {ssid : Bytes}
    → logs c 1 ≡ true
    → read_dot11 packet at ≡ some hdr
    → read_radiotap packet 0 ≡ some rhdr
    → read_ssid packet at hdr ≡ some ssid
    → report_dot11 c packet at
      ≡ some (
          prints_addresses hdr.addr2 hdr.addr1 rhdr.data_rate rhdr.chan_freq
            (signed8 rhdr.dbm_antsignal)
            (signed8 rhdr.dbm_antnoise)
          ∷ prints_frame
              (get_or frame_type_names (hdr.control).frame_type [])
              (subtype_name (hdr.control).frame_type (hdr.control).subtype)
              ssid
          ∷ [])
unfolding report_dot11 addresses frame_line
report_dot11-eq c packet at {hdr} {rhdr} {ssid} loud e1 e2 e3 =
    let (len, e4, e5) = read_ssid-string packet at hdr ssid e3 in
    rw (loud, e1, e2, read_dot11-control packet at hdr e1, e4, e5) refl

filled-Reports :
    (c : Config) (packet : Bytes) (at : ℕ) {hdr : Dot11Header} {rhdr : Radiotap} {ssid : Bytes}
    → logs c 1 ≡ true
    → read_dot11 packet at ≡ some hdr
    → read_radiotap packet 0 ≡ some rhdr
    → read_ssid packet at hdr ≡ some ssid
    → Reports
        (record { status = 0; fields = some (filled rhdr hdr ssid) })
        (report_dot11 c packet at)
unfolding filled
filled-Reports c packet at {hdr} {rhdr} {ssid} loud e1 e2 e3 =
    rw (report_dot11-eq c packet at loud e1 e2 e3)
      (read (filled rhdr hdr ssid) hdr.addr1 hdr.addr2 rhdr.data_rate refl refl refl)

fill-Reports :
    (c : Config) (packet : Bytes) (it_len : ℕ) (o : Dot11Object)
    → logs c 1 ≡ true
    → fill packet 0 it_len ≡ some o
    → Reports o (report_dot11 c packet (0 + it_len))
unfolding fill
fill-Reports c packet it_len o loud h =
    let (hdr, e1, k1) = >>=-eq-some (read_dot11 packet (0 + it_len)) _ h in
    let (rhdr, e2, k2) = >>=-eq-some (read_radiotap packet 0) _ k1 in
    let (ssid, e3, k3) = >>=-eq-some (read_ssid packet (0 + it_len) hdr) _ k2 in
    subst (λ o'. Reports o' (report_dot11 c packet (0 + it_len))) (some-injective _ _ k3)
      (filled-Reports c packet (0 + it_len) loud e1 e2 e3)

-- If lines are logged, the packet has at least 8 bytes and buffToDot11Rt returns an object for it,
-- process_dot11rt prints behind its dump what fits the object: that the radiotap header is broken
-- for status 1, and for status 0 the lines with the same addresses, rate, frequency, signal,
-- noise, frame type and SSID.
pub check_dot11-Reports :
    (c : Config) (packet : Bytes) (len : ℕ) (o : Dot11Object)
    → logs c 1 ≡ true
    → 8 ≤ length packet
    → buff_to_dot11_rt packet 0 len ≡ some o
    → Reports o (check_dot11 c packet len)
unfolding buff_to_dot11_rt check_dot11
check_dot11-Reports c packet len o loud inside h =
    let (it_len, e1, k1) = >>=-eq-some (read16 packet 2) _ h in
    let (present, e2) = read32-within packet 4 (omega arith) in
    rw (e1, e2) (tests (ltb len nexmon_header_size) (read32 packet 4) present it_len e2 k1)
  where
    tests :
        (short : Bool) (word : Option ℕ) (present it_len : ℕ)
        → word ≡ some present
        → (if short
            then some (record { status = 1; fields = none })
            else word >>= λ p.
                if not (p == dot11_present)
                then some (record { status = 1; fields = none })
                else fill packet 0 it_len)
          ≡ some o
        → Reports o (
            if short || not (present == dot11_present)
            then some (broke_radiotap present ∷ [])
            else report_dot11 c packet it_len)
    tests true word present it_len e k = rw (sym (some-injective _ _ k)) (broken present)
    tests false word present it_len e k = same (present == dot11_present) (rw e at k)
      where
        same :
            (known : Bool)
            → (if not known
                then some (record { status = 1; fields = none })
                else fill packet 0 it_len)
              ≡ some o
            → Reports o (
                if not known
                then some (broke_radiotap present ∷ [])
                else report_dot11 c packet it_len)
        same false k = rw (sym (some-injective _ _ k)) (broken present)
        same true k =
            let at_start : 0 + it_len ≡ it_len = omega arith in
            subst (λ at. Reports o (report_dot11 c packet at)) at_start
              (fill-Reports c packet it_len o loud k)
