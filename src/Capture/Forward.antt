-- ===== src/Capture/Forward.antt =====
-- `got_packet` of Csi/csiutil.c: which bytes of a packet are forwarded.
pub mod Snapshot
use app_loctag.Base.{
  ℕ, ◌+◌, ◌≤◌, ◌<◌, ◌^◌, Bool, true, false, not, ◌||◌, List, [], ◌∷◌, Option, none, some, ◌>>=◌,
  arith, Bytes, All, All-append, ltb, ◌==◌, if◌then◌else◌, ℤ, pos, negsuc, sub32, is_negative,
}
use app_loctag.Memory.{read16, read32, read_bytes}
use app_loctag.Nexmon.Csi4339.{csi_magic, net_headers_size, read_header, is_data_size}
use app_loctag.Nexmon.Dot11Rt.{
  dot11_present, nexmon_header_size, FrameControl, read_control, ssid_length, read_radiotap,
  read_dot11, read_string, tagged_offset,
}
use app_loctag.Capture.Options.{Config, standalone, forwarding, has_mode}
use app_loctag.Capture.Event.{
  Event, dumps, broke_radiotap, prints_addresses, prints_frame, broke_csi, incorrect_size,
  prints_csi, prints_src_mac, hex_dumps, sends, logs, log, then_events,
}
use app_loctag.Capture.Csi.{dump, csi_data_size, report_csi, check_csi, process_csi}
use app_loctag.Capture.Dot11.{
  ssid_len, addresses, frame_line, report_dot11, check_dot11, process_dot11rt,
}
use app_loctag.Capture.Packet.{when, got_packet}

-- What is sent is part of the packet.
abbrev pub SendsWithin : ℕ → Event → Type 0
SendsWithin len (sends offset size) = offset + size ≤ len
SendsWithin len dumps = Unit
SendsWithin len (broke_radiotap present) = Unit
SendsWithin len (prints_addresses tx rx rate freq signal noise) = Unit
SendsWithin len (prints_frame frame_type subtype ssid) = Unit
SendsWithin len (broke_csi size) = Unit
SendsWithin len incorrect_size = Unit
SendsWithin len (prints_csi seq core ss chanspec size) = Unit
SendsWithin len (prints_src_mac mac) = Unit
SendsWithin len (hex_dumps bytes) = Unit

abbrev pub EachWithin : ℕ → Option (List Event) → Type 0
EachWithin len (some events) = All (SendsWithin len) events
EachWithin len none = Unit

abbrev EventWithin : ℕ → Option Event → Type 0
EventWithin len (some event) = SendsWithin len event
EventWithin len none = Unit

module _ (len : ℕ) where
  either :
      (test : Bool) (a b : Option (List Event))
      → EachWithin len a
      → EachWithin len b
      → EachWithin len (if test then a else b)
  either true a b ha hb = ha
  either false a b ha hb = hb

  chained {ℓ} :
      {A : Type ℓ} (m : Option A) (f : A → Option (List Event))
      → ((a : A) → EachWithin len (f a))
      → EachWithin len (m >>= f)
  chained (some a) f h = h a
  chained none f h = tt

  both :
      (first second : Option (List Event))
      → EachWithin len first
      → EachWithin len second
      → EachWithin len (then_events first second)
  both (some xs) (some ys) hx hy = All-append (SendsWithin len) xs ys hx hy
  both (some xs) none hx hy = tt
  both none second hx hy = tt

  logged :
      (loud : Bool) (event : Option Event) → EventWithin len event → EachWithin len (log loud event)
  logged true (some e) h = (h, tt)
  logged true none h = tt
  logged false event h = tt

  event_chained {ℓ} :
      {A : Type ℓ} (m : Option A) (f : A → Option Event)
      → ((a : A) → EventWithin len (f a))
      → EventWithin len (m >>= f)
  event_chained (some a) f h = h a
  event_chained none f h = tt

  -- A part whose events are used further on.
  collected :
      (part : Option (List Event)) (f : List Event → Option (List Event))
      → EachWithin len part
      → ((xs : List Event) → All (SendsWithin len) xs → EachWithin len (f xs))
      → EachWithin len (part >>= f)
  collected (some xs) f hp h = h xs hp
  collected none f hp h = tt

  on_mode :
      (test : Bool) (events : Option (List Event))
      → EachWithin len events
      → EachWithin len (when test events)
  on_mode true events h = h
  on_mode false events h = tt

  dump-EachWithin : (output_file : Bool) → EachWithin len (some (dump output_file))
  dump-EachWithin true = (tt, tt)
  dump-EachWithin false = tt

module _ (len : ℕ) (c : Config) (packet : Bytes) (n : ℕ) where
  report_csi-EachWithin : EachWithin len (report_csi c packet n)
  unfolding report_csi
  report_csi-EachWithin =
      let h = read_header packet net_headers_size in
      both len _ _ (logged len (logs c 1) _ (event_chained len h _ λ a. tt)) (
        both len _ _ (logged len (logs c 2) _ (event_chained len h _ λ a. tt))
          (logged len (logs c 3) _ (event_chained len (read_bytes packet 0 n) _ λ a. tt)))

  check_csi-EachWithin : EachWithin len (check_csi c packet n)
  unfolding check_csi
  check_csi-EachWithin =
      either len (is_negative (csi_data_size n)) _ _ (tt, tt)
        (chained len (read32 packet net_headers_size) _ λ magic.
          either len (not (magic == csi_magic)) _ _ (tt, tt)
            (either len (not (is_data_size (csi_data_size n))) _ _ (tt, tt) report_csi-EachWithin))

  process_csi-EachWithin :
      (output_file : Bool) → EachWithin len (process_csi c output_file packet n)
  unfolding process_csi
  process_csi-EachWithin output_file =
      both len (some (dump output_file)) _ (dump-EachWithin len output_file) check_csi-EachWithin

  addresses-EventWithin : (it_len : ℕ) → EventWithin len (addresses packet it_len)
  unfolding addresses
  addresses-EventWithin it_len =
      event_chained len (read_dot11 packet it_len) _
        λ hdr. event_chained len (read_radiotap packet 0) _ λ rhdr. tt

  frame_line-EventWithin :
      (it_len : ℕ) (control : FrameControl) (size : Option ℕ)
      → EventWithin len (frame_line packet it_len control size)
  unfolding frame_line
  frame_line-EventWithin it_len control size =
      event_chained len (read_string packet (it_len + (tagged_offset + 2)) (ssid_len size)) _
        λ ssid. tt

  report_dot11-EachWithin : (it_len : ℕ) → EachWithin len (report_dot11 c packet it_len)
  unfolding report_dot11
  report_dot11-EachWithin it_len =
      collected len (log (logs c 1) (addresses packet it_len)) _
        (logged len (logs c 1) _ (addresses-EventWithin it_len))
        λ first within. chained len (read_control packet it_len) _ λ control.
          chained len (ssid_length packet it_len control) _ λ size.
            collected len (log (logs c 1) (frame_line packet it_len control size)) _
              (logged len (logs c 1) _ (frame_line-EventWithin it_len control size))
              λ second within'. All-append (SendsWithin len) first second within within'

  check_dot11-EachWithin : EachWithin len (check_dot11 c packet n)
  unfolding check_dot11
  check_dot11-EachWithin = chained len (read16 packet 2) _ λ it_len.
      chained len (read32 packet 4) _ λ present.
        either len (ltb n nexmon_header_size || not (present == dot11_present)) _ _ (tt, tt)
          (report_dot11-EachWithin it_len)

  process_dot11rt-EachWithin :
      (output_file : Bool) → EachWithin len (process_dot11rt c output_file packet n)
  unfolding process_dot11rt
  process_dot11rt-EachWithin output_file =
      both len (some (dump output_file)) _ (dump-EachWithin len output_file) check_dot11-EachWithin

-- For a packet of at least 42 bytes, whatever its type and the mode, got_packet forwards only
-- bytes of the packet.
pub got_packet-EachWithin :
    (c : Config) (output_file : Bool) (packet : Bytes) (len : ℕ)
    → 42 ≤ len
    → len < 2 ^ 32
    → EachWithin len (got_packet c output_file packet len)
unfolding got_packet
got_packet-EachWithin c output_file packet len headers small = go c.pkt_type
  where
    whole : EachWithin len (when (has_mode c forwarding) (some (sends 0 len ∷ [])))
    whole = on_mode len (has_mode c forwarding) _ (omega arith, tt)

    payload : EachWithin len (
        when
          (has_mode c forwarding)
          (some (sends net_headers_size (sub32 len net_headers_size) ∷ [])))
    payload = on_mode len (has_mode c forwarding) _ (omega arith, tt)

    go :
        (pkt_type : ℤ)
        → EachWithin len (elim pkt_type [
          | pos n ↦
              if n == 0
              then when (has_mode c forwarding) (some (sends 0 len ∷ []))
              else if n == 1
              then then_events
                  (when (has_mode c standalone) (process_dot11rt c output_file packet len))
                  (when (has_mode c forwarding) (some (sends 0 len ∷ [])))
              else if n == 2
              then then_events
                  (when (has_mode c standalone) (process_csi c output_file packet len))
                  (when
                    (has_mode c forwarding)
                    (some (sends net_headers_size (sub32 len net_headers_size) ∷ [])))
              else some []
          | negsuc n ↦ some []
        ])
    go (pos n) = either len (n == 0) _ _ whole (
        either len (n == 1) _ _
          (both len _ _
            (on_mode len (has_mode c standalone) _
              (process_dot11rt-EachWithin len c packet len output_file))
            whole)
          (either len (n == 2) _ _
            (both len _ _
              (on_mode len (has_mode c standalone) _
                (process_csi-EachWithin len c packet len output_file))
              payload)
            tt))
    go (negsuc n) = tt
