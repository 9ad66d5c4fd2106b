-- ===== src/Capture/Delivery/Laws.antt =====
-- What csiutil.c forwards of a packet with CSI, and what JNICsi.c reads of it.
use app_loctag.Base.{
  ℕ, ◌+◌, ◌*◌, ◌≡◌, ◌≤◌, ◌<◌, refl, sym, ap, ◌∙◌, arith, Bool, true, false, some, Option, List, [],
  ◌∷◌, ◌++◌, Bytes, take, drop, length, length-append, take-all, drop-append, ℤ, pos, negsuc, sub32,
  signed32, if◌then◌else◌, ◌==◌,
}
use mathlib.Core.Path.{subst}
use app_loctag.Memory.{read32}
use app_loctag.Memory.Laws.{read32-append, read_bytes-within}
use app_loctag.Nexmon.Csi4339.{CsiHeader, read_header, csi_magic, is_data_size}
use app_loctag.Nexmon.Csi4339.Laws.{
  elems_bytes, header_of, read_header-append, read_header-sent_bytes, length-elems_bytes,
}
use app_loctag.Jni.Csi.{buff_to_csi4339}
use app_loctag.Jni.Csi.Laws.{size_lem, count-IsDataSize, magic_read, buff_to_csi4339-sent}
use app_loctag.Capture.Options.{Config, standalone, forwarding, has_mode}
use app_loctag.Capture.Event.{
  Event, sends, dumps, prints_csi, prints_src_mac, hex_dumps, logs, log, then_events,
}
use app_loctag.Capture.Csi.{dump, csi_data_size, report_csi, check_csi, process_csi}
use app_loctag.Capture.Packet.{when, got_packet}
use app_loctag.Capture.Delivery.{Frame, IsFrame, payload, arrival, object, spans}

spans-append : (xs ys : List Event) → spans (xs ++ ys) ≡ spans xs ++ spans ys
spans-append [] ys = refl
spans-append (sends offset len ∷ xs) ys =
    ap (λ (r : List (ℕ × ℕ)). (offset, len) ∷ r) (spans-append xs ys)
spans-append (_ ∷ xs) ys = spans-append xs ys

-- A result whose events forward what is listed.
abbrev pub SpansOf : List (ℕ × ℕ) → Option (List Event) → Type 0
SpansOf out result = (events : List Event) × (result ≡ some events) × (spans events ≡ out)

pub then-SpansOf :
    {out1 out2 : List (ℕ × ℕ)} {first second : Option (List Event)}
    → SpansOf out1 first
    → SpansOf out2 second
    → SpansOf (out1 ++ out2) (then_events first second)
then-SpansOf (xs, e1, s1) (ys, e2, s2) =
    (xs ++ ys, rw (e1, e2) refl, spans-append xs ys ∙ rw (s1, s2) refl)

log-SpansOf :
    (loud : Bool) {r : Option Event} (e : Event)
    → r ≡ some e
    → spans (e ∷ []) ≡ []
    → SpansOf [] (log loud r)
log-SpansOf true e h quiet = (e ∷ [], rw h refl, quiet)
log-SpansOf false e h quiet = ([], refl, refl)

report_csi-SpansOf :
    (c : Config) (packet : Bytes) (len : ℕ) {h : CsiHeader}
    → read_header packet 42 ≡ some h
    → len ≤ length packet
    → SpansOf [] (report_csi c packet len)
unfolding report_csi
report_csi-SpansOf c packet len {h} e inside =
    let (bytes, r) = read_bytes-within packet 0 len (omega arith) in
    then-SpansOf
      (log-SpansOf (logs c 1)
        (prints_csi h.seq_num h.core_num h.ss_num h.chanspec (csi_data_size len)) (rw e refl) refl)
      (then-SpansOf (log-SpansOf (logs c 2) (prints_src_mac h.src_mac) (rw e refl) refl)
        (log-SpansOf (logs c 3) (hex_dumps bytes) (rw r refl) refl))

dump-SpansOf : (output_file : Bool) → SpansOf [] (some (dump output_file))
dump-SpansOf true = (dumps ∷ [], refl, refl)
dump-SpansOf false = ([], refl, refl)

when-SpansOf :
    (on : Bool) {result : Option (List Event)} → SpansOf [] result → SpansOf [] (when on result)
when-SpansOf true forwards = forwards
when-SpansOf false forwards = ([], refl, refl)

pub check_csi-accepts :
    (c : Config) (packet : Bytes) (len size : ℕ)
    → csi_data_size len ≡ pos size
    → read32 packet 42 ≡ some csi_magic
    → is_data_size (pos size) ≡ true
    → check_csi c packet len ≡ report_csi c packet len
unfolding check_csi
check_csi-accepts c packet len size h1 h2 h3 = rw (h1, h2, h3) refl

for_type :
    (t : ℤ) (whole dot11 csi : Option (List Event))
    → t ≡ pos 2
    → elim t [
      | pos n ↦ if n == 0 then whole else if n == 1 then dot11 else if n == 2 then csi else some []
      | negsuc n ↦ some []
    ]
      ≡ csi
for_type t whole dot11 csi e = rw e refl

got_packet-csi :
    (c : Config) (output_file : Bool) (packet : Bytes) (len : ℕ)
    → c.pkt_type ≡ pos 2
    → has_mode c forwarding ≡ true
    → got_packet c output_file packet len
      ≡ then_events
          (when (has_mode c standalone) (process_csi c output_file packet len))
          (some (sends 42 (sub32 len 42) ∷ []))
unfolding got_packet
got_packet-csi c output_file packet len csi on =
    for_type c.pkt_type _ _ _ csi
    ∙ ap
        (λ (b : Bool).
          then_events (when (has_mode c standalone) (process_csi c output_file packet len))
            (when b (some (sends 42 (sub32 len 42) ∷ []))))
        on

-- The part of a packet that is forwarded.
abbrev pub span : Frame → ℕ × ℕ
span f = (42, 18 + length f.elems * 4)

module _ (f : Frame) (ok : IsFrame f) where
  few : length f.elems < 257
  few = ground (arith, ok.count)

  start : 42 ≡ length f.net_headers + 0
  start = omega (arith, ok.headers)

  pub data_size : csi_data_size (arrival f).1 ≡ pos (length f.elems * 4)
  unfolding csi_data_size
  data_size =
      let inner : sub32 (60 + length f.elems * 4) 42 ≡ 18 + length f.elems * 4 =
        omega (arith, few) in
      ap (λ n. signed32 (sub32 n 18)) inner
      ∙ size_lem (18 + length f.elems * 4) (length f.elems * 4) refl (omega (arith, few))

  pub header : read_header (arrival f).0 42 ≡ some (header_of f.sent)
  header =
      ap (read_header (arrival f).0) start
      ∙ read_header-append f.net_headers (payload f) 0
      ∙ read_header-sent_bytes f.sent (elems_bytes f.elems ++ []) ok.fields

  pub magic : read32 (arrival f).0 42 ≡ some csi_magic
  magic =
      ap (read32 (arrival f).0) start
      ∙ read32-append f.net_headers (payload f) 0
      ∙ magic_read f.sent (elems_bytes f.elems ++ [])

  pub length-payload : length (payload f) ≡ 18 + length f.elems * 4
  length-payload = omega (arith, length-append (elems_bytes f.elems) [], length-elems_bytes f.elems)

  -- The packet is captured whole.
  pub whole : (arrival f).1 ≤ length (arrival f).0
  whole = omega (arith, length-append f.net_headers (payload f), ok.headers, length-payload)

  -- What is cut out of the packet is its payload.
  pub payload_cut : take (18 + length f.elems * 4) (drop 42 (arrival f).0) ≡ payload f
  payload_cut =
      let behind : drop 42 (arrival f).0 ≡ payload f =
        subst (λ n. drop n (arrival f).0 ≡ payload f) ok.headers
          (drop-append f.net_headers (payload f)) in
      ap (take (18 + length f.elems * 4)) behind
      ∙ take-all (18 + length f.elems * 4) (payload f) (omega (arith, length-payload))

  pub payload_read : buff_to_csi4339 (payload f) 0 (length (payload f)) ≡ some (object f)
  payload_read =
      subst (λ n. buff_to_csi4339 (payload f) 0 n ≡ some (object f)) (sym length-payload)
        (buff_to_csi4339-sent f.sent f.elems [] [] ok.fields ok.count)

module _ (c : Config) (f : Frame) (ok : IsFrame f) where
  process_csi-SpansOf :
      (output_file : Bool) → SpansOf [] (process_csi c output_file (arrival f).0 (arrival f).1)
  unfolding process_csi
  process_csi-SpansOf output_file =
      let accepts =
        check_csi-accepts c (arrival f).0 (arrival f).1 _ (data_size f ok) (magic f ok)
          (count-IsDataSize (length f.elems) ok.count) in
      then-SpansOf (dump-SpansOf output_file) (
        subst (SpansOf []) (sym accepts)
          (report_csi-SpansOf c (arrival f).0 (arrival f).1 (header f ok) (whole f ok)))

  pub got_packet-SpansOf :
      (output_file : Bool)
      → c.pkt_type ≡ pos 2
      → has_mode c forwarding ≡ true
      → SpansOf (span f ∷ []) (got_packet c output_file (arrival f).0 (arrival f).1)
  got_packet-SpansOf output_file csi on =
      let inner : sub32 (60 + length f.elems * 4) 42 ≡ 18 + length f.elems * 4 =
        omega (arith, few f ok) in
      subst (SpansOf (span f ∷ []))
        (sym (got_packet-csi c output_file (arrival f).0 (arrival f).1 csi on))
        (then-SpansOf (when-SpansOf (has_mode c standalone) (process_csi-SpansOf output_file))
          (_, refl, ap (λ (n : ℕ). (42, n) ∷ []) inner))
