-- ===== src/Capture/Csi/Agree.antt =====
-- csiutil.c and JNICsi.c judge a packet alike: the one where it is captured, the other where the
-- payload that is forwarded is read.
use mathlib.Core.Option.{some-injective}
use app_loctag.Base.{
  ℕ, ◌++◌, take, ◌≡◌, ◌≤◌, length, refl, sym, Bool, true, false, not, List, [], ◌∷◌, Option, none,
  some, ◌>>=◌, >>=-eq-some, Bytes, ◌==◌, if◌then◌else◌, sub32, is_negative, wrap, ◌^◌, ◌+◌, ◌/◌,
}
use app_loctag.Memory.{read32}
use app_loctag.Nexmon.Mac.{mac_text}
use app_loctag.Memory.Laws.{read_bytes-take}
use app_loctag.Nexmon.Csi4339.{
  csi_magic, csi_header_size, net_headers_size, CsiHeader, read_header, read_elems, is_data_size,
}
use app_loctag.Jni.Csi.{CsiObject, Csi4339, only_status, filled, fill, buff_to_csi4339}
use app_loctag.Capture.Options.{Config}
use app_loctag.Capture.Event.{
  Event, broke_csi, incorrect_size, prints_csi, prints_src_mac, hex_dumps, logs, log, then_events,
}
use app_loctag.Capture.Csi.{csi_data_size, report_csi, check_csi}

-- What stands behind the line about CSI: the address at log level 2, and the dump of the packet at 3.
abbrev pub detail : Config → Bytes → ℕ → Bytes → List Event
detail c packet len src_mac =
    (if logs c 2 then prints_src_mac src_mac ∷ [] else [])
    ++ (if logs c 3 then hex_dumps (take len packet) ∷ [] else [])

-- What is printed about a packet, by the object that its payload becomes.
pub data Reports (c : Config) (packet : Bytes) (len : ℕ)
    : CsiObject → Option (List Event) → Type 0 where
  broken : Reports c packet len (only_status 1) (some (broke_csi (csi_data_size len) ∷ []))
  incorrect : Reports c packet len (only_status 2) (some (incorrect_size ∷ []))
  read :
      (f : Csi4339) (src_mac : Bytes)
      → f.src_mac ≡ mac_text src_mac
      → Reports c packet len
          (record { status = 0; fields = some f })
          (some (
            prints_csi f.seq f.core_num f.ss_num f.chanspec (csi_data_size len)
            ∷ detail c packet len src_mac))

pub report_csi-eq :
    (c : Config) (packet : Bytes) (len : ℕ) (h : CsiHeader)
    → logs c 1 ≡ true
    → read_header packet net_headers_size ≡ some h
    → len ≤ length packet
    → report_csi c packet len
      ≡ some (
          prints_csi h.seq_num h.core_num h.ss_num h.chanspec (csi_data_size len)
          ∷ detail c packet len h.src_mac)
unfolding report_csi
report_csi-eq c packet len h loud e inside =
    rw (e, loud, read_bytes-take packet len inside) (go (logs c 2) (logs c 3))
  where
    go :
        (two three : Bool)
        → then_events
            (some (prints_csi h.seq_num h.core_num h.ss_num h.chanspec (csi_data_size len) ∷ []))
            (then_events
              (log two (some (prints_src_mac h.src_mac)))
              (log three (some (hex_dumps (take len packet)))))
          ≡ some (
              prints_csi h.seq_num h.core_num h.ss_num h.chanspec (csi_data_size len)
              ∷ ((if two then prints_src_mac h.src_mac ∷ [] else [])
                  ++ (if three then hex_dumps (take len packet) ∷ [] else [])))
    go true true = refl
    go true false = refl
    go false true = refl
    go false false = refl

fill-Reports :
    (c : Config) (packet : Bytes) (len size : ℕ) {o : CsiObject}
    → logs c 1 ≡ true
    → len ≤ length packet
    → fill packet net_headers_size size ≡ some o
    → Reports c packet len o (report_csi c packet len)
unfolding fill filled
fill-Reports c packet len size loud inside h =
    let (header, e1, k1) = >>=-eq-some (read_header packet net_headers_size) _ h in
    let (csi, e2, k2) =
      >>=-eq-some (read_elems packet (net_headers_size + csi_header_size) (size / 4)) _ k1 in
    rw (sym (some-injective _ _ k2), report_csi-eq c packet len header loud e1 inside)
      (read (filled header csi) header.src_mac refl)

-- The tests of the two functions in their order.
tests-Reports :
    (c : Config) (packet : Bytes) (len : ℕ) (short : Bool) (magic : Option ℕ) (sized : Bool)
    {filled_object : Option CsiObject} {reported : Option (List Event)} {o : CsiObject}
    → ((o' : CsiObject) → filled_object ≡ some o' → Reports c packet len o' reported)
    → (if short
        then some (only_status 1)
        else magic >>= λ m.
            if not (m == csi_magic)
            then some (only_status 1)
            else if not sized
            then some (only_status 2)
            else filled_object)
      ≡ some o
    → Reports c packet len o (
        if short
        then some (broke_csi (csi_data_size len) ∷ [])
        else magic >>= λ m.
            if not (m == csi_magic)
            then some (broke_csi (csi_data_size len) ∷ [])
            else if not sized
            then some (incorrect_size ∷ [])
            else reported)
tests-Reports c packet len true magic sized k h = rw (sym (some-injective _ _ h)) broken
tests-Reports c packet len false none sized k h = cc
tests-Reports c packet len false (some m) sized {filled_object} {reported} k h =
    go (m == csi_magic) sized h
  where
    go :
        (same sized : Bool) {o : CsiObject}
        → (if not same
            then some (only_status 1)
            else if not sized
            then some (only_status 2)
            else filled_object)
          ≡ some o
        → Reports c packet len o (
            if not same
            then some (broke_csi (csi_data_size len) ∷ [])
            else if not sized
            then some (incorrect_size ∷ [])
            else reported)
    go false sized h = rw (sym (some-injective _ _ h)) broken
    go true false h = rw (sym (some-injective _ _ h)) incorrect
    go true true h = k _ h

-- If lines are logged, the packet has the bytes that its length counts and buffToCsi4339 returns
-- an object for the payload behind 42 bytes of headers, process_csi prints behind its dump what
-- fits the object: that the packet is broken for status 1, that its size is incorrect for status
-- 2, and for status 0 the line with the same sequence number, core, spatial stream and chanspec
-- and the size, then at log level 2 the same source address, and then at 3 the dump of the packet,
-- and nothing else.
pub check_csi-Reports :
    (c : Config) (packet : Bytes) (len : ℕ) (o : CsiObject)
    → logs c 1 ≡ true
    → len ≤ length packet
    → buff_to_csi4339 packet net_headers_size (sub32 len net_headers_size) ≡ some o
    → Reports c packet len o (check_csi c packet len)
unfolding check_csi csi_data_size buff_to_csi4339
check_csi-Reports c packet len o loud inside h =
    tests-Reports c packet len (is_negative (csi_data_size len)) (read32 packet net_headers_size)
      (is_data_size (csi_data_size len))
      (λ o' e. fill-Reports c packet len (wrap (2 ^ 32) (csi_data_size len)) loud inside e) h
