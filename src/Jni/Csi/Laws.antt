-- ===== src/Jni/Csi/Laws.antt =====
-- What `buffToCsi4339` returns: for a packet that the firmware sends, and for any array that has the
-- bytes it is told to have.
use native.Mathlib.Nat.{mod-eq_of_lt}
use app_loctag.Base.{
  ℕ, ◌+◌, ◌-◌, ◌*◌, ◌/◌, ◌^◌, ◌≤◌, ◌<◌, ◌≡◌, ◌⊎◌, inl, inr, refl, ap, ◌∙◌, Bool, true, false, not,
  List, ◌++◌, map, Option, some, arith, Bytes, length, ℤ, pos, signed32, sub32, is_negative, ◌==◌,
  if◌then◌else◌, ltb, Bool-cases,
}
use app_loctag.Memory.{read32}
use app_loctag.Nexmon.Mac.{mac_text}
use app_loctag.Memory.Laws.{read32-append, read32-within}
use app_loctag.Nexmon.Csi4339.{
  CsiHeader, csi_magic, csi_header_size, read_header, read_elems, is_data_size,
}
use app_loctag.Nexmon.Csi4339.Laws.{
  Sent, IsSent, sent_bytes, mac_of, elems_bytes, signed_elem, read_header-append,
  read_header-sent_bytes, read_elems-append, read_elems-elems_bytes, read_header-within,
  read_elems-within,
}
use app_loctag.Jni.Csi.{CsiObject, only_status, filled, fill, buff_to_csi4339}

pub size_lem :
    (len size : ℕ)
    → 18 + size ≡ len
    → len < 2 ^ 31
    → signed32 (sub32 len csi_header_size) ≡ pos size
size_lem len size total h =
    let same : sub32 len csi_header_size ≡ size = omega arith in
    rw same (rw (small size (omega arith)) refl)
  where
    small : (n : ℕ) → n < 2 ^ 31 → ltb n (2 ^ 31) ≡ true
    small n h = ground arith

-- A length that is too short for the header is negative.
short_lem : (len : ℕ) → len < 18 → is_negative (signed32 (sub32 len csi_header_size)) ≡ true
short_lem len h =
    let large : 2 ^ 31 ≤ sub32 len csi_header_size = omega arith in
    go (sub32 len csi_header_size) large
  where
    go : (w : ℕ) → 2 ^ 31 ≤ w → is_negative (signed32 w) ≡ true
    go w h = ground arith

buff_short :
    (b : Bytes) (at len : ℕ)
    → is_negative (signed32 (sub32 len csi_header_size)) ≡ true
    → buff_to_csi4339 b at len ≡ some (only_status 1)
unfolding buff_to_csi4339
buff_short b at len h = rw h refl

-- The tests that an answer depends on.
pub buff_long :
    (b : Bytes) (at len size : ℕ) {magic : ℕ}
    → signed32 (sub32 len csi_header_size) ≡ pos size
    → read32 b at ≡ some magic
    → size < 2 ^ 32
    → buff_to_csi4339 b at len ≡ (
        if not (magic == csi_magic)
        then some (only_status 1)
        else if not (is_data_size (pos size))
        then some (only_status 2)
        else fill b at size)
unfolding buff_to_csi4339
buff_long b at len size h1 h2 h4 = rw (h1, h2, mod-eq_of_lt h4) refl

buff_accepts :
    (b : Bytes) (at len size : ℕ)
    → signed32 (sub32 len csi_header_size) ≡ pos size
    → read32 b at ≡ some csi_magic
    → is_data_size (pos size) ≡ true
    → size < 2 ^ 32
    → buff_to_csi4339 b at len ≡ fill b at size
buff_accepts b at len size h1 h2 h3 h4 = rw (buff_long b at len size h1 h2 h4, h3) refl

fill-some :
    (b : Bytes) (at size : ℕ) {h : CsiHeader} {csi : List (ℤ × ℤ)}
    → read_header b at ≡ some h
    → read_elems b (at + csi_header_size) (size / 4) ≡ some csi
    → fill b at size ≡ some (record { status = 0; fields = some (filled h csi) })
unfolding fill
fill-some b at size h1 h2 = rw (h1, h2) refl

-- A whole number of elements for a channel of 20, 40 or 80 MHz.
abbrev pub IsCsiCount : ℕ → Type 0
IsCsiCount n = (n ≡ 64) ⊎ ((n ≡ 128) ⊎ (n ≡ 256))

pub count-IsDataSize : (n : ℕ) → IsCsiCount n → is_data_size (pos (n * 4)) ≡ true
unfolding is_data_size
count-IsDataSize n h = ground arith

pub magic_read : (p : Sent) (back : Bytes) → read32 (sent_bytes p ++ back) 0 ≡ some csi_magic
unfolding read32
magic_read p back = refl

-- The object that shows a packet.
abbrev pub csi_object : Sent → List (ℕ × ℕ) → CsiObject
csi_object p elems = record {
  status = 0;
  fields = some (record {
    src_mac = mac_text (mac_of p);
    seq = p.seq_num;
    core_num = p.core_num;
    ss_num = p.ss_num;
    chanspec = p.chanspec;
    chip_ver = p.chip_ver;
    csi = map signed_elem elems;
  });
}

module _ (p : Sent) (elems : List (ℕ × ℕ)) (front back : Bytes) where
  abbrev array : Bytes
  array = front ++ (sent_bytes p ++ (elems_bytes elems ++ back))

  elems_read : read_elems array (length front + 18) (length elems) ≡ some (map signed_elem elems)
  elems_read =
      read_elems-append front (sent_bytes p ++ (elems_bytes elems ++ back)) 18 (length elems)
      ∙ read_elems-append (sent_bytes p) (elems_bytes elems ++ back) 0 (length elems)
      ∙ read_elems-elems_bytes elems back

  -- A packet with a header whose bit fields fit and with 64, 128 or 256 elements is read back by
  -- buffToCsi4339 with status 0, its fields and its elements as signed numbers, wherever it stands
  -- in the array.
  pub buff_to_csi4339-sent :
      IsSent p
      → IsCsiCount (length elems)
      → buff_to_csi4339 array (length front) (18 + length elems * 4) ≡ some (csi_object p elems)
  unfolding filled
  buff_to_csi4339-sent sent count =
      let n = length elems in
      let few : n < 257 = ground arith in
      let quarter : n * 4 / 4 ≡ n = omega arith in
      let rest = sent_bytes p ++ (elems_bytes elems ++ back) in
      let at : length front ≡ length front + 0 = omega arith in
      buff_accepts array (length front) (18 + n * 4) (n * 4)
        (size_lem (18 + n * 4) (n * 4) refl (omega arith))
        (ap (read32 array) at
          ∙ read32-append front rest 0
          ∙ magic_read p (elems_bytes elems ++ back))
        (count-IsDataSize n count) (omega arith)
      ∙ fill-some array (length front) (n * 4)
          (ap (read_header array) at
            ∙ read_header-append front rest 0
            ∙ read_header-sent_bytes p (elems_bytes elems ++ back) sent)
          (rw quarter elems_read)

-- For any array.
module _ (b : Bytes) (at : ℕ) where
  pub fill-within :
      (size : ℕ) → at + 18 + size / 4 * 4 ≤ length b → (o : CsiObject) × (fill b at size ≡ some o)
  fill-within size h =
      let (header, e1) = read_header-within b at (omega arith) in
      let (csi, e2, long) = read_elems-within b (at + 18) (size / 4) h in
      (_, fill-some b at size e1 e2)

  -- buffToCsi4339 reads no byte outside of an array that has the bytes from iOffset that iLength
  -- counts, for an iLength that is not negative.
  pub buff_to_csi4339-total :
      (len : ℕ)
      → len < 2 ^ 31
      → at + len ≤ length b
      → (o : CsiObject) × (buff_to_csi4339 b at len ≡ some o)
  buff_to_csi4339-total len small inside = elim (Bool-cases (ltb len 18)) [
    | inl short ↦ (_, buff_short b at len (short_lem len (ground arith)))
    | inr long ↦
        let enough : 18 ≤ len = ground arith in
        let size = len - 18 in
        let (magic, e) = read32-within b at (omega arith) in
        let whole : size / 4 * 4 ≤ size = omega arith in
        let signed : signed32 (sub32 len csi_header_size) ≡ pos size =
          size_lem len size (omega arith) small in
        let (o, filled) = fill-within size (omega arith) in
        let (o', answer) =
          chosen (not (magic == csi_magic)) (not (is_data_size (pos size))) filled in
        (o', buff_long b at len size signed e (omega arith) ∙ answer)
  ]
    where
      chosen :
          (t u : Bool) {f : Option CsiObject} {o : CsiObject}
          → f ≡ some o
          → (o' : CsiObject) × ((if t
                then some (only_status 1)
                else if u
                then some (only_status 2)
                else f)
              ≡ some o')
      chosen true u e = (_, refl)
      chosen false true e = (_, refl)
      chosen false false e = (_, e)
