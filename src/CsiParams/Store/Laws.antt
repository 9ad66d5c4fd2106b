-- ===== src/CsiParams/Store/Laws.antt =====
-- Words in memory, counted bits, and copies into memory.
use native.Mathlib.Nat.{pow-suc, zero-add, suc-add}
use app_loctag.Base.{
  ℕ, zero, suc, ◌+◌, ◌/◌, ◌%◌, ◌^◌, ◌≤◌, ◌<◌, ◌≡◌, refl, ap, [], ◌∷◌, ◌++◌, arith, Bytes, IsByte,
  All, All-append, u16, length, length-append, take, bit_and_mask,
}
use app_loctag.CsiParams.Store.{
  st16le, load16, count_loop, countbit, CsiParams, field16, bytes_of, write_at,
}

-- A word that is stored little-endian is loaded again, cut to 16 bits; stored big-endian it is
-- loaded with its bytes swapped.
pub load16-st16le : (value : ℕ) → load16 (st16le value) ≡ u16 value
unfolding load16 st16le
load16-st16le value = omega (arith, bit_and_mask 8 value, bit_and_mask 8 (value / 256))

count_add : (fuel val counter : ℕ) → count_loop fuel val counter ≡ counter + count_loop fuel val 0
unfolding count_loop
count_add zero val counter = omega arith
count_add (suc fuel) val counter = ground (
  arith,
  count_add fuel (val / 2) (counter + 1),
  count_add fuel (val / 2) counter,
  count_add fuel (val / 2) 1,
)

count_none : (fuel : ℕ) → count_loop fuel 0 0 ≡ 0
unfolding count_loop
count_none zero = refl
count_none (suc fuel) = refl

-- A round more than there are bits changes nothing.
count_more : (fuel val : ℕ) → val < 2 ^ fuel → count_loop (suc fuel) val 0 ≡ count_loop fuel val 0
unfolding count_loop
count_more zero val h = ground arith
count_more (suc fuel) val h = ground (
  arith,
  count_more fuel (val / 2) (omega (arith, pow-suc 2 fuel)),
  count_add (suc fuel) (val / 2) 1,
  count_add fuel (val / 2) 1,
)

first_round : (fuel val : ℕ) → count_loop (suc fuel) val 0 ≡ val % 2 + count_loop fuel (val / 2) 0
unfolding count_loop
first_round fuel val =
    ground (arith, bit_and_mask 1 val, count_add fuel (val / 2) 1, count_none fuel)

count_step :
    (fuel val : ℕ)
    → val < 2 ^ suc fuel
    → count_loop (suc fuel) val 0 ≡ val % 2 + count_loop (suc fuel) (val / 2) 0
count_step fuel val h =
    let fits : val / 2 < 2 ^ fuel = omega (arith, pow-suc 2 fuel) in
    rw (count_more fuel (val / 2) fits) (first_round fuel val)

-- The loop has ended by its test when 32 rounds are made: the count is that of the lowest bit and
-- of the bits above it.
pub countbit_lem : (val : ℕ) → val < 2 ^ 32 → countbit val ≡ val % 2 + countbit (val / 2)
unfolding countbit
countbit_lem val h = count_step 31 val h

field16-IsByte : (v : ℕ) → All IsByte (field16 v)
unfolding field16
field16-IsByte v = (omega (arith, bit_and_mask 8 v), (omega (arith, bit_and_mask 8 (v / 256)), tt))

pub length-write_at :
    (memory : Bytes) (offset : ℕ) (bytes : Bytes)
    → length (write_at memory offset bytes) ≡ length memory
unfolding write_at
length-write_at memory zero [] = refl
length-write_at [] zero (b ∷ bytes) = refl
length-write_at (m ∷ memory) zero (b ∷ bytes) = ap suc (length-write_at memory zero bytes)
length-write_at [] (suc offset) bytes = refl
length-write_at (m ∷ memory) (suc offset) bytes = ap suc (length-write_at memory offset bytes)

write_at-suc :
    (m : ℕ) (memory : Bytes) (offset : ℕ) (bytes : Bytes)
    → write_at (m ∷ memory) (suc offset) bytes ≡ m ∷ write_at memory offset bytes
unfolding write_at
write_at-suc m memory offset bytes = refl

take-write_zero :
    (memory bytes : Bytes)
    → length bytes ≤ length memory
    → take (length bytes) (write_at memory 0 bytes) ≡ bytes
unfolding write_at
take-write_zero memory [] h = refl
take-write_zero [] (b ∷ bytes) h = absurd (omega arith)
take-write_zero (m ∷ memory) (b ∷ bytes) h =
    ap (λ (t : Bytes). b ∷ t) (take-write_zero memory bytes (omega arith))

-- What is before the copy stays, and the copy follows it.
pub take-write_at :
    (memory : Bytes) (offset : ℕ) (bytes : Bytes)
    → offset + length bytes ≤ length memory
    → take (offset + length bytes) (write_at memory offset bytes) ≡ take offset memory ++ bytes
take-write_at memory zero bytes h =
    rw (zero-add (length bytes)) (take-write_zero memory bytes (omega arith))
take-write_at [] (suc offset) bytes h = absurd (omega arith)
take-write_at (m ∷ memory) (suc offset) bytes h =
    rw (suc-add offset (length bytes), write_at-suc m memory offset bytes)
      (ap (λ (t : Bytes). m ∷ t) (take-write_at memory offset bytes (omega arith)))

-- The struct is 34 bytes.
pub length-bytes_of : (p : CsiParams) → length p.src_macs ≡ 24 → length (bytes_of p) ≡ 34
unfolding bytes_of
length-bytes_of p h = omega (arith, length-append p.src_macs (field16 p.delay))

pub record HasBytes (p : CsiParams) : Type 0 where
  pub collect_byte : p.csi_collect < 256
  pub mask_byte : p.core_nss_mask < 256
  pub filter_byte : p.use_pkt_filter < 256
  pub first_byte : p.first_pkt_byte < 256
  pub macs_bytes : All IsByte p.src_macs

bytes_of-eq :
    (p : CsiParams)
    → bytes_of p
      ≡ field16 p.chanspec
        ++ (p.csi_collect
            ∷ p.core_nss_mask
            ∷ p.use_pkt_filter
            ∷ p.first_pkt_byte
            ∷ (field16 p.n_mac_addr ++ (p.src_macs ++ field16 p.delay)))
unfolding bytes_of
bytes_of-eq p = refl

pub bytes_of-IsByte : (p : CsiParams) → HasBytes p → All IsByte (bytes_of p)
bytes_of-IsByte p h = rw (bytes_of-eq p) (
    All-append IsByte (field16 p.chanspec) _ (field16-IsByte p.chanspec) (
      h.collect_byte,
      (
        h.mask_byte,
        (
          h.filter_byte,
          (
            h.first_byte,
            All-append IsByte (field16 p.n_mac_addr) _ (field16-IsByte p.n_mac_addr)
                (All-append IsByte p.src_macs _ h.macs_bytes (field16-IsByte p.delay)),
          ),
        ),
      ),
    ))

pub write_at-IsByte :
    (memory : Bytes) (offset : ℕ) (bytes : Bytes)
    → All IsByte memory
    → All IsByte bytes
    → All IsByte (write_at memory offset bytes)
unfolding write_at
write_at-IsByte memory zero [] hm hb = hm
write_at-IsByte [] zero (b ∷ bytes) hm hb = tt
write_at-IsByte (m ∷ memory) zero (b ∷ bytes) (pm, hm) (pb, hb) =
    (pb, write_at-IsByte memory zero bytes hm hb)
write_at-IsByte [] (suc offset) bytes hm hb = tt
write_at-IsByte (m ∷ memory) (suc offset) bytes (pm, hm) hb =
    (pm, write_at-IsByte memory offset bytes hm hb)
