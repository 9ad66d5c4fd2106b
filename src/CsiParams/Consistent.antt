-- ===== src/CsiParams/Consistent.antt =====
-- The options of `main` in makecsiparams.c: the locals and the fields of `struct csi_params`
-- that the options fill agree at all times.
use mathlib.Core.Option.{some-injective}
use native.Mathlib.Nat.{mod-lt}
use app_loctag.Base.{
  ℕ, ◌+◌, ◌-◌, ◌*◌, ◌/◌, ◌%◌, ◌^◌, ◌≤◌, ◌<◌, ◌≡◌, ◌⊎◌, inl, inr, refl, sym, some, >>=-eq-some,
  unless-eq-some, when-eq-some, arith, Bytes, IsByte, All, All-replicate, length, ◌==◌, ==_iff, u8,
  bit_or, bit_and, bit_and_mask, bit_and_high, bit_or_fields, bit_or_fields_rev, ◌<<<◌, ℤ, pos,
  negsuc, wrap,
}
use app_loctag.Chanspec.Parse.{wf_chspec_aton}
use app_loctag.Chanspec.Parse.Sound.{first_aton-IsWellFormed}
use app_loctag.Chanspec.WellFormed.{IsWellFormed}
use app_loctag.CsiParams.Store.Laws.{load16-st16le, length-write_at, write_at-IsByte}
use app_loctag.CsiParams.Options.{
  Locals, initial, whole_int, set_enable, add_mac, set_byte, set_chanspec, mask_of, set_coremask,
  set_nssmask, set_delay,
}

-- The two masks stand in one byte.
pub record HasMasks (byte coremask nssmask : ℕ) : Type 0 where
  pub cores : coremask < 16
  pub streams : nssmask < 16
  pub joined : byte ≡ nssmask * 16 + coremask

-- The chanspec in the struct is the checked one.
pub record IsTuned (field chanspec : ℕ) : Type 0 where
  pub same : field ≡ chanspec
  pub narrow : chanspec < 65536
  pub checked : (chanspec ≡ 0) ⊎ IsWellFormed chanspec

-- The addresses that are counted have their place in the struct.
pub record HasMacs (n_mac_addr nmac : ℕ) (src_macs : Bytes) : Type 0 where
  pub counted : n_mac_addr ≡ nmac
  pub room : nmac ≤ 4
  pub long : length src_macs ≡ 24
  pub octets : All IsByte src_macs

-- The other fields fit the bits that they have.
pub record HasFields (use_pkt_filter first_pkt_byte csi_collect delay : ℕ) : Type 0 where
  pub filter : use_pkt_filter ≤ 1
  pub first : first_pkt_byte < 256
  pub collect : csi_collect < 256
  pub pause : delay < 65536

pub record IsConsistent (s : Locals) : Type 0 where
  pub masks : HasMasks (s.p).core_nss_mask s.coremask s.nssmask
  pub tuned : IsTuned (s.p).chanspec s.chanspec
  pub macs : HasMacs (s.p).n_mac_addr s.nmac (s.p).src_macs
  pub fields : HasFields (s.p).use_pkt_filter (s.p).first_pkt_byte (s.p).csi_collect (s.p).delay

pub initial-IsConsistent : IsConsistent initial
initial-IsConsistent = record {
  masks = record { cores = omega arith; streams = omega arith; joined = refl };
  tuned = record { same = refl; narrow = omega arith; checked = inl refl };
  macs = record {
    counted = refl;
    room = omega arith;
    long = refl;
    octets = All-replicate IsByte 24 0 (omega arith);
  };
  fields = record {
    filter = omega arith;
    first = omega arith;
    collect = omega arith;
    pause = omega arith;
  };
}

pub wrap-lt : (w : ℕ) (v : ℤ) → 0 < w → wrap w v < w
wrap-lt w (pos n) h = mod-lt n h
wrap-lt w (negsuc n) h = omega arith

module _ (s : Locals) (text : Bytes) {s' : Locals} (c : IsConsistent s) where
  pub set_enable-IsConsistent : set_enable s text ≡ some s' → IsConsistent s'
  unfolding set_enable
  set_enable-IsConsistent h =
      let (v, read, e) = >>=-eq-some (whole_int text) _ h in
      rw (sym (some-injective _ _ e))
        (record { masks = c.masks; tuned = c.tuned; macs = c.macs; fields = c.fields })

-- A mask that is accepted has its four bits.
high_bits : (x : ℕ) → bit_and x 0xfffffff0 ≡ x / 16 % 2 ^ 28 * 16
high_bits x = omega (arith, bit_and_high 4 x (2 ^ 28 - 1), bit_and_mask 28 (x / 2 ^ 4))

mask_of-lt : (text : Bytes) {mask : ℕ} → mask_of text ≡ some mask → mask < 16
unfolding mask_of
mask_of-lt text {mask} h =
    let (v, read, e) = >>=-eq-some (whole_int text) _ h in
    let x = wrap (2 ^ 32) v in
    let (low, same) = when-eq-some (bit_and x 0xfffffff0 == 0) x e in
    let none_above : bit_and x 0xfffffff0 ≡ 0 = (==_iff _ _).0 low in
    omega (arith, wrap-lt (2 ^ 32) v (omega arith), high_bits x, same, none_above)

kept_high : (m : ℕ) → m < 256 → bit_and m 0xf0 ≡ m / 16 * 2 ^ 4
kept_high m h = omega (arith, bit_and_high 4 m 15, bit_and_mask 4 (m / 2 ^ 4))

set_low : (m c : ℕ) → m < 256 → c < 16 → u8 (bit_or (bit_and m 0xf0) c) ≡ m / 16 * 16 + c
set_low m c hm hc = rw (kept_high m hm, bit_or_fields 4 (m / 16) c hc) (omega arith)

kept_low : (m : ℕ) → bit_and m 0x0f ≡ m % 2 ^ 4
kept_low m = bit_and_mask 4 m

set_high : (m n : ℕ) → n < 16 → u8 (bit_or (bit_and m 0x0f) (n <<< 4)) ≡ n * 16 + m % 16
set_high m n hn = rw (kept_low m, bit_or_fields_rev 4 n (m % 2 ^ 4) (omega arith)) (omega arith)

module _ (s : Locals) (text : Bytes) {s' : Locals} (c : IsConsistent s) where
  pub set_coremask-IsConsistent : set_coremask s text ≡ some s' → IsConsistent s'
  unfolding set_coremask
  set_coremask-IsConsistent h =
      let (mask, read, e) = >>=-eq-some (mask_of text) _ h in
      let m = c.masks in
      let low = mask_of-lt text read in
      rw (sym (some-injective _ _ e)) (record {
        masks = record {
          cores = low;
          streams = m.streams;
          joined = omega (
            arith,
            m.joined,
            m.cores,
            m.streams,
            set_low (s.p).core_nss_mask mask (omega (arith, m.joined, m.cores, m.streams)) low,
          );
        };
        tuned = c.tuned;
        macs = c.macs;
        fields = c.fields;
      })

  pub set_nssmask-IsConsistent : set_nssmask s text ≡ some s' → IsConsistent s'
  unfolding set_nssmask
  set_nssmask-IsConsistent h =
      let (mask, read, e) = >>=-eq-some (mask_of text) _ h in
      let m = c.masks in
      let low = mask_of-lt text read in
      rw (sym (some-injective _ _ e)) (record {
        masks = record {
          cores = m.cores;
          streams = low;
          joined = omega (arith, m.joined, m.cores, set_high (s.p).core_nss_mask mask low);
        };
        tuned = c.tuned;
        macs = c.macs;
        fields = c.fields;
      })

  pub set_byte-IsConsistent : set_byte s text ≡ some s' → IsConsistent s'
  unfolding set_byte
  set_byte-IsConsistent h =
      let (byte, read, e) = >>=-eq-some (whole_int text) _ h in
      let (fits, same) = unless-eq-some _ _ e in
      let f = c.fields in
      rw (sym same) (record {
        masks = c.masks;
        tuned = c.tuned;
        macs = c.macs;
        fields = record {
          filter = omega arith;
          first = wrap-lt 256 byte (omega arith);
          collect = f.collect;
          pause = f.pause;
        };
      })

  pub set_chanspec-IsConsistent : set_chanspec s text ≡ some s' → IsConsistent s'
  unfolding set_chanspec
  set_chanspec-IsConsistent h =
      let (found, same) = unless-eq-some _ _ h in
      let spec : IsTuned (wf_chspec_aton text) (wf_chspec_aton text) =
        elim (first_aton-IsWellFormed text) [
          | inl zero_ ↦ record { same = refl; narrow = omega (arith, zero_); checked = inl zero_ }
          | inr (good, small) ↦ record { same = refl; narrow = small; checked = inr good }
        ] in
      rw (sym same) (record { masks = c.masks; tuned = spec; macs = c.macs; fields = c.fields })

  pub set_delay-IsConsistent : set_delay s text ≡ some s' → IsConsistent s'
  unfolding set_delay
  set_delay-IsConsistent h =
      let (delay, read, e) = >>=-eq-some (whole_int text) _ h in
      let (fits, same) = unless-eq-some _ _ e in
      let f = c.fields in
      rw (sym same) (record {
        masks = c.masks;
        tuned = c.tuned;
        macs = c.macs;
        fields = record {
          filter = f.filter;
          first = f.first;
          collect = f.collect;
          pause = omega (arith, load16-st16le (wrap (2 ^ 16) delay));
        };
      })

-- An address that is read has six octets.
module _ (s : Locals) (octets : Bytes) (c : IsConsistent s) where
  pub add_mac-IsConsistent :
      s.nmac < 4 → length octets ≡ 6 → All IsByte octets → IsConsistent (add_mac s octets)
  unfolding add_mac
  add_mac-IsConsistent h six bytes =
      let m = c.macs in
      record {
        masks = c.masks;
        tuned = c.tuned;
        macs = record {
          counted = omega (arith, load16-st16le (s.nmac + 1));
          room = omega arith;
          long = omega (arith, m.long, length-write_at (s.p).src_macs (s.nmac * 6) octets);
          octets = write_at-IsByte (s.p).src_macs (s.nmac * 6) octets m.octets bytes;
        };
        fields = c.fields;
      }
