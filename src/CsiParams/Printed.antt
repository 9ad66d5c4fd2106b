-- ===== src/CsiParams/Printed.antt =====
-- What `main` of makecsiparams.c prints.
use app_loctag.Base.{
  ℕ, ◌*◌, ◌^◌, ◌≡◌, ◌≢◌, ◌⊎◌, refl, ap, sym, Bool, true, false, not, ◌&&◌, ◌||◌, List, [], Option,
  some, arith, Bytes, ltb, leb, ◌==◌, if◌then◌else◌, length, wrap,
}
use app_loctag.CsiParams.Base64.{encode}
use app_loctag.CsiParams.Base64.Decoder.{decode}
use app_loctag.CsiParams.Base64.Laws.{decode-encode, length-encode}
use app_loctag.CsiParams.Store.{bytes_of, countbit, st16le, load16}
use app_loctag.CsiParams.Store.Laws.{HasBytes, bytes_of-IsByte, length-bytes_of, load16-st16le}
use app_loctag.CsiParams.Options.{Opt, Locals, Step, goes_on, helps, fails, initial, option_loop}
use app_loctag.CsiParams.Consistent.{IsConsistent, initial-IsConsistent, wrap-lt}
use app_loctag.CsiParams.Addresses.{ReadsOctets}
use app_loctag.CsiParams.Loop.{StaysConsistent, option_loop-StaysConsistent}
use app_loctag.CsiParams.Program.{
  Output, usage, nothing, raw, line, store_enable, is_complete, default_delay, print_params,
  conclude, main, default_delay_us,
}

store_enable-IsConsistent : (s : Locals) → IsConsistent s → IsConsistent (store_enable s)
unfolding store_enable
store_enable-IsConsistent s c = record {
  masks = c.masks;
  tuned = c.tuned;
  macs = c.macs;
  fields = record {
    filter = (c.fields).filter;
    first = (c.fields).first;
    collect = wrap-lt 256 s.enable (omega arith);
    pause = (c.fields).pause;
  };
}

default_delay-IsConsistent : (s : Locals) → IsConsistent s → IsConsistent (default_delay s)
unfolding default_delay
default_delay-IsConsistent s c =
    go (not s.force_delay && leb 12 (countbit s.nssmask * countbit s.coremask))
  where
    go :
        (many : Bool)
        → IsConsistent (
            if many
            then record s { p = record (s.p) { delay = load16 (st16le default_delay_us) } }
            else s)
    go true = record {
      masks = c.masks;
      tuned = c.tuned;
      macs = c.macs;
      fields = record {
        filter = (c.fields).filter;
        first = (c.fields).first;
        collect = (c.fields).collect;
        pause = omega (arith, load16-st16le default_delay_us);
      };
    }
    go false = c

consistent-HasBytes : (s : Locals) → IsConsistent s → HasBytes s.p
consistent-HasBytes s c = record {
  collect_byte = (c.fields).collect;
  mask_byte = omega (arith, (c.masks).joined, (c.masks).cores, (c.masks).streams);
  filter_byte = omega (arith, (c.fields).filter);
  first_byte = (c.fields).first;
  macs_bytes = (c.macs).octets;
}

-- What a printed line says: the struct's bytes, of which the parts agree.
pub record Prints (text : Bytes) (s : Locals) : Type 0 where
  pub decoded : decode text ≡ some (bytes_of (default_delay (store_enable s)).p)
  pub chars : length text ≡ 48
  pub agree : IsConsistent (default_delay (store_enable s))
  pub enabled :
      (wrap (2 ^ 32) s.enable ≡ 0) ⊎ ((s.chanspec ≢ 0) × (s.coremask ≢ 0) × (s.nssmask ≢ 0))

abbrev text_of : Output → Bytes
text_of (line text) = text
text_of usage = []
text_of nothing = []
text_of (raw bytes) = []

raw_or_line :
    (test : Bool) (bytes text text' : Bytes)
    → (if test then raw bytes else line text) ≡ line text'
    → text ≡ text'
raw_or_line true bytes text text' h = cc
raw_or_line false bytes text text' h = ap text_of h

line_or_nothing :
    (test : Bool) (output : Output) (text : Bytes)
    → (if test then output else nothing) ≡ line text
    → (test ≡ true) × (output ≡ line text)
line_or_nothing true output text h = (refl, h)
line_or_nothing false output text h = cc

usage_or :
    (test : Bool) (output : Output) (text : Bytes)
    → (if test then usage else output) ≡ line text
    → output ≡ line text
usage_or true output text h = cc
usage_or false output text h = h

print_params-eq :
    (s : Locals)
    → print_params s ≡ (if s.doraw then raw (bytes_of (s.p)) else line (encode (bytes_of (s.p))))
unfolding print_params
print_params-eq s = refl

conclude-eq :
    (s : Locals)
    → conclude s ≡ (
        if is_complete (store_enable s)
        then print_params (default_delay (store_enable s))
        else nothing)
unfolding conclude
conclude-eq s = refl

enabled-cases :
    (e c n k : ℕ)
    → (if e == 0 then true else not (c == 0) && not (n == 0 || k == 0)) ≡ true
    → (e ≡ 0) ⊎ ((c ≢ 0) × (k ≢ 0) × (n ≢ 0))
enabled-cases e c n k h = ground arith

complete-cases :
    (s : Locals)
    → is_complete (store_enable s) ≡ true
    → (wrap (2 ^ 32) s.enable ≡ 0) ⊎ ((s.chanspec ≢ 0) × (s.coremask ≢ 0) × (s.nssmask ≢ 0))
unfolding is_complete store_enable
complete-cases s h = enabled-cases (wrap (2 ^ 32) s.enable) s.chanspec s.nssmask s.coremask h

length-printed : (s : Locals) → IsConsistent s → length (encode (bytes_of (s.p))) ≡ 48
length-printed s c =
    omega (arith, length-encode (bytes_of (s.p)), length-bytes_of (s.p) (c.macs).long)

-- A line is printed only of consistent parameters, and it is their bytes in base64.
conclude-Prints :
    (s : Locals) (text : Bytes) → IsConsistent s → conclude s ≡ line text → Prints text s
conclude-Prints s text c h =
    let (complete, printed) = line_or_nothing _ _ _ (rw (conclude-eq s) at h) in
    let last = default_delay (store_enable s) in
    let agree = default_delay-IsConsistent _ (store_enable-IsConsistent s c) in
    let spelled : encode (bytes_of (last.p)) ≡ text =
      raw_or_line _ _ _ _ (rw (print_params-eq last) at printed) in
    record {
      decoded = rw (sym spelled) (
          decode-encode (bytes_of (last.p))
            (bytes_of-IsByte (last.p) (consistent-HasBytes last agree)));
      chars = rw (sym spelled) (length-printed last agree);
      agree = agree;
      enabled = complete-cases s complete;
    }

usage-line : (text : Bytes) → usage ≢ line text
usage-line text h = cc

nothing-line : (text : Bytes) → nothing ≢ line text
nothing-line text h = cc

module _ (ether_aton : Bytes → Option Bytes) (six : ReadsOctets ether_aton) where
  ended :
      (argc : ℕ) (text : Bytes) (r : Step)
      → StaysConsistent r
      → (if ltb argc 2
          then usage
          else elim r [ goes_on s ↦ conclude s | helps ↦ usage | fails ↦ nothing ])
        ≡ line text
      → (s : Locals) × (r ≡ goes_on s) × Prints text s
  ended argc text (goes_on s) c h = (s, refl, conclude-Prints s text c (usage_or _ _ text h))
  ended argc text helps c h = absurd (usage-line text (usage_or _ usage text h))
  ended argc text fails c h = absurd (nothing-line text (usage_or _ nothing text h))

  main-eq :
      (argc : ℕ) (opts : List Opt)
      → (main ether_aton argc opts).output ≡ (
          if ltb argc 2 then usage else elim (option_loop ether_aton initial opts) [
            | goes_on s ↦ conclude s
            | helps ↦ usage
            | fails ↦ nothing
          ])
  unfolding main
  main-eq argc opts = refl

  -- Where ether_aton returns six octets, a line that main prints is 48 characters of base64 that
  -- decode to the 34 bytes of the struct that the option loop leaves, with the enabling and the
  -- delay stored: its parts are consistent, and where the collection is enabled the chanspec and
  -- both masks are not 0.
  pub main-Prints :
      (argc : ℕ) (opts : List Opt) (text : Bytes)
      → (main ether_aton argc opts).output ≡ line text
      → (s : Locals) × (option_loop ether_aton initial opts ≡ goes_on s) × Prints text s
  main-Prints argc opts text h =
      ended argc text _
        (option_loop-StaysConsistent ether_aton six initial opts initial-IsConsistent)
        (rw (main-eq argc opts) at h)
