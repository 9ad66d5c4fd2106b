-- ===== src/CsiParams/Addresses.antt =====
-- The option `-m` of `main` in makecsiparams.c: where the addresses go. `ether_aton` is a parameter
-- that is taken to return six octets.
use app_loctag.Base.{
  ◌+◌, ◌*◌, ◌<◌, ◌≡◌, inl, inr, refl, ap, sym, ◌∙◌, true, false, List, [], ◌∷◌, ◌++◌, append_assoc,
  append-nil, Option, none, some, ◌>>=◌, arith, Bytes, IsByte, All, length, take, leb, Bool-cases,
  Option-cases,
}
use mathlib.Core.Option.{some-injective, none-ne-some}
use app_loctag.CsiParams.Store.Laws.{take-write_at}
use app_loctag.CsiParams.Options.{Locals, add_mac, add_macs, max_mac_address}
use app_loctag.CsiParams.Consistent.{IsConsistent, add_mac-IsConsistent}

abbrev pub ReadsOctets : (Bytes → Option Bytes) → Type 0
ReadsOctets ether_aton =
    (text octets : Bytes) → ether_aton text ≡ some octets → (length octets ≡ 6) × All IsByte octets

-- The octets of all addresses of a list, one after the other.
unfoldable pub octets_of : (Bytes → Option Bytes) → List Bytes → Option Bytes
octets_of ether_aton [] = some []
octets_of ether_aton (text ∷ rest) = do
  octets ← ether_aton text
  others ← octets_of ether_aton rest
  some (octets ++ others)

-- The memory up to the address that is read next.
abbrev pub placed : Locals → Bytes
placed s = take (s.nmac * 6) (s.p).src_macs

placed-add_mac :
    (s : Locals) (octets : Bytes)
    → IsConsistent s
    → s.nmac < 4
    → length octets ≡ 6
    → placed (add_mac s octets) ≡ placed s ++ octets
unfolding add_mac
placed-add_mac s octets c free six =
    let next : (s.nmac + 1) * 6 ≡ s.nmac * 6 + length octets = omega (arith, six) in
    rw next (take-write_at (s.p).src_macs (s.nmac * 6) octets (omega (arith, six, (c.macs).long)))

pub record Places (ether_aton : Bytes → Option Bytes) (s : Locals) (texts : List Bytes)
    (s' : Locals) : Type 0 where
  pub octets : Bytes
  pub read : octets_of ether_aton texts ≡ some octets
  pub count : s'.nmac ≡ s.nmac + length texts
  pub order : placed s' ≡ placed s ++ octets
  pub consistent : IsConsistent s'

add_macs-eq :
    (ether_aton : Bytes → Option Bytes) (s : Locals) (text : Bytes) (rest : List Bytes)
    {octets : Bytes}
    → leb max_mac_address s.nmac ≡ false
    → ether_aton text ≡ some octets
    → add_macs ether_aton s (text ∷ rest) ≡ add_macs ether_aton (add_mac s octets) rest
unfolding add_macs
add_macs-eq ether_aton s text rest free good = rw (free, good) refl

add_macs_fails :
    (ether_aton : Bytes → Option Bytes) (s : Locals) (text : Bytes) (rest : List Bytes)
    → ether_aton text ≡ none
    → add_macs ether_aton s (text ∷ rest) ≡ none
unfolding add_macs
add_macs_fails ether_aton s text rest bad = elim (Bool-cases (leb max_mac_address s.nmac)) [
  | inl full ↦ rw full refl
  | inr free ↦ rw (free, bad) refl
]

add_macs_full :
    (ether_aton : Bytes → Option Bytes) (s : Locals) (text : Bytes) (rest : List Bytes)
    → leb max_mac_address s.nmac ≡ true
    → add_macs ether_aton s (text ∷ rest) ≡ none
unfolding add_macs
add_macs_full ether_aton s text rest full = rw full refl

add_macs_nil : (ether_aton : Bytes → Option Bytes) (s : Locals) → add_macs ether_aton s [] ≡ some s
unfolding add_macs
add_macs_nil ether_aton s = refl

module _ (ether_aton : Bytes → Option Bytes) (six : ReadsOctets ether_aton) where
  nmac-add_mac : (s : Locals) (octets : Bytes) → (add_mac s octets).nmac ≡ s.nmac + 1
  unfolding add_mac
  nmac-add_mac s octets = refl

  -- Where ether_aton returns six octets and the locals are consistent, the addresses of an
  -- argument of -m that is accepted are copied one behind the other behind those of earlier
  -- options, in their order, and are counted, and the locals stay consistent.
  pub add_macs-Places :
      (s : Locals) (texts : List Bytes) (s' : Locals)
      → IsConsistent s
      → add_macs ether_aton s texts ≡ some s'
      → Places ether_aton s texts s'
  unfolding octets_of
  add_macs-Places s [] s' c h =
      let same : s ≡ s' = some-injective _ _ (rw (add_macs_nil ether_aton s) at h) in
      rw (sym same) (record {
        octets = [];
        read = refl;
        count = omega arith;
        order = sym (append-nil (placed s));
        consistent = c;
      })
  add_macs-Places s (text ∷ rest) s' c h = elim (Bool-cases (leb max_mac_address s.nmac)) [
    | inl full ↦ absurd (none-ne-some _ (sym (add_macs_full ether_aton s text rest full) ∙ h))
    | inr free ↦ elim (Option-cases (ether_aton text)) [
      | inl bad ↦ absurd (none-ne-some _ (sym (add_macs_fails ether_aton s text rest bad) ∙ h))
      | inr (octets, good) ↦
          let (long, bytes) = six text octets good in
          let room : s.nmac < 4 = ground arith in
          let c' = add_mac-IsConsistent s octets c room long bytes in
          let h' = sym (add_macs-eq ether_aton s text rest free good) ∙ h in
          let r = add_macs-Places (add_mac s octets) rest s' c' h' in
          record {
            octets = octets ++ r.octets;
            read = rw (good, r.read) refl;
            count = omega (arith, r.count, nmac-add_mac s octets);
            order =
                r.order
                ∙ ap (λ (t : Bytes). t ++ r.octets) (placed-add_mac s octets c room long)
                ∙ append_assoc (placed s) octets r.octets;
            consistent = r.consistent;
          }
    ]
  ]
