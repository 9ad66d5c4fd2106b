-- ===== src/CsiParams/Loop.antt =====
-- The option loop of `main` in makecsiparams.c, and what is printed behind it.
use app_loctag.Base.{
  ◌≡◌, refl, Bool, true, false, List, [], ◌∷◌, Option, none, some, Bytes, ◌==◌, if◌then◌else◌,
}
use app_loctag.CsiParams.Options.{
  Opt, Locals, Step, goes_on, helps, fails, or_fail, option_step, option_loop, strtok_all,
}
use app_loctag.CsiParams.Consistent.{
  IsConsistent, set_enable-IsConsistent, set_byte-IsConsistent, set_chanspec-IsConsistent,
  set_coremask-IsConsistent, set_nssmask-IsConsistent, set_delay-IsConsistent,
}
use app_loctag.CsiParams.Addresses.{ReadsOctets, add_macs-Places}

-- The loop goes on with locals that are consistent, or `main` ends.
abbrev pub StaysConsistent : Step → Type 0
StaysConsistent (goes_on s) = IsConsistent s
StaysConsistent helps = Unit
StaysConsistent fails = Unit

either :
    (test : Bool) (a b : Step)
    → StaysConsistent a
    → StaysConsistent b
    → StaysConsistent (if test then a else b)
either true a b ha hb = ha
either false a b ha hb = hb

or_fail-StaysConsistent :
    (r : Option Locals) → ((s : Locals) → r ≡ some s → IsConsistent s) → StaysConsistent (or_fail r)
or_fail-StaysConsistent (some s) h = h s refl
or_fail-StaysConsistent none h = tt

module _ (ether_aton : Bytes → Option Bytes) (six : ReadsOctets ether_aton) where
  option_step-StaysConsistent :
      (s : Locals) (o : Opt) → IsConsistent s → StaysConsistent (option_step ether_aton s o)
  unfolding option_step
  option_step-StaysConsistent s o c = either (o.c == b'h') _ _ tt (
      either (o.c == b'r') _ _
        (record { masks = c.masks; tuned = c.tuned; macs = c.macs; fields = c.fields })
        (either (o.c == b'e') _ _
          (or_fail-StaysConsistent _ (λ s' h. set_enable-IsConsistent s o.optarg c h))
          (either (o.c == b'm') _ _
            (or_fail-StaysConsistent _
              (λ s' h. (add_macs-Places ether_aton six s (strtok_all o.optarg) s' c h).consistent))
            (either (o.c == b'b') _ _
              (or_fail-StaysConsistent _ (λ s' h. set_byte-IsConsistent s o.optarg c h))
              (either (o.c == b'c') _ _
                (or_fail-StaysConsistent _ (λ s' h. set_chanspec-IsConsistent s o.optarg c h))
                (either (o.c == b'C') _ _
                  (or_fail-StaysConsistent _ (λ s' h. set_coremask-IsConsistent s o.optarg c h))
                  (either (o.c == b'N') _ _
                    (or_fail-StaysConsistent _ (λ s' h. set_nssmask-IsConsistent s o.optarg c h))
                    (either (o.c == b'd') _ _
                      (or_fail-StaysConsistent _ (λ s' h. set_delay-IsConsistent s o.optarg c h))
                      tt))))))))

  -- Where ether_aton returns six octets, the option loop of main leaves consistent locals, or ends
  -- main: the masks stand in their byte, the chanspec in the struct is 0 or well-formed, the
  -- addresses that are counted are at most four and have their place, and every field fits its
  -- bits.
  pub option_loop-StaysConsistent :
      (s : Locals) (opts : List Opt)
      → IsConsistent s
      → StaysConsistent (option_loop ether_aton s opts)
  unfolding option_loop
  option_loop-StaysConsistent s [] c = c
  option_loop-StaysConsistent s (o ∷ rest) c =
      go (option_step ether_aton s o) (option_step-StaysConsistent s o c)
        (λ s' c'. option_loop-StaysConsistent s' rest c')
    where
      go :
          (r : Step)
          → StaysConsistent r
          → ((s' : Locals) → IsConsistent s' → StaysConsistent (option_loop ether_aton s' rest))
          → StaysConsistent (elim r [
            | goes_on s' ↦ option_loop ether_aton s' rest
            | helps ↦ helps
            | fails ↦ fails
          ])
      go (goes_on s') h loop = loop s' h
      go helps h loop = tt
      go fails h loop = tt
