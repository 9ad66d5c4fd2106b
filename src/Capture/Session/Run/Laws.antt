-- ===== src/Capture/Session/Run/Laws.antt =====
-- The function `main` makes steps of the relation, and the run is over behind it.
use app_loctag.Base.{
  ℕ, ◌≡◌, refl, Bool, true, false, List, [], ◌∷◌, Option, Bool-cases, Option-cases, ◌⊎◌, inl, inr,
  if◌then◌else◌, Bytes, pos, negsuc,
}
use app_loctag.Capture.Options.{Config, forwarding, has_mode}
use app_loctag.Capture.Packet.{got_packet}
use app_loctag.Capture.Session.{
  Phase, compiling, installing, connecting, saving, capturing, stopping, closing, crashed, State,
  start, limit_of, one_less, waits, names_file, open_fails, opens, compile_fails, compiles,
  install_fails, installs, connects, connect_fails, needs_no_socket, no_file_name, needs_no_file,
  save_fails, saves, gets, faults, loop_returns, stops, stops_nothing, closes_null, closes, Reach,
  here, next,
}
use app_loctag.Capture.Session.Termination.{IsOver, crash, return}
use app_loctag.Capture.Session.Run.{
  Environment, handed, after_packet, capture, close, stop, loop, save, create_udp_send_socket,
  connect, main,
}

-- A state that is reached, and the run is over.
abbrev Final : Config → State → Type 0
Final c s = Reach c s × IsOver s.phase

choice :
    (c : Config) (test : Bool) (a b : State)
    → (test ≡ true → Final c a)
    → (test ≡ false → Final c b)
    → Final c (if test then a else b)
choice c true a b ha hb = ha refl
choice c false a b ha hb = hb refl

close-Final : (c : Config) (s : State) → Reach c s → s.phase ≡ closing → Final c (close s)
unfolding close
close-Final c s r p =
    choice c s.output_file _ _ (λ f. (next r (closes s p f), return (pos 0)))
      (λ f. (next r (closes_null s p f), crash))

stop-Final : (c : Config) (s : State) → Reach c s → s.phase ≡ stopping → Final c (stop c s)
unfolding stop
stop-Final c s r p = elim (Bool-cases (has_mode c forwarding)) [
  | inl m ↦ rw m (close-Final c _ (next r (stops s p m)) refl)
  | inr m ↦ rw m (close-Final c _ (next r (stops_nothing s p m)) refl)
]

-- Behind the loop the state is reached, and the loop has returned or the process has crashed.
abbrev Looped : Config → State → Type 0
Looped c s = Reach c s × ((s.phase ≡ stopping) ⊎ (s.phase ≡ crashed))

capture-Looped :
    (c : Config) (s : State) (left : Option ℕ) (arrivals : List (Bytes × ℕ))
    → Reach c s
    → s.phase ≡ capturing left
    → Looped c (capture c s left arrivals)
unfolding capture
capture-Looped c s left [] r p = (next r (loop_returns s left p), inl refl)
capture-Looped c s left ((packet, len) ∷ rest) r p = elim (Bool-cases (waits left)) [
  | inr full ↦ rw full (next r (loop_returns s left p), inl refl)
  | inl w ↦ elim (Option-cases (got_packet c s.output_file packet len)) [
    | inl g ↦ rw (w, g) (next r (faults s left packet len p w g), inr refl)
    | inr (events, g) ↦
        rw (w, g)
          (capture-Looped c (after_packet s left packet len events) (one_less left) rest
            (next r (gets s left packet len events p w g)) refl)
  ]
]

behind_loop :
    (c : Config) (t : State) → Looped c t → Final c (elim t.phase [ stopping ↦ stop c t | _ ↦ t ])
behind_loop c t (r, inl p) = rw p (stop-Final c t r p)
behind_loop c t (r, inr p) = rw p (r, crash_at p)
  where
    crash_at : {phase : Phase} → phase ≡ crashed → IsOver phase
    crash_at e = rw e crash

loop-Final :
    (c : Config) (s : State) (arrivals : List (Bytes × ℕ))
    → Reach c (record s { phase = capturing (limit_of c.num_packets) })
    → Final c (loop c s arrivals)
unfolding loop
loop-Final c s arrivals r =
    behind_loop c _ (capture-Looped c _ (limit_of c.num_packets) arrivals r refl)

save-Final :
    (c : Config) (e : Environment) (s : State) → Reach c s → s.phase ≡ saving → Final c (save c e s)
unfolding save
save-Final c e s r p = elim (Option-cases (names_file c.filepath)) [
  | inl f ↦ rw (f, save) (next r (no_file_name s p f), crash)
  | inr (false, f) ↦ rw (f, save) (loop-Final c s (handed e) (next r (needs_no_file s p f)))
  | inr (true, f) ↦
      rw (f, save)
        (choice c e.opens_dump _ _
          (λ h. loop-Final c (record s { output_file = true }) (handed e) (next r (saves s p f)))
          (λ h. (next r (save_fails s p f), return (negsuc 0))))
]

connect-Final :
    (c : Config) (e : Environment) (s : State)
    → Reach c s
    → s.phase ≡ connecting
    → Final c (connect c e s)
unfolding connect create_udp_send_socket
connect-Final c e s r p = elim (Bool-cases (has_mode c forwarding)) [
  | inr m ↦ rw m (save-Final c e _ (next r (needs_no_socket s p m)) refl)
  | inl m ↦ rw m (made m e.makes_socket e.binds_socket)
]
  where
    made :
        has_mode c forwarding ≡ true
        → (makes binds : Bool)
        → Final c
            (save c e (record s { phase = saving; sock_fd = create_udp_send_socket makes binds }))
    made m true true = save-Final c e _ (next r (connects s p m)) refl
    made m true false = save-Final c e _ (next r (connect_fails s p m)) refl
    made m false binds = save-Final c e _ (next r (connect_fails s p m)) refl

-- Whatever the system answers, main of csiutil as a function makes only steps of the relation, and
-- the run is over behind it.
pub main-Reach : (c : Config) (e : Environment) → Reach c (main c e) × IsOver (main c e).phase
unfolding main
main-Reach c e =
    choice c e.opens_live _ _
      (λ h1.
        choice c e.compiles_filter _ _
          (λ h2.
            choice c e.sets_filter _ _ (λ h3. connect-Final c e _ installed refl)
              (λ h3. (next compiled (install_fails _ refl), return (pos 2))))
          (λ h2. (next opened (compile_fails _ refl), return (pos 2))))
      (λ h1. (next here (open_fails start refl), return (pos 2)))
  where
    opened : Reach c (record start { phase = compiling; pcap_handle = true })
    opened = next here (opens start refl)

    compiled : Reach c (record start { phase = installing; pcap_handle = true; fp = true })
    compiled = next opened (compiles _ refl)

    installed : Reach c (record start { phase = connecting; pcap_handle = true; fp = true })
    installed = next compiled (installs _ refl)
