-- ===== src/Capture/Session/Run/Status.antt =====
-- How `main` of Csi/csiutil.c ends, by what the system answers.
use app_loctag.Base.{
  ◌≡◌, ◌⊎◌, inl, inr, refl, Bool, true, false, ◌&&◌, [], List, ◌∷◌, Option, none, some,
  Option-cases, Bool-cases, Bytes, ℕ, pos, negsuc, if◌then◌else◌,
}
use app_loctag.Capture.Options.{Config, forwarding, has_mode}
use app_loctag.Capture.Packet.{got_packet}
use app_loctag.Capture.Session.{
  connecting, closed, saving, stopping, closing, crashed, ended, unset, State, start, limit_of,
  one_less, waits, names_file,
}
use app_loctag.Capture.Session.Run.{
  Environment, handed, after_packet, capture, close, stop, loop, save, create_udp_send_socket,
  connect, main,
}

-- The device is opened, and the filter compiled and set.
abbrev pub is_ready : Environment → Bool
is_ready e = e.opens_live && e.compiles_filter && e.sets_filter

-- A packet of which more is read than was captured.
pub data Faults (c : Config) (saved : Bool) : List (Bytes × ℕ) → Type 0 where
  at_first :
      (packet : Bytes) (len : ℕ) (rest : List (Bytes × ℕ))
      → got_packet c saved packet len ≡ none
      → Faults c saved ((packet, len) ∷ rest)
  later :
      (first : Bytes × ℕ) (rest : List (Bytes × ℕ))
      → Faults c saved rest
      → Faults c saved (first ∷ rest)

-- `not_ready`: status 2 before any packet, with no socket. `not_saved`: status -1, before any packet as well.
-- `complete`: status 0 behind the capture. `crashes`: the name of the file is read at NULL, or it is empty and
-- pcap_dump_close gets NULL, or the file is open and a packet is read past its end.
pub data Status (c : Config) (e : Environment) (s : State) : Type 0 where
  not_ready :
      is_ready e ≡ false → s.phase ≡ ended (pos 2) → s.got ≡ [] → s.sock_fd ≡ unset → Status c e s
  not_saved :
      is_ready e ≡ true
      → names_file c.filepath ≡ some true
      → e.opens_dump ≡ false
      → s.phase ≡ ended (negsuc 0)
      → s.got ≡ []
      → Status c e s
  complete :
      is_ready e ≡ true
      → names_file c.filepath ≡ some true
      → e.opens_dump ≡ true
      → s.phase ≡ ended (pos 0)
      → Status c e s
  crashes :
      is_ready e ≡ true
      → (names_file c.filepath ≡ none)
        ⊎ ((names_file c.filepath ≡ some false)
            ⊎ ((names_file c.filepath ≡ some true)
                × (e.opens_dump ≡ true)
                × Faults c true (handed e)))
      → s.phase ≡ crashed
      → Status c e s

-- Behind the loop of a run with an output file or without one.
data Finished (c : Config) (arrivals : List (Bytes × ℕ)) : Bool → State → Type 0 where
  returns_zero : (s : State) → s.phase ≡ ended (pos 0) → Finished c arrivals true s
  closes_null : (s : State) → s.phase ≡ crashed → Finished c arrivals false s
  crashes_in :
      (saved : Bool) (s : State)
      → s.phase ≡ crashed
      → Faults c saved arrivals
      → Finished c arrivals saved s

module _ (c : Config) (arrivals : List (Bytes × ℕ)) where
  close-Finished :
      (saved : Bool) (s : State) → s.output_file ≡ saved → Finished c arrivals saved (close s)
  unfolding close
  close-Finished true s f = rw f (returns_zero _ refl)
  close-Finished false s f = rw f (closes_null _ refl)

  stop-Finished :
      (saved : Bool) (s : State) → s.output_file ≡ saved → Finished c arrivals saved (stop c s)
  unfolding stop
  stop-Finished saved s f = elim (Bool-cases (has_mode c forwarding)) [
    | inl m ↦
        rw m (
          close-Finished saved (record s { phase = closing; sock_fd = closed; stop_sent = true }) f)
    | inr m ↦ rw m (close-Finished saved (record s { phase = closing }) f)
  ]

-- The loop stops, or the process has crashed.
record Stops (c : Config) (saved : Bool) (arrivals : List (Bytes × ℕ)) (s : State) : Type 0 where
  phase : (s.phase ≡ stopping) ⊎ ((s.phase ≡ crashed) × Faults c saved arrivals)
  file : s.output_file ≡ saved

Stops-later :
    {c : Config} {saved : Bool} {first : Bytes × ℕ} {rest : List (Bytes × ℕ)} {s : State}
    → Stops c saved rest s
    → Stops c saved (first ∷ rest) s
Stops-later stops = record {
  phase = elim stops.phase [ inl p ↦ inl p | inr (p, faults) ↦ inr (p, later _ _ faults) ];
  file = stops.file;
}

capture-Stops :
    (c : Config) (saved : Bool) (s : State) (left : Option ℕ) (arrivals : List (Bytes × ℕ))
    → s.output_file ≡ saved
    → Stops c saved arrivals (capture c s left arrivals)
unfolding capture
capture-Stops c saved s left [] f = record { phase = inl refl; file = f }
capture-Stops c saved s left ((packet, len) ∷ rest) f = elim (Bool-cases (waits left)) [
  | inr full ↦ rw full (record { phase = inl refl; file = f })
  | inl w ↦ elim (Option-cases (got_packet c s.output_file packet len)) [
    | inl g ↦
        rw (w, g) (record { phase = inr (refl, at_first packet len rest (rw f at g)); file = f })
    | inr (events, g) ↦
        rw (w, g)
          (Stops-later
            (capture-Stops c saved (after_packet s left packet len events) (one_less left) rest f))
  ]
]

behind_loop :
    (c : Config) (saved : Bool) (arrivals : List (Bytes × ℕ)) (t : State)
    → Stops c saved arrivals t
    → Finished c arrivals saved (elim t.phase [ stopping ↦ stop c t | _ ↦ t ])
behind_loop c saved arrivals t stops = elim stops.phase [
  | inl p ↦ rw p (stop-Finished c arrivals saved t stops.file)
  | inr (p, faults) ↦ rw p (crashes_in saved t p faults)
]

loop-Finished :
    (c : Config) (saved : Bool) (s : State) (arrivals : List (Bytes × ℕ))
    → s.output_file ≡ saved
    → Finished c arrivals saved (loop c s arrivals)
unfolding loop
loop-Finished c saved s arrivals f =
    behind_loop c saved arrivals _ (capture-Stops c saved _ (limit_of c.num_packets) arrivals f)

saved-Status :
    (c : Config) (e : Environment) (s : State)
    → is_ready e ≡ true
    → names_file c.filepath ≡ some true
    → e.opens_dump ≡ true
    → Finished c (handed e) true s
    → Status c e s
saved-Status c e s ready named dump (returns_zero _ p) = complete ready named dump p
saved-Status c e s ready named dump (crashes_in _ _ p faults) =
    crashes ready (inr (inr (named, dump, faults))) p

unsaved-Status :
    (c : Config) (e : Environment) (s : State)
    → is_ready e ≡ true
    → names_file c.filepath ≡ some false
    → Finished c (handed e) false s
    → Status c e s
unsaved-Status c e s ready named (closes_null _ p) = crashes ready (inr (inl named)) p
unsaved-Status c e s ready named (crashes_in _ _ p faults) = crashes ready (inr (inl named)) p

save-Status :
    (c : Config) (e : Environment) (s : State)
    → is_ready e ≡ true
    → s.output_file ≡ false
    → s.got ≡ []
    → Status c e (save c e s)
unfolding save
save-Status c e s ready f g = elim (Option-cases (names_file c.filepath)) [
  | inl n ↦ rw (n, save) (crashes ready (inl n) refl)
  | inr (false, n) ↦
      rw (n, save) (unsaved-Status c e _ ready n (loop-Finished c false s (handed e) f))
  | inr (true, n) ↦ rw (n, save) (opened n e.opens_dump refl)
]
  where
    opened :
        names_file c.filepath ≡ some true
        → (opens : Bool) → e.opens_dump ≡ opens
        → Status c e (
            if opens
            then loop c (record s { output_file = true }) (handed e)
            else record s { phase = ended (negsuc 0) })
    opened n true d =
        saved-Status c e _ ready n d
          (loop-Finished c true (record s { output_file = true }) (handed e) refl)
    opened n false d = not_saved ready n d refl g

connect-Status :
    (c : Config) (e : Environment) (s : State)
    → is_ready e ≡ true
    → s.output_file ≡ false
    → s.got ≡ []
    → Status c e (connect c e s)
unfolding connect
connect-Status c e s ready f g = elim (Bool-cases (has_mode c forwarding)) [
  | inl m ↦ rw m (
      save-Status c e
        (record s {
          phase = saving;
          sock_fd = create_udp_send_socket e.makes_socket e.binds_socket;
        })
        ready f g)
  | inr m ↦ rw m (save-Status c e (record s { phase = saving }) ready f g)
]

-- Whatever the system answers, main of csiutil ends in one of four ways: with status 2, before any
-- packet and without a socket, where the device cannot be opened or the filter not compiled or
-- set; and where these succeed, with status -1 before any packet, where -o names a file that
-- cannot be opened; with status 0, where -o names a file that can be opened; or in a crash, where
-- the name is NULL, where it is empty, or where the file can be opened and got_packet reads more
-- of a packet that is handed over than was captured.
pub main-Status : (c : Config) (e : Environment) → Status c e (main c e)
unfolding main
main-Status c e = go e.opens_live e.compiles_filter e.sets_filter refl
  where
    go :
        (live compiles sets : Bool)
        → is_ready e ≡ (live && compiles && sets)
        → Status c e (
            if live
            then if compiles
              then if sets
                then connect c e
                    (record start { phase = connecting; pcap_handle = true; fp = true })
                else record start { phase = ended (pos 2); pcap_handle = true; fp = true }
              else record start { phase = ended (pos 2); pcap_handle = true }
            else record start { phase = ended (pos 2) })
    go true true true r =
        connect-Status c e (record start { phase = connecting; pcap_handle = true; fp = true }) r
          refl refl
    go true true false r = not_ready r refl refl refl
    go true false sets r = not_ready r refl refl refl
    go false compiles sets r = not_ready r refl refl refl
