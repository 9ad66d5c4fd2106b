-- ===== src/Capture/Session/Run/Ends.antt =====
-- With an environment that answers well, `main` of Csi/csiutil.c gets the packets it was asked for, and
-- ends with status 0 if it saves them.
use app_loctag.Base.{
  ℕ, zero, suc, ◌≤◌, ◌≡◌, refl, sym, ◌∙◌, arith, Bool, true, false, List, [], ◌∷◌, ◌++◌,
  append_assoc, append-nil, length, take, some, >>=-eq-some, Bool-cases, inl, inr, Bytes, pos,
}
use mathlib.Core.Path.{subst}
use mathlib.Core.Option.{some-injective}
use app_loctag.Capture.Options.{Config, forwarding, has_mode}
use app_loctag.Capture.Event.{Event}
use app_loctag.Capture.Packet.{got_packet}
use app_loctag.Capture.Session.{
  Phase, saving, capturing, stopping, closing, crashed, ended, closed, State, start, limit_of,
  names_file, run_packets,
}
use app_loctag.Capture.Session.Run.{
  Environment, handed, after_packet, capture, close, stop, loop, save, create_udp_send_socket,
  connect, main,
}

-- An environment in which every call succeeds but perhaps that of the socket.
pub record AnswersWell (e : Environment) : Type 0 where
  pub live : e.opens_live ≡ true
  pub filter : e.compiles_filter ≡ true
  pub set : e.sets_filter ≡ true
  pub dump : e.opens_dump ≡ true

capture_all :
    (c : Config) (s : State) (n : ℕ) (arrivals : List (Bytes × ℕ)) {events : List Event}
    → n ≤ length arrivals
    → run_packets c s.output_file (take n arrivals) ≡ some events
    → capture c s (some n) arrivals
      ≡ record s { phase = stopping; trace = s.trace ++ events; got = s.got ++ take n arrivals }
unfolding capture run_packets
capture_all c s zero [] few h =
    rw (sym (some-injective _ _ h), append-nil s.trace, append-nil s.got) refl
capture_all c s zero (first ∷ rest) few h =
    rw (sym (some-injective _ _ h), append-nil s.trace, append-nil s.got) refl
capture_all c s (suc n) [] few h = absurd (omega arith)
capture_all c s (suc n) ((packet, len) ∷ rest) {events} few h =
    let (xs, e1, k) = >>=-eq-some (got_packet c s.output_file packet len) _ h in
    let (ys, e2, same) = >>=-eq-some (run_packets c s.output_file (take n rest)) _ k in
    rw
      (
        e1,
        capture_all c (after_packet s (some (suc n)) packet len xs) n rest (omega arith) e2,
        sym (some-injective _ _ same),
      )
      (rw (append_assoc s.trace xs ys, append_assoc s.got ((packet, len) ∷ []) (take n rest)) refl)

-- How `main` ends behind the loop: `pcap_dump_close` crashes where there is no output file.
abbrev pub finished : Bool → Phase
finished true = ended (pos 0)
finished false = crashed

-- The end of a run, with the stop message sent or not.
pub record Ends (saved told : Bool) (got : List (Bytes × ℕ)) (events : List Event) (s : State)
    : Type 0 where
  pub phase : s.phase ≡ finished saved
  pub told_stop : s.stop_sent ≡ told
  pub got_all : s.got ≡ got
  pub did : s.trace ≡ events

close-Ends :
    (saved told : Bool) (got : List (Bytes × ℕ)) (events : List Event) (s : State)
    → s.output_file ≡ saved
    → s.stop_sent ≡ told
    → s.got ≡ got
    → s.trace ≡ events
    → Ends saved told got events (close s)
unfolding close
close-Ends true told got events s f m g t =
    rw f (record { phase = refl; told_stop = m; got_all = g; did = t })
close-Ends false told got events s f m g t =
    rw f (record { phase = refl; told_stop = m; got_all = g; did = t })

stop-Ends :
    (c : Config) (saved : Bool) (got : List (Bytes × ℕ)) (events : List Event) (s : State)
    → s.output_file ≡ saved
    → s.stop_sent ≡ false
    → s.got ≡ got
    → s.trace ≡ events
    → Ends saved (has_mode c forwarding) got events (stop c s)
unfolding stop
stop-Ends c saved got events s f m g t = elim (Bool-cases (has_mode c forwarding)) [
  | inl on ↦ rw on (
      close-Ends saved true got events
        (record s { phase = closing; sock_fd = closed; stop_sent = true }) f refl g t)
  | inr off ↦ rw off (close-Ends saved false got events (record s { phase = closing }) f m g t)
]

-- What is behind the loop, for a state and for an equal one.
abbrev behind : Config → State → State
behind c t = elim t.phase [ stopping ↦ stop c t | _ ↦ t ]

module _ (c : Config) (e : Environment) (n : ℕ) (saved : Bool) {events : List Event}
    (few : n ≤ length (handed e))
    (processed : run_packets c saved (take n (handed e)) ≡ some events)
    (limit : limit_of c.num_packets ≡ some n) (file : names_file c.filepath ≡ some saved) where
  looped :
      (s : State)
      → s.output_file ≡ saved
      → capture c
          (record s { phase = capturing (limit_of c.num_packets) })
          (limit_of c.num_packets)
          (handed e)
        ≡ record s { phase = stopping; trace = s.trace ++ events; got = s.got ++ take n (handed e) }
  looped s f =
      rw limit
        (capture_all c (record s { phase = capturing (some n) }) n (handed e) few (rw f processed))

  -- Behind the packets of a run that has done nothing yet.
  abbrev EndsBehind : State → Type 0
  EndsBehind = Ends saved (has_mode c forwarding) (take n (handed e)) events

  loop-Ends :
      (s : State)
      → s.output_file ≡ saved
      → s.stop_sent ≡ false
      → s.got ≡ []
      → s.trace ≡ []
      → EndsBehind (loop c s (handed e))
  unfolding loop
  loop-Ends s f m g t =
      subst (λ u. EndsBehind (behind c u)) (sym (looped s f))
        (stop-Ends c saved (take n (handed e)) events
          (record s {
            phase = stopping;
            trace = s.trace ++ events;
            got = s.got ++ take n (handed e);
          })
          f m (rw g refl) (rw t refl))

  save-Ends :
      (s : State)
      → s.output_file ≡ false
      → e.opens_dump ≡ true
      → s.stop_sent ≡ false
      → s.got ≡ []
      → s.trace ≡ []
      → EndsBehind (save c e s)
  unfolding save
  save-Ends s f d m g t = go saved file refl
    where
      go :
          (named : Bool)
          → names_file c.filepath ≡ some named
          → named ≡ saved
          → EndsBehind (save c e s)
      go true name same =
          rw (name, d, save) (loop-Ends (record s { output_file = true }) same m g t)
      go false name same = rw (name, save) (loop-Ends s (f ∙ same) m g t)

  told_as :
      {told : Bool} {s : State}
      → has_mode c forwarding ≡ told
      → EndsBehind s
      → Ends saved told (take n (handed e)) events s
  told_as {s = s} m ends = subst (λ told. Ends saved told (take n (handed e)) events s) m ends

  -- Where the device, the filter and the output file can be opened, -n is a positive n, n packets
  -- arrive and got_packet reads and writes only memory of what is captured of them, as many bytes
  -- as BUFSIZ says, main of csiutil gets exactly these packets, cut to BUFSIZ, and does what
  -- got_packet does for each of them, gives the stop message to sendto if and only if the mode is
  -- forwarding, and returns 0 if -o names a file and crashes in pcap_dump_close if the name is
  -- empty, whether the socket could be made or not.
  pub main-Ends : AnswersWell e → EndsBehind (main c e)
  unfolding main connect
  main-Ends a = elim (Bool-cases (has_mode c forwarding)) [
    | inl m ↦
        simp (a.live, a.filter, a.set, m)
          (told_as m (
            save-Ends
              (record start {
                phase = saving;
                pcap_handle = true;
                fp = true;
                sock_fd = create_udp_send_socket e.makes_socket e.binds_socket;
              })
              refl a.dump refl refl refl))
    | inr m ↦
        simp (a.live, a.filter, a.set, m)
          (told_as m (
            save-Ends (record start { phase = saving; pcap_handle = true; fp = true }) refl a.dump
              refl refl refl))
  ]
