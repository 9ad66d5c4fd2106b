-- ===== src/Capture/Session/Invariant.antt =====
-- What holds in every state that a run of Csi/csiutil.c reaches.
use app_loctag.Base.{
  ℕ, zero, ◌+◌, ◌≤◌, ◌≡◌, refl, sym, ap, ◌∙◌, arith, Bool, ◌⊎◌, true, false, List, [], ◌∷◌, ◌++◌,
  append_assoc, append-nil, Option, none, some, >>=-eq-some, Bytes, length, length-append, pos,
}
use mathlib.Core.Option.{some-injective}
use app_loctag.Capture.Options.{Config, forwarding, has_mode}
use app_loctag.Capture.Event.{Event}
use app_loctag.Capture.Packet.{got_packet}
use app_loctag.Capture.Session.{
  Phase, opening, compiling, installing, connecting, saving, capturing, stopping, closing, crashed,
  ended, closed, State, start, limit_of, one_less, waits, names_file, run_packets, Step, open_fails,
  opens, compile_fails, compiles, install_fails, installs, connects, connect_fails, needs_no_socket,
  no_file_name, needs_no_file, save_fails, saves, gets, faults, loop_returns, stops, stops_nothing,
  closes_null, closes, Reach, here, next,
}

-- The option `-o` has a text.
abbrev pub has_file : Config → Bool
has_file c = elim (names_file c.filepath) [ some b ↦ b | none ↦ false ]

abbrev before_loop : Phase → Bool
before_loop opening = true
before_loop compiling = true
before_loop installing = true
before_loop connecting = true
before_loop saving = true
before_loop (capturing left) = false
before_loop stopping = false
before_loop closing = false
before_loop crashed = false
before_loop (ended status) = false

abbrev file_set : Phase → Bool
file_set (capturing left) = true
file_set stopping = true
file_set closing = true
file_set opening = false
file_set compiling = false
file_set installing = false
file_set connecting = false
file_set saving = false
file_set crashed = false
file_set (ended status) = false

abbrev stop_passed : Phase → Bool
stop_passed closing = true
stop_passed (ended (pos zero)) = true
stop_passed _ = false

abbrev finished : Phase → Bool
finished (ended (pos zero)) = true
finished _ = false

-- The packets that `pcap_loop` may still get, where it has a limit.
abbrev remaining : Phase → ℕ
remaining (capturing (some n)) = n
remaining _ = 0

abbrev unlimited : Phase → Bool
unlimited (capturing none) = true
unlimited _ = false

pub record Inv (c : Config) (s : State) : Type 0 where
  pub traced : run_packets c (has_file c) s.got ≡ some s.trace
  pub fresh : before_loop s.phase ≡ true → s.got ≡ []
  pub unsaved : before_loop s.phase ≡ true → s.output_file ≡ false
  pub filed : file_set s.phase ≡ true → s.output_file ≡ has_file c
  pub counted : (n : ℕ) → limit_of c.num_packets ≡ some n → length s.got + remaining s.phase ≤ n
  pub limited : (n : ℕ) → limit_of c.num_packets ≡ some n → unlimited s.phase ≡ false
  pub stopped :
      stop_passed s.phase ≡ true
      → has_mode c forwarding ≡ true
      → (s.stop_sent ≡ true) × (s.sock_fd ≡ closed)
  pub released :
      finished s.phase ≡ true
      → (has_file c ≡ true) × (s.pcap_handle ≡ false) × (s.fp ≡ false) × (s.output_file ≡ false)

run_packets-append :
    (c : Config) (out : Bool) (got : List (Bytes × ℕ)) (packet : Bytes) (len : ℕ)
    {trace events : List Event}
    → run_packets c out got ≡ some trace
    → got_packet c out packet len ≡ some events
    → run_packets c out (got ++ (packet, len) ∷ []) ≡ some (trace ++ events)
unfolding run_packets
run_packets-append c out [] packet len {trace} {events} h g =
    rw (g, sym (some-injective _ _ h)) (ap some (append-nil events))
run_packets-append c out ((first, n) ∷ got) packet len {trace} {events} h g =
    let (xs, e1, k) = >>=-eq-some (got_packet c out first n) _ h in
    let (ys, e2, same) = >>=-eq-some (run_packets c out got) _ k in
    rw (e1, run_packets-append c out got packet len e2 g, sym (some-injective _ _ same))
      (ap some (sym (append_assoc xs ys events)))

-- An option `-o` was given, everything is closed, and in forwarding mode the stop message was sent.
pub record Released (c : Config) (s : State) : Type 0 where
  pub named : has_file c ≡ true
  pub handle : s.pcap_handle ≡ false
  pub filter : s.fp ≡ false
  pub file : s.output_file ≡ false
  pub stop : (has_mode c forwarding ≡ false) ⊎ ((s.stop_sent ≡ true) × (s.sock_fd ≡ closed))

-- A number that is in a limit, if there is one.
abbrev pub IsWithin : Option ℕ → ℕ → Type 0
IsWithin (some limit) n = n ≤ limit
IsWithin none n = Unit

-- A packet uses up one of those that are waited for.
one_less_lem :
    (left : Option ℕ)
    → waits left ≡ true
    → unlimited (capturing left) ≡ false
    → (remaining (capturing (one_less left)) + 1 ≡ remaining (capturing left))
      × (unlimited (capturing (one_less left)) ≡ false)
one_less_lem left w l = ground arith

start-Inv : (c : Config) → Inv c start
unfolding run_packets
start-Inv c = ground arith

Step-Inv : (c : Config) {s t : State} → Step c s t → Inv c s → Inv c t
Step-Inv c (open_fails s p) v = ground arith
Step-Inv c (opens s p) v = ground arith
Step-Inv c (compile_fails s p) v = ground arith
Step-Inv c (compiles s p) v = ground arith
Step-Inv c (install_fails s p) v = ground arith
Step-Inv c (installs s p) v = ground arith
Step-Inv c (connects s p m) v = ground arith
Step-Inv c (connect_fails s p m) v = ground arith
Step-Inv c (needs_no_socket s p m) v = ground arith
Step-Inv c (no_file_name s p f) v = ground arith
Step-Inv c (needs_no_file s p f) v = ground arith
Step-Inv c (save_fails s p f) v = ground arith
Step-Inv c (saves s p f) v = ground arith
Step-Inv c (gets s left packet len events p w g) v =
    let out : s.output_file ≡ has_file c = v.filed (rw p refl) in
    record {
      traced = run_packets-append c (has_file c) s.got packet len v.traced (rw out at g);
      fresh = λ h. absurd (ground arith);
      unsaved = λ h. absurd (ground arith);
      filed = λ h. out;
      counted = λ n l.
          let few = v.counted n l in
          let kept = one_less_lem left w (sym (ap unlimited p) ∙ v.limited n l) in
          omega (arith, rw p at few, kept.0, length-append s.got ((packet, len) ∷ []));
      limited = λ n l. (one_less_lem left w (sym (ap unlimited p) ∙ v.limited n l)).1;
      stopped = λ h. absurd (ground arith);
      released = λ h. absurd (ground arith);
    }
Step-Inv c (faults s left packet len p w g) v = ground arith
Step-Inv c (loop_returns s left p) v = ground arith
Step-Inv c (stops s p m) v = ground arith
Step-Inv c (stops_nothing s p m) v = ground arith
Step-Inv c (closes_null s p o) v = ground arith
Step-Inv c (closes s p o) v = ground arith

pub Reach-Inv : (c : Config) {s : State} → Reach c s → Inv c s
Reach-Inv c here = start-Inv c
Reach-Inv c (next r step) = Step-Inv c step (Reach-Inv c r)

-- In every state that a run of csiutil reaches, the events so far are what got_packet does for the
-- packets that pcap_loop has handed over, in their order and with the output file open if and only
-- if -o names one, and they are at most as many as -n says where that is positive.
pub Reach-run_packets :
    (c : Config) (s : State)
    → Reach c s
    → (run_packets c (has_file c) s.got ≡ some s.trace)
      × IsWithin (limit_of c.num_packets) (length s.got)
Reach-run_packets c s r =
    let v = Reach-Inv c r in
    (v.traced, within (limit_of c.num_packets) (λ n l. omega (arith, v.counted n l)))
  where
    within :
        (limit : Option ℕ)
        → ((n : ℕ) → limit ≡ some n → length s.got ≤ n)
        → IsWithin limit (length s.got)
    within (some n) few = few n refl
    within none few = tt
