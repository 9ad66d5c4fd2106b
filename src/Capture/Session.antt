-- ===== src/Capture/Session.antt =====
-- `main` of Csi/csiutil.c behind `argp_parse`, as a step relation: what the system and libpcap answer,
-- and which packets arrive, is a choice of the environment.
pub mod Invariant
pub mod Termination
pub mod Run
mod Tests
use app_loctag.Base.{
  ℕ, zero, suc, ◌≡◌, Bool, true, false, List, [], ◌∷◌, ◌++◌, Option, none, some, ◌>>=◌, Bytes, ℤ,
  pos, negsuc,
}
use app_loctag.Capture.Options.{Config, forwarding, has_mode}
use app_loctag.Capture.Event.{Event}
use app_loctag.Capture.Packet.{got_packet}

-- The call that is next. `capturing` counts the packets that `pcap_loop` still waits for, if it does
-- not wait for ever; `ended` has the status that `main` returns, and `crashed` is a read or write
-- outside of memory. `got` is the packets that `got_packet` was called for, with their lengths.
pub data Phase : Type 0 where
  opening compiling installing connecting saving : Phase
  capturing : Option ℕ → Phase
  stopping closing crashed : Phase
  ended : ℤ → Phase

-- `sock_fd`: 0 before it is set; -1 where the socket could not be created or bound; `closed` behind
-- the call of `close` on it.
pub data Socket : Type 0 where
  unset failed connected closed : Socket

-- Whether the handle, the compiled filter and the output file are there; `stop_sent` is set by the call
-- of `sendto` with the stop message.
pub record State : Type 0 where
  pub phase : Phase
  pub pcap_handle : Bool
  pub fp : Bool
  pub output_file : Bool
  pub sock_fd : Socket
  pub stop_sent : Bool
  pub trace : List Event
  pub got : List (Bytes × ℕ)

abbrev pub start : State
start = record {
  phase = opening;
  pcap_handle = false;
  fp = false;
  output_file = false;
  sock_fd = unset;
  stop_sent = false;
  trace = [];
  got = [];
}

-- A count that is not positive is no limit for `pcap_loop`.
unfoldable pub limit_of : ℤ → Option ℕ
limit_of (pos zero) = none
limit_of (pos (suc n)) = some (suc n)
limit_of (negsuc n) = none

-- The limit behind a packet, and whether another packet is waited for.
abbrev pub one_less : Option ℕ → Option ℕ
one_less (some (suc n)) = some n
one_less (some zero) = some zero
one_less none = none

abbrev pub waits : Option ℕ → Bool
waits (some (suc n)) = true
waits (some zero) = false
waits none = true

-- A text that is there and not empty: `strlen` of NULL crashes.
unfoldable pub names_file : Option Bytes → Option Bool
names_file (some []) = some false
names_file (some (c ∷ text)) = some true
names_file none = none

module _ (c : Config) where
  pub data Step : State → State → Type 0 where
    open_fails : (s : State) → s.phase ≡ opening → Step s (record s { phase = ended (pos 2) })
    opens :
        (s : State)
        → s.phase ≡ opening
        → Step s (record s { phase = compiling; pcap_handle = true })
    compile_fails : (s : State) → s.phase ≡ compiling → Step s (record s { phase = ended (pos 2) })
    compiles :
        (s : State) → s.phase ≡ compiling → Step s (record s { phase = installing; fp = true })
    install_fails : (s : State) → s.phase ≡ installing → Step s (record s { phase = ended (pos 2) })
    installs : (s : State) → s.phase ≡ installing → Step s (record s { phase = connecting })
    connects :
        (s : State)
        → s.phase ≡ connecting
        → has_mode c forwarding ≡ true
        → Step s (record s { phase = saving; sock_fd = connected })
    connect_fails :
        (s : State)
        → s.phase ≡ connecting
        → has_mode c forwarding ≡ true
        → Step s (record s { phase = saving; sock_fd = failed })
    needs_no_socket :
        (s : State)
        → s.phase ≡ connecting
        → has_mode c forwarding ≡ false
        → Step s (record s { phase = saving })
    no_file_name :
        (s : State)
        → s.phase ≡ saving
        → names_file c.filepath ≡ none
        → Step s (record s { phase = crashed })
    needs_no_file :
        (s : State)
        → s.phase ≡ saving
        → names_file c.filepath ≡ some false
        → Step s (record s { phase = capturing (limit_of c.num_packets) })
    save_fails :
        (s : State)
        → s.phase ≡ saving
        → names_file c.filepath ≡ some true
        → Step s (record s { phase = ended (negsuc 0) })
    saves :
        (s : State)
        → s.phase ≡ saving
        → names_file c.filepath ≡ some true
        → Step s (record s { phase = capturing (limit_of c.num_packets); output_file = true })
    gets :
        (s : State) (left : Option ℕ) (packet : Bytes) (len : ℕ) (events : List Event)
        → s.phase ≡ capturing left
        → waits left ≡ true
        → got_packet c s.output_file packet len ≡ some events
        → Step s (record s {
          phase = capturing (one_less left);
          trace = s.trace ++ events;
          got = s.got ++ (packet, len) ∷ [];
        })
    faults :
        (s : State) (left : Option ℕ) (packet : Bytes) (len : ℕ)
        → s.phase ≡ capturing left
        → waits left ≡ true
        → got_packet c s.output_file packet len ≡ none
        → Step s (record s { phase = crashed })
    loop_returns :
        (s : State) (left : Option ℕ)
        → s.phase ≡ capturing left
        → Step s (record s { phase = stopping })
    stops :
        (s : State)
        → s.phase ≡ stopping
        → has_mode c forwarding ≡ true
        → Step s (record s { phase = closing; sock_fd = closed; stop_sent = true })
    stops_nothing :
        (s : State)
        → s.phase ≡ stopping
        → has_mode c forwarding ≡ false
        → Step s (record s { phase = closing })
    closes_null :
        (s : State)
        → s.phase ≡ closing
        → s.output_file ≡ false
        → Step s (record s { phase = crashed })
    closes :
        (s : State)
        → s.phase ≡ closing
        → s.output_file ≡ true
        → Step s (record s {
          phase = ended (pos 0);
          pcap_handle = false;
          fp = false;
          output_file = false;
        })

  -- The states of a run.
  pub data Reach : State → Type 0 where
    here : Reach start
    next : {s t : State} → Reach s → Step s t → Reach t

-- What `got_packet` does for the packets of a list, one after the other.
unfoldable pub run_packets : Config → Bool → List (Bytes × ℕ) → Option (List Event)
unfolding got_packet
run_packets c output_file [] = some []
run_packets c output_file ((packet, len) ∷ rest) = do
  events ← got_packet c output_file packet len
  more ← run_packets c output_file rest
  some (events ++ more)
