-- ===== src/Capture/Session/Run.antt =====
-- `main` of Csi/csiutil.c as a function of what the environment answers.
pub mod Laws
pub mod Ends
pub mod Status
use app_loctag.Base.{
  ℕ, zero, suc, ◌≡◌, Bool, true, false, List, [], ◌∷◌, ◌++◌, Option, none, some, if◌then◌else◌,
  Bytes, ℤ, pos, negsuc, map, take, take-all, length, ◌≤◌, All, refl, ap, ◌∙◌,
}
use mathlib.Core.Path.{ap₂}
use app_loctag.Capture.Options.{Config, forwarding, has_mode}
use app_loctag.Capture.Event.{Event}
use app_loctag.Capture.Packet.{got_packet}
use app_loctag.Capture.Session.{
  Phase, Socket, opening, compiling, installing, connecting, saving, capturing, stopping, closing,
  crashed, ended, unset, failed, connected, closed, State, start, limit_of, one_less, waits,
  names_file,
}

-- The answers of the calls of `main`, and the packets on the wire, with their lengths, that arrive before
-- `pcap_loop` returns by itself. `bufsiz` is the BUFSIZ of the C library, which `main` gives to
-- `pcap_open_live` as the snapshot length.
pub record Environment : Type 0 where
  pub opens_live : Bool
  pub compiles_filter : Bool
  pub sets_filter : Bool
  pub makes_socket : Bool
  pub binds_socket : Bool
  pub opens_dump : Bool
  pub bufsiz : ℕ
  pub arrivals : List (Bytes × ℕ)

-- What libpcap hands to `got_packet`: of each packet as many bytes as the snapshot length, and its length
-- on the wire.
abbrev pub captured : ℕ → Bytes × ℕ → Bytes × ℕ
captured snaplen (packet, len) = (take snaplen packet, len)

abbrev pub handed : Environment → List (Bytes × ℕ)
handed e = map (captured e.bufsiz) e.arrivals

-- A packet that is not cut.
abbrev pub Fits : ℕ → Bytes × ℕ → Type 0
Fits snaplen (packet, len) = length packet ≤ snaplen

map-captured :
    (snaplen : ℕ) (arrivals : List (Bytes × ℕ))
    → All (Fits snaplen) arrivals
    → map (captured snaplen) arrivals ≡ arrivals
map-captured snaplen [] ok = refl
map-captured snaplen ((packet, len) ∷ arrivals) (first, rest) =
    ap₂ (λ (b : Bytes) (more : List (Bytes × ℕ)). (b, len) ∷ more) (take-all snaplen packet first)
      (map-captured snaplen arrivals rest)

pub handed-whole :
    (e : Environment) (arrivals : List (Bytes × ℕ))
    → e.arrivals ≡ arrivals
    → All (Fits e.bufsiz) arrivals
    → handed e ≡ arrivals
handed-whole e arrivals arrive ok =
    ap (map (captured e.bufsiz)) arrive ∙ map-captured e.bufsiz arrivals ok

abbrev pub after_packet : State → Option ℕ → Bytes → ℕ → List Event → State
after_packet s left packet len events = record s {
  phase = capturing (one_less left);
  trace = s.trace ++ events;
  got = s.got ++ (packet, len) ∷ [];
}

-- `pcap_loop`.
unfoldable pub capture : Config → State → Option ℕ → List (Bytes × ℕ) → State
unfolding got_packet
capture c s left [] = record s { phase = stopping }
capture c s left ((packet, len) ∷ rest) =
    if waits left
    then elim (got_packet c s.output_file packet len) [
      | some events ↦ capture c (after_packet s left packet len events) (one_less left) rest
      | none ↦ record s { phase = crashed }
    ]
    else record s { phase = stopping }

unfoldable pub close : State → State
close s =
    if s.output_file
    then record s { phase = ended (pos 0); pcap_handle = false; fp = false; output_file = false }
    else record s { phase = crashed }

unfoldable pub stop : Config → State → State
unfolding close has_mode
stop c s = close (
    if has_mode c forwarding
    then record s { phase = closing; sock_fd = closed; stop_sent = true }
    else record s { phase = closing })

unfoldable pub loop : Config → State → List (Bytes × ℕ) → State
unfolding capture stop limit_of
loop c s arrivals =
    let t =
      capture c (record s { phase = capturing (limit_of c.num_packets) }) (limit_of c.num_packets)
        arrivals in
    elim t.phase [ stopping ↦ stop c t | _ ↦ t ]

unfoldable pub save : Config → Environment → State → State
unfolding loop
save c e s = elim (names_file c.filepath) [
  | none ↦ record s { phase = crashed }
  | some false ↦ loop c s (handed e)
  | some true ↦
      if e.opens_dump
      then loop c (record s { output_file = true }) (handed e)
      else record s { phase = ended (negsuc 0) }
]

-- The descriptor is lost where it cannot be bound.
unfoldable pub create_udp_send_socket : (makes_socket binds_socket : Bool) → Socket
create_udp_send_socket true true = connected
create_udp_send_socket true false = failed
create_udp_send_socket false binds_socket = failed

unfoldable pub connect : Config → Environment → State → State
unfolding save has_mode create_udp_send_socket
connect c e s =
    if has_mode c forwarding
    then save c e (record s {
      phase = saving;
      sock_fd = create_udp_send_socket e.makes_socket e.binds_socket;
    })
    else save c e (record s { phase = saving })

unfoldable pub main : Config → Environment → State
unfolding connect
main c e =
    if e.opens_live
    then if e.compiles_filter
      then if e.sets_filter
        then connect c e (record start { phase = connecting; pcap_handle = true; fp = true })
        else record start { phase = ended (pos 2); pcap_handle = true; fp = true }
      else record start { phase = ended (pos 2); pcap_handle = true }
    else record start { phase = ended (pos 2) }
