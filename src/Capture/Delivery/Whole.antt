-- ===== src/Capture/Delivery/Whole.antt =====
-- A run of csiutil.c that forwards packets whole, as the capture of 802.11 frames does.
use app_loctag.Base.{
  ℕ, zero, suc, ◌≡◌, ◌≤◌, refl, arith, Bool, true, false, some, List, [], ◌∷◌, Bytes, map, length,
  take-all, All, pos,
}
use mathlib.Core.Path.{ap₂}
use app_loctag.Capture.Options.{Config, standalone, forwarding, has_mode}
use app_loctag.Capture.Event.{sends}
use app_loctag.Capture.Packet.{got_packet}
use app_loctag.Capture.Session.{run_packets}
use app_loctag.Capture.Delivery.{datagrams}
use app_loctag.Capture.Delivery.Laws.{SpansOf, then-SpansOf}

-- Packets that are forwarded whole: those of type 0 and, where they are not processed as well, of
-- type 1.
abbrev pub IsWhole : Bytes × ℕ → Type 0
IsWhole (packet, len) = length packet ≡ len

abbrev pub whole_span : Bytes × ℕ → ℕ × ℕ
whole_span (packet, len) = (0, len)

got_packet-whole :
    (c : Config) (output_file : Bool) (packet : Bytes) (len t : ℕ)
    → t ≤ 1
    → c.pkt_type ≡ pos t
    → has_mode c forwarding ≡ true
    → has_mode c standalone ≡ false
    → got_packet c output_file packet len ≡ some (sends 0 len ∷ [])
unfolding got_packet
got_packet-whole c output_file packet len zero small typed on off = rw (typed, on) refl
got_packet-whole c output_file packet len (suc zero) small typed on off = rw (typed, on, off) refl
got_packet-whole c output_file packet len (suc (suc t)) small typed on off = absurd (omega arith)

module _ (c : Config) (t : ℕ) (small : t ≤ 1) (typed : c.pkt_type ≡ pos t)
    (on : has_mode c forwarding ≡ true) (off : has_mode c standalone ≡ false) where
  pub run_packets-whole :
      (output_file : Bool) (arrivals : List (Bytes × ℕ))
      → SpansOf (map whole_span arrivals) (run_packets c output_file arrivals)
  unfolding run_packets
  run_packets-whole output_file [] = ([], refl, refl)
  run_packets-whole output_file ((packet, len) ∷ arrivals) =
      then-SpansOf
        (sends 0 len ∷ [], got_packet-whole c output_file packet len t small typed on off, refl)
        (run_packets-whole output_file arrivals)

pub datagrams-whole :
    (arrivals : List (Bytes × ℕ))
    → All IsWhole arrivals
    → datagrams arrivals (map whole_span arrivals) ≡ map (λ arrival. arrival.0) arrivals
datagrams-whole [] ok = refl
datagrams-whole ((packet, len) ∷ arrivals) (first, rest) =
    ap₂ (λ (d : Bytes) (more : List Bytes). d ∷ more) (take-all len packet (omega (arith, first)))
      (datagrams-whole arrivals rest)
