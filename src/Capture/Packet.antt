-- ===== src/Capture/Packet.antt =====
-- `got_packet` of Csi/csiutil.c, and the packets of a run.
use app_loctag.Base.{
  ℕ, Bool, true, false, List, [], ◌∷◌, Option, some, Bytes, ◌==◌, if◌then◌else◌, pos, negsuc, sub32,
}
use app_loctag.Nexmon.Csi4339.{net_headers_size}
use app_loctag.Capture.Options.{Config, standalone, forwarding, has_mode}
use app_loctag.Capture.Event.{Event, sends, then_events}
use app_loctag.Capture.Csi.{process_csi}
use app_loctag.Capture.Dot11.{process_dot11rt}

-- `if (mode & ...) ...`.
abbrev pub when : Bool → Option (List Event) → Option (List Event)
when true events = events
when false events = some []

unfoldable pub got_packet : Config → Bool → Bytes → ℕ → Option (List Event)
unfolding has_mode process_csi process_dot11rt
got_packet c output_file packet len =
    let whole = when (has_mode c forwarding) (some (sends 0 len ∷ [])) in
    let payload =
      when (has_mode c forwarding)
        (some (sends net_headers_size (sub32 len net_headers_size) ∷ [])) in
    elim c.pkt_type [
      | pos n ↦
          if n == 0
          then whole
          else if n == 1
          then then_events (when (has_mode c standalone) (process_dot11rt c output_file packet len))
              whole
          else if n == 2
          then then_events (when (has_mode c standalone) (process_csi c output_file packet len))
              payload
          else some []
      | negsuc n ↦ some []
    ]
