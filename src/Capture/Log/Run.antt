-- ===== src/Capture/Log/Run.antt =====
-- What a run of Csi/csiutil.c prints of the frames that it captures.
use app_loctag.Base.{
  ℕ, ◌≡◌, refl, sym, ap, ◌∙◌, arith, Bool, true, false, List, [], ◌∷◌, ◌++◌, append_assoc,
  append-nil, some, Bytes, map, length, take-all, All, pos, length-map,
}
use mathlib.Core.Path.{subst}
use app_loctag.Nexmon.Dot11Rt.Sent.{SentFrame, frame_arrival, frame_bytes}
use app_loctag.Jni.Dot11Rt.Sent.{IsSentFrame}
use app_loctag.Capture.Options.{Config, standalone, forwarding, has_mode}
use app_loctag.Capture.Event.{Event, sends, logs}
use app_loctag.Capture.Packet.{got_packet, when}
use app_loctag.Capture.Dot11.{process_dot11rt}
use app_loctag.Capture.Session.{limit_of, names_file, run_packets}
use app_loctag.Capture.Session.Run.{Environment, Fits, handed, handed-whole, main}
use app_loctag.Capture.Session.Run.Ends.{AnswersWell, finished, main-Ends}
use app_loctag.Capture.Log.{line, output}
use app_loctag.Capture.Log.Main.{filter_line, complete_line, printed_by, main_output}
use app_loctag.Capture.Log.Address.{read_address_line}
use app_loctag.Capture.Log.Frames.{
  IsOfOctets, PrintsFrame, address_of, named_of, process_dot11rt-PrintsFrame,
}

-- A text that is read as lines about frames, in their order, and what stands behind them.
pub data Lines : List SentFrame → Bytes → Bytes → Type 0 where
  no_more : (rest : Bytes) → Lines [] rest rest
  one_more :
      (f : SentFrame) (frames : List SentFrame) (text more rest : Bytes)
      → read_address_line text ≡ some (address_of f, named_of f ++ more)
      → Lines frames more rest
      → Lines (f ∷ frames) text rest

output-append :
    (buff : Bytes) (xs ys : List Event) → output buff (xs ++ ys) ≡ output buff xs ++ output buff ys
unfolding output
output-append buff [] ys = refl
output-append buff (e ∷ xs) ys =
    rw (output-append buff xs ys)
      (sym (append_assoc (line buff e) (output buff xs) (output buff ys)))

-- What is sent of a packet, which prints nothing.
forwarded : Bool → ℕ → List Event
forwarded true len = sends 0 len ∷ []
forwarded false len = []

output-forwarded :
    (buff : Bytes) (events : List Event) (forward : Bool) (len : ℕ)
    → output buff (events ++ forwarded forward len) ≡ output buff events
unfolding output line forwarded
output-forwarded buff events true len =
    output-append buff events (sends 0 len ∷ []) ∙ append-nil (output buff events)
output-forwarded buff events false len =
    output-append buff events [] ∙ append-nil (output buff events)

when-forwarded :
    (forward : Bool) (len : ℕ)
    → when forward (some (sends 0 len ∷ [])) ≡ some (forwarded forward len)
unfolding forwarded
when-forwarded true len = refl
when-forwarded false len = refl

module _ (c : Config) (buff : Bytes) (typed : c.pkt_type ≡ pos 1)
    (on : has_mode c standalone ≡ true) (loud : logs c 1 ≡ true) where
  got_packet-dot11 :
      (saved : Bool) (packet : Bytes) (len : ℕ) {events : List Event}
      → process_dot11rt c saved packet len ≡ some events
      → got_packet c saved packet len ≡ some (events ++ forwarded (has_mode c forwarding) len)
  unfolding got_packet
  got_packet-dot11 saved packet len done =
      rw (typed, on, when-forwarded (has_mode c forwarding) len) (rw done refl)

  -- What `got_packet` prints of a frame, whether it forwards it or not.
  got_packet-PrintsFrame :
      (f : SentFrame) (saved : Bool)
      → IsSentFrame f
      → IsOfOctets f
      → PrintsFrame buff f (got_packet c saved (frame_bytes f) (length (frame_bytes f)))
  got_packet-PrintsFrame f saved ok octets = record {
    events = printed.events ++ forwarded (has_mode c forwarding) len;
    done = got_packet-dot11 saved (frame_bytes f) len printed.done;
    read_back = λ more.
        rw (output-forwarded buff printed.events (has_mode c forwarding) len)
          (printed.read_back more);
  }
    where
      len : ℕ
      len = length (frame_bytes f)

      printed : PrintsFrame buff f (process_dot11rt c saved (frame_bytes f) len)
      printed =
          subst (λ b. PrintsFrame buff f (process_dot11rt c saved b len))
            (append-nil (frame_bytes f))
            (process_dot11rt-PrintsFrame c f [] len saved buff ok octets loud (omega arith))

  run_packets-Lines :
      (frames : List SentFrame) (saved : Bool)
      → All IsSentFrame frames
      → All IsOfOctets frames
      → (events : List Event) × (run_packets c saved (map frame_arrival frames) ≡ some events)
        × ((rest : Bytes) → Lines frames (output buff events ++ rest) rest)
  unfolding run_packets output
  run_packets-Lines [] saved ok octets = ([], refl, no_more)
  run_packets-Lines (f ∷ frames) saved (ok, oks) (octets, all_octets) =
      let first = got_packet-PrintsFrame f saved ok octets in
      let (events, e, lines) = run_packets-Lines frames saved oks all_octets in
      (
        first.events ++ events,
        rw (first.done, e) refl,
        λ rest.
            rw
              (
                output-append buff first.events events,
                append_assoc (output buff first.events) (output buff events) rest,
              )
              (one_more f frames _ (output buff events ++ rest) rest
                (first.read_back (output buff events ++ rest)) (lines rest)),
      )

-- What stands in front of the lines and behind them: nothing behind where the run ends in the crash of
-- `pcap_dump_close`.
abbrev pub tail_of : Config → Bool → Bytes
tail_of c true = complete_line c
tail_of c false = []

printed_by-finished :
    (c : Config) (saved : Bool) (lines : Bytes)
    → printed_by c (finished saved) lines ≡ filter_line c ++ (lines ++ tail_of c saved)
unfolding printed_by
printed_by-finished c true lines = refl
printed_by-finished c false lines = ap (λ (t : Bytes). filter_line c ++ t) (sym (append-nil lines))

-- Where the packet type is 1, the mode has the bit of standalone, lines are logged, every call of
-- main succeeds but perhaps those of the socket, -n is the number of the packets that arrive, and
-- each packet is a frame as the round trip of buffToDot11Rt takes it, not longer than BUFSIZ, the
-- snapshot length that main asks for, whose two addresses, rate, signal and noise are octets and
-- whose frequency has 16 bits, main of csiutil prints the line about the filter, if it is logged,
-- and then a text that a reader, which uses strtoul for the decimal numbers, reads as one line for
-- each frame, in their order, with the frame's transmitter and receiver, rate, frequency, signal
-- and noise, and the names of its type and subtype and its SSID behind them; behind the lines
-- stands the one that the capture is complete, if it is logged, where -o names a file, and nothing
-- where it names none.
pub main-PrintsLines :
    (c : Config) (e : Environment) (frames : List SentFrame) (saved : Bool) (buff : Bytes)
    → c.pkt_type ≡ pos 1
    → has_mode c standalone ≡ true
    → logs c 1 ≡ true
    → limit_of c.num_packets ≡ some (length frames)
    → names_file c.filepath ≡ some saved
    → AnswersWell e
    → e.arrivals ≡ map frame_arrival frames
    → All (Fits e.bufsiz) (map frame_arrival frames)
    → All IsSentFrame frames
    → All IsOfOctets frames
    → (text : Bytes) × (main_output c buff (main c e) ≡ filter_line c ++ text)
      × Lines frames text (tail_of c saved)
unfolding main_output
main-PrintsLines c e frames saved buff typed on loud limit named well arrive fits ok octets =
    let handed_on = handed-whole e (map frame_arrival frames) arrive fits in
    let (events, run, lines) = run_packets-Lines c buff typed on loud frames saved ok octets in
    let count : length (handed e) ≡ length frames =
      ap (λ (got : List (Bytes × ℕ)). length got) handed_on ∙ length-map frames frame_arrival in
    let all = take-all (length frames) (handed e) (omega (arith, count)) ∙ handed_on in
    let ends =
      main-Ends c e (length frames) saved (omega (arith, count))
        (subst (λ got. run_packets c saved got ≡ some events) (sym all) run) limit named well in
    (
      output buff events ++ tail_of c saved,
      rw (ends.phase, ends.did) (printed_by-finished c saved (output buff events)),
      lines (tail_of c saved),
    )
