-- ===== src/Capture/Delivery/Run.antt =====
-- A run of csiutil.c: every packet with CSI arrives in the Java application as the firmware sent it.
use app_loctag.Base.{
  ℕ, ◌≡◌, refl, sym, ap, ◌∙◌, arith, Bool, true, some, List, [], ◌∷◌, Bytes, map, length, take-all,
  All, pos,
}
use mathlib.Core.Path.{subst, ap₂}
use app_loctag.Capture.Options.{Config, forwarding, has_mode}
use app_loctag.Capture.Session.{limit_of, names_file, run_packets}
use app_loctag.Capture.Session.Run.{Environment, handed, main}
use app_loctag.Capture.Session.Run.Ends.{AnswersWell, finished, main-Ends}
use app_loctag.Capture.Delivery.{Frame, IsFrame, payload, arrival, spans, datagrams, IsRead}
use app_loctag.Capture.Delivery.Laws.{
  SpansOf, span, then-SpansOf, got_packet-SpansOf, payload_cut, payload_read,
}

-- Where every call of `main` succeeds but perhaps those of the socket, the datagrams are those of what
-- `got_packet` forwards of the packets.
pub main-datagrams :
    (c : Config) (e : Environment) (arrivals : List (Bytes × ℕ)) (out : List (ℕ × ℕ)) (saved : Bool)
    → AnswersWell e
    → (handed e) ≡ arrivals
    → SpansOf out (run_packets c saved arrivals)
    → limit_of c.num_packets ≡ some (length arrivals)
    → names_file c.filepath ≡ some saved
    → ((main c e).phase ≡ finished saved)
      × ((main c e).stop_sent ≡ has_mode c forwarding)
      × (datagrams (main c e).got (spans (main c e).trace) ≡ datagrams arrivals out)
main-datagrams c e arrivals out saved well arrive (events, run, spanned) limit named =
    let count : length (handed e) ≡ length arrivals =
      ap (λ (got : List (Bytes × ℕ)). length got) arrive in
    let all = take-all (length arrivals) (handed e) (omega (arith, count)) ∙ arrive in
    let ends =
      main-Ends c e (length arrivals) saved (omega (arith, count))
        (subst (λ got. run_packets c saved got ≡ some events) (sym all) run) limit named well in
    (ends.phase, ends.told_stop, ap₂ datagrams (ends.got_all ∙ all) (ap spans ends.did ∙ spanned))

pub run_packets-SpansOf :
    (c : Config) (output_file : Bool) (frames : List Frame)
    → All IsFrame frames
    → c.pkt_type ≡ pos 2
    → has_mode c forwarding ≡ true
    → SpansOf (map span frames) (run_packets c output_file (map arrival frames))
unfolding run_packets
run_packets-SpansOf c output_file [] ok csi on = ([], refl, refl)
run_packets-SpansOf c output_file (f ∷ frames) (first, rest) csi on =
    then-SpansOf (got_packet-SpansOf c f first output_file csi on)
      (run_packets-SpansOf c output_file frames rest csi on)

pub datagrams-payload :
    (frames : List Frame)
    → All IsFrame frames
    → datagrams (map arrival frames) (map span frames) ≡ map payload frames
datagrams-payload [] ok = refl
datagrams-payload (f ∷ frames) (first, rest) =
    ap (λ (first : Bytes). first ∷ datagrams (map arrival frames) (map span frames))
      (payload_cut f first)
    ∙ ap (λ (more : List Bytes). payload f ∷ more) (datagrams-payload frames rest)

pub All-IsRead : (frames : List Frame) → All IsFrame frames → All IsRead frames
All-IsRead [] ok = tt
All-IsRead (f ∷ frames) (first, rest) = (payload_read f first, All-IsRead frames rest)
