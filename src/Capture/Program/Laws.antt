-- ===== src/Capture/Program/Laws.antt =====
-- A command line of Csi/csiutil.c that makes it forward CSI.
use app_loctag.Base.{
  Bool, ℕ, suc, ◌≡◌, ◌≤◌, refl, sym, ap, ◌∙◌, ◌⊎◌, inl, inr, true, false, List, ◌∷◌, some, Bytes,
  map, length, length-map, All, pos,
}
use mathlib.Core.Bool.{false≢true}
use app_loctag.Libc.Argp.{
  Call, IsCall, Parsed, parsed, unknown, faults, parse_all, last_arg, last_text, arg_or,
}
use app_loctag.Libc.Argp.Laws.{any_missing, Parses, crashes, reads}
use app_loctag.Capture.Options.{
  Config, defaults, options, parse_opt, standalone, forwarding, has_mode,
}
use app_loctag.Capture.Options.Laws.{is_missing, number, Lasts, parse_all-Parses}
use app_loctag.Capture.Session.{State, limit_of, names_file, run_packets}
use app_loctag.Capture.Session.Run.{Environment, Fits, handed, handed-whole, main}
use app_loctag.Capture.Session.Run.Ends.{AnswersWell, finished}
use app_loctag.Capture.Delivery.{Frame, IsFrame, payload, arrival, spans, datagrams, IsRead}
use app_loctag.Capture.Delivery.Laws.{SpansOf, span}
use app_loctag.Capture.Delivery.Run.{
  main-datagrams, run_packets-SpansOf, datagrams-payload, All-IsRead,
}
use app_loctag.Capture.Delivery.Whole.{IsWhole, whole_span, run_packets-whole, datagrams-whole}
use app_loctag.Capture.Program.{Outcome, usage, crashed_early, ran, csiutil}

-- The last -t is the number `t`, the last -m has the bit of the forwarding mode and the bits `mode`,
-- the last -n is the number of packets, no number is without an argument, and the last -o names a
-- file, or no file is to be saved.
pub record Forwards (calls : List Call) (t mode count : ℕ) (saved : Bool) : Type 0 where
  pub calls_options : All (IsCall options) calls
  pub given : any_missing is_missing calls ≡ false
  pub type_text : Bytes
  pub typed : last_text b't' calls ≡ some type_text
  pub type_number : number type_text ≡ pos t
  pub mode_text : Bytes
  pub moded : last_text b'm' calls ≡ some mode_text
  pub mode_number : number mode_text ≡ pos mode
  pub num_text : Bytes
  pub numbered : last_text b'n' calls ≡ some num_text
  pub num_number : number num_text ≡ pos (suc count)
  pub filed : names_file (arg_or defaults.filepath (last_arg b'o' calls)) ≡ some saved

-- A run with these datagrams, in which the stop message is sent, and the end is status 0 if the
-- packets are saved, and the crash of `pcap_dump_close` if not.
pub record Delivers (saved : Bool) (sent : List Bytes) (outcome : Outcome) : Type 0 where
  pub final : State
  pub runs : outcome ≡ ran final
  pub ends : final.phase ≡ finished saved
  pub told : final.stop_sent ≡ true
  pub delivered : datagrams final.got (spans final.trace) ≡ sent

-- What such a command line makes of the globals, and of a run with them.
module _ {calls : List Call} {t mode count : ℕ} {saved : Bool}
    (f : Forwards calls t mode count saved) where
  module _ {c : Config} (v : Lasts defaults calls c) where
    type_set : c.pkt_type ≡ pos t
    type_set = v.pkt_type ∙ rw (f.typed, f.type_number) refl

    mode_set : c.mode ≡ pos mode
    mode_set = v.mode ∙ rw (f.moded, f.mode_number) refl

    limit_set : limit_of c.num_packets ≡ some (suc count)
    unfolding limit_of
    limit_set = rw (v.num_packets, f.numbered, f.num_number) refl

    file_set : names_file c.filepath ≡ some saved
    file_set = rw v.filepath f.filed

  csiutil-Delivers_if :
      (e : Environment) (sent : List Bytes)
      → ((c : Config) → Lasts defaults calls c → Delivers saved sent (ran (main c e)))
      → Delivers saved sent (csiutil calls e)
  unfolding csiutil
  csiutil-Delivers_if e sent k =
      go (parse_all parse_opt defaults calls) (parse_all-Parses defaults calls f.calls_options)
    where
      go :
          (p : Parsed Config)
          → Parses is_missing Lasts defaults calls p
          → Delivers saved sent
              (elim p [ parsed c ↦ ran (main c e) | unknown ↦ usage | faults ↦ crashed_early ])
      go p (crashes missing) = absurd (false≢true (sym f.given ∙ missing))
      go p (reads given c v) = k c v

  -- The run behind the options, where `got_packet` forwards `out`.
  main-Delivers :
      (e : Environment) (arrivals : List (Bytes × ℕ)) (out : List (ℕ × ℕ)) (sent : List Bytes)
      (c : Config)
      → AnswersWell e
      → handed e ≡ arrivals
      → length arrivals ≡ suc count
      → Lasts defaults calls c
      → has_mode c forwarding ≡ true
      → SpansOf out (run_packets c saved arrivals)
      → datagrams arrivals out ≡ sent
      → Delivers saved sent (ran (main c e))
  main-Delivers e arrivals out sent c well arrive counted v on spanned cut =
      let (ends, told, delivered) =
        main-datagrams c e arrivals out saved well arrive spanned
          (limit_set v ∙ ap some (sym counted)) (file_set v) in
      record {
        final = main c e;
        runs = refl;
        ends = ends;
        told = told ∙ on;
        delivered = delivered ∙ cut;
      }

-- A mode with the bit of forwarding.
forwarding_mode :
    (c : Config) (mode : ℕ)
    → (mode ≡ 2) ⊎ (mode ≡ 3)
    → c.mode ≡ pos mode
    → has_mode c forwarding ≡ true
unfolding has_mode
forwarding_mode c mode (inl two) e = rw (e, two) refl
forwarding_mode c mode (inr three) e = rw (e, three) refl

only_forwarding : (c : Config) → c.mode ≡ pos 2 → has_mode c standalone ≡ false
unfolding has_mode
only_forwarding c e = rw e refl

-- For a command line of the options of csiutil without a number that has no argument, whose last t
-- is the number 2, last m the number 2 or 3, and last n the number of the packets that arrive,
-- where every call of main succeeds but perhaps those of the socket, and each packet, of at least
-- one, is 42 bytes of headers, a CSI header whose bit fields fit and 64, 128 or 256 elements, and
-- is not longer than BUFSIZ, the snapshot length that main asks for, the datagrams that csiutil
-- gives to sendto are the payloads of all packets in their order, the stop message is given to
-- sendto, the program ends with status 0 if the last o names a file, and crashes in
-- pcap_dump_close if there is no o or its argument is the empty text, and buffToCsi4339 reads each
-- payload with status 0, the fields and the elements as signed numbers.
pub csiutil-Delivers :
    (calls : List Call) (e : Environment) (first : Frame) (frames : List Frame) (mode : ℕ)
    (saved : Bool)
    → Forwards calls 2 mode (length frames) saved
    → (mode ≡ 2) ⊎ (mode ≡ 3)
    → AnswersWell e
    → e.arrivals ≡ map arrival (first ∷ frames)
    → All (Fits e.bufsiz) (map arrival (first ∷ frames))
    → All IsFrame (first ∷ frames)
    → Delivers saved (map payload (first ∷ frames)) (csiutil calls e) × All IsRead (first ∷ frames)
csiutil-Delivers calls e first frames mode saved f forwards well arrive fits ok = (
  csiutil-Delivers_if f e (map payload all) (λ c v.
      let on = forwarding_mode c mode forwards (mode_set f v) in
      main-Delivers f e (map arrival all) (map span all) (map payload all) c well
        (handed-whole e (map arrival all) arrive fits) (ap suc (length-map frames arrival)) v on
        (run_packets-SpansOf c saved all ok (type_set f v) on) (datagrams-payload all ok)),
  All-IsRead all ok,
)
  where
    all : List Frame
    all = first ∷ frames

-- For a command line of the options of csiutil without a number that has no argument, whose last n
-- is the number of the packets that arrive, whose last t is the number 0 or 1 and last m the
-- number 2, and for packets of any bytes, of at least one, each as long as its length says and not
-- longer than BUFSIZ, the snapshot length that main asks for, where every call of main succeeds
-- but perhaps those of the socket, the datagrams that csiutil gives to sendto are the packets in
-- their order, the stop message is given to sendto, and the program ends with status 0 if the last
-- o names a file, and crashes in pcap_dump_close if there is no o or its argument is the empty
-- text.
pub csiutil-Delivers_whole :
    (calls : List Call) (e : Environment) (first : Bytes × ℕ) (rest : List (Bytes × ℕ)) (t : ℕ)
    (saved : Bool)
    → Forwards calls t 2 (length rest) saved
    → t ≤ 1
    → AnswersWell e
    → e.arrivals ≡ first ∷ rest
    → All (Fits e.bufsiz) (first ∷ rest)
    → All IsWhole (first ∷ rest)
    → Delivers saved (map (λ arrival. arrival.0) (first ∷ rest)) (csiutil calls e)
csiutil-Delivers_whole calls e first rest t saved f small well arrive fits ok =
    csiutil-Delivers_if f e (map (λ arrival. arrival.0) (first ∷ rest)) (λ c v.
      let on = forwarding_mode c 2 (inl refl) (mode_set f v) in
      main-Delivers f e (first ∷ rest) (map whole_span (first ∷ rest)) _ c well
        (handed-whole e (first ∷ rest) arrive fits) refl v on
        (run_packets-whole c t small (type_set f v) on (only_forwarding c (mode_set f v)) saved
          (first ∷ rest))
        (datagrams-whole (first ∷ rest) ok))
