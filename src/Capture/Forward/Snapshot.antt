-- ===== src/Capture/Forward/Snapshot.antt =====
-- What `got_packet` of Csi/csiutil.c forwards of a packet that libpcap has cut: the snapshot length that
-- `main` gives to `pcap_open_live` is BUFSIZ, a constant of the C library, and `got_packet` uses the
-- length of the packet on the wire.
use app_loctag.Base.{
  ℕ, ◌+◌, ◌≤◌, ◌<◌, ◌^◌, ◌≡◌, sym, ap, ◌↔◌, ◌⊎◌, inl, inr, Bool, true, false, List, [], ◌∷◌, ◌++◌,
  Option, some, >>=-eq-some, arith, Bytes, take, take-all, length, length-take, All, ◌==◌,
  if◌then◌else◌, ℤ, pos, negsuc, sub32,
}
use mathlib.Core.Bool.{false≢true}
use mathlib.Core.Path.{subst}
use mathlib.Core.Option.{some-injective}
use app_loctag.Capture.Options.{Config, forwarding, has_mode}
use app_loctag.Capture.Event.{Event, sends, then_events}
use app_loctag.Capture.Packet.{when, got_packet}
use app_loctag.Capture.Forward.{SendsWithin, EachWithin, got_packet-EachWithin}

-- The bytes that are captured of a packet: at most as many as the snapshot length.
abbrev pub captured : ℕ → Bytes → Bytes
captured snaplen wire = take snaplen wire

-- The types of packets that are forwarded.
abbrev pub IsForwardedType : ℤ → Type 0
IsForwardedType t = (t ≡ pos 0) ⊎ ((t ≡ pos 1) ⊎ (t ≡ pos 2))

-- The last event is a call of `sendto` with the bytes up to an end.
pub record SendsUpTo (end : ℕ) (events : List Event) : Type 0 where
  before : List Event
  offset : ℕ
  size : ℕ
  parts : events ≡ before ++ sends offset size ∷ []
  up_to : offset + size ≡ end

All-last :
    (end : ℕ) (before : List Event) (e : Event)
    → All (SendsWithin end) (before ++ e ∷ [])
    → SendsWithin end e
All-last end [] e (h, rest) = h
All-last end (first ∷ before) e (h, rest) = All-last end before e rest

SendsUpTo-within :
    (end len : ℕ) (events : List Event)
    → SendsUpTo end events
    → All (SendsWithin len) events
    → end ≤ len
SendsUpTo-within end len events v all =
    let last : v.offset + v.size ≤ len =
      All-last len v.before (sends v.offset v.size) (subst (All (SendsWithin len)) v.parts all) in
    omega (arith, last, v.up_to)

-- The parts of `got_packet` that end in a call of `sendto`.
alone :
    (end : ℕ) (on : Bool) (offset size : ℕ) (events : List Event)
    → on ≡ true
    → offset + size ≡ end
    → when on (some (sends offset size ∷ [])) ≡ some events
    → SendsUpTo end events
alone end true offset size events on e h = record {
  before = [];
  offset = offset;
  size = size;
  parts = sym (some-injective _ _ h);
  up_to = e;
}
alone end false offset size events on e h = absurd (false≢true on)

behind :
    (end : ℕ) (first : Option (List Event)) (on : Bool) (offset size : ℕ) (events : List Event)
    → on ≡ true
    → offset + size ≡ end
    → then_events first (when on (some (sends offset size ∷ []))) ≡ some events
    → SendsUpTo end events
behind end first true offset size events on e h =
    let (xs, f, k) = >>=-eq-some first _ h in
    record {
      before = xs;
      offset = offset;
      size = size;
      parts = sym (some-injective _ _ k);
      up_to = e;
    }
behind end first false offset size events on e h = absurd (false≢true on)

by_type :
    (end : ℕ) (t : ℤ) {whole dot11 csi : Option (List Event)} {events : List Event}
    → IsForwardedType t
    → (whole ≡ some events → SendsUpTo end events)
    → (dot11 ≡ some events → SendsUpTo end events)
    → (csi ≡ some events → SendsUpTo end events)
    → elim t [
      | pos n ↦ if n == 0 then whole else if n == 1 then dot11 else if n == 2 then csi else some []
      | negsuc n ↦ some []
    ]
      ≡ some events
    → SendsUpTo end events
by_type end t (inl e) hw hd hc h = hw (rw e at h)
by_type end t (inr (inl e)) hw hd hc h = hd (rw e at h)
by_type end t (inr (inr e)) hw hd hc h = hc (rw e at h)

got_packet-SendsUpTo :
    (c : Config) (output_file : Bool) (packet : Bytes) (len : ℕ) (events : List Event)
    → IsForwardedType c.pkt_type
    → has_mode c forwarding ≡ true
    → 42 ≤ len
    → len < 2 ^ 32
    → got_packet c output_file packet len ≡ some events
    → SendsUpTo len events
unfolding got_packet
got_packet-SendsUpTo c output_file packet len events t on headers small h =
    by_type len c.pkt_type t (alone len (has_mode c forwarding) 0 len events on (omega arith))
      (behind len _ (has_mode c forwarding) 0 len events on (omega arith))
      (behind len _ (has_mode c forwarding) 42 (sub32 len 42) events on (omega arith)) h

-- For a packet of at least 42 bytes and less than 2 ^ 32, of type 0, 1 or 2 in forwarding mode, of
-- which a snapshot length of bytes is captured, and for which got_packet, given the length of the
-- packet, reads no byte that is not captured, what it sends are captured bytes exactly if the
-- packet is not longer than the snapshot length.
pub snapshot-SendsWithin :
    (c : Config) (output_file : Bool) (snaplen : ℕ) (wire : Bytes) (events : List Event)
    → IsForwardedType c.pkt_type
    → has_mode c forwarding ≡ true
    → 42 ≤ length wire
    → length wire < 2 ^ 32
    → got_packet c output_file (captured snaplen wire) (length wire) ≡ some events
    → All (SendsWithin (length (captured snaplen wire))) events ↔ (length wire ≤ snaplen)
snapshot-SendsWithin c output_file snaplen wire events t on headers small h = (there, back)
  where
    sent : SendsUpTo (length wire) events
    sent =
        got_packet-SendsUpTo c output_file (captured snaplen wire) (length wire) events t on headers
          small h

    there : All (SendsWithin (length (captured snaplen wire))) events → length wire ≤ snaplen
    there all = omega (
      arith,
      SendsUpTo-within (length wire) (length (captured snaplen wire)) events sent all,
      length-take snaplen wire,
    )

    back : length wire ≤ snaplen → All (SendsWithin (length (captured snaplen wire))) events
    back fits =
        let whole : length (captured snaplen wire) ≡ length wire =
          ap (λ (b : Bytes). length b) (take-all snaplen wire fits) in
        subst (λ n. All (SendsWithin n) events) (sym whole)
          (subst (EachWithin (length wire)) h (
            got_packet-EachWithin c output_file (captured snaplen wire) (length wire) headers
              small))
