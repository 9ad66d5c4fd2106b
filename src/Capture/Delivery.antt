-- ===== src/Capture/Delivery.antt =====
-- From the firmware to the Java application: the packets with CSI that csiutil.c gets, what it forwards
-- of them, and what JNICsi.c reads in what is forwarded.
pub mod Laws
pub mod Run
pub mod Whole
use app_loctag.Base.{ℕ, ◌+◌, ◌*◌, ◌≡◌, some, List, [], ◌∷◌, ◌++◌, Bytes, map, take, drop, length}
use app_loctag.Nexmon.Csi4339.Laws.{Sent, IsSent, sent_bytes, elems_bytes, header_of, signed_elem}
use app_loctag.Jni.Csi.{CsiObject, filled, buff_to_csi4339}
use app_loctag.Jni.Csi.Laws.{IsCsiCount, csi_object}
use app_loctag.Capture.Event.{Event, sends}

-- A packet of the firmware: the headers of Ethernet, IP and UDP, the CSI header and the elements.
pub record Frame : Type 0 where
  pub net_headers : Bytes
  pub sent : Sent
  pub elems : List (ℕ × ℕ)

pub record IsFrame (f : Frame) : Type 0 where
  pub headers : length f.net_headers ≡ 42
  pub fields : IsSent f.sent
  pub count : IsCsiCount (length f.elems)

abbrev pub payload : Frame → Bytes
payload f = sent_bytes f.sent ++ (elems_bytes f.elems ++ [])

-- The packet with its length, as `got_packet` gets it.
abbrev pub arrival : Frame → Bytes × ℕ
arrival f = (f.net_headers ++ payload f, 60 + length f.elems * 4)

-- The object with the fields of the header and the elements as signed numbers.
abbrev pub object : Frame → CsiObject
object f = csi_object f.sent f.elems

-- The offsets and lengths that are given to `sendto`.
abbrev pub spans : List Event → List (ℕ × ℕ)
spans [] = []
spans (sends offset len ∷ events) = (offset, len) ∷ spans events
spans (_ ∷ events) = spans events

-- The bytes of the datagrams, where each packet is forwarded once.
abbrev pub datagrams : List (Bytes × ℕ) → List (ℕ × ℕ) → List Bytes
datagrams ((packet, total) ∷ got) ((offset, len) ∷ rest) =
    take len (drop offset packet) ∷ datagrams got rest
datagrams [] rest = []
datagrams (first ∷ got) [] = []

-- What JNICsi.c reads of a datagram.
abbrev pub IsRead : Frame → Type 0
IsRead f = buff_to_csi4339 (payload f) 0 (length (payload f)) ≡ some (object f)
