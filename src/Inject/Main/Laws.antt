-- ===== src/Inject/Main/Laws.antt =====
-- What `main` of Csi/injectutil.c gives to the system.
use app_loctag.Base.{
  ℕ, ◌≡◌, refl, sym, ap, ◌∙◌, ◌++◌, arith, true, List, [], ◌∷◌, Option, none, some, >>=-eq-some,
  Option-cases, inl, inr, Bytes, take, negsuc,
}
use mathlib.Core.List.{nil≢cons}
use mathlib.Core.Option.{some-injective}
use app_loctag.McUtils.{o_rdonly, System, read_file}
use app_loctag.Inject.Radiotap.{rt_bytes}
use app_loctag.Inject.Options.{Config}
use app_loctag.Inject.Program.{Sent, exits, sends, inject}
use app_loctag.Inject.Laws.{ReadsWithin, IsRadiotap, Framed, inject-Framed, reads_frame}
use app_loctag.Inject.Socket.{Kernel, Created, bind_to, create_raw_socket}
use app_loctag.Inject.Main.{Run, write, send, packet_of, main}

-- A socket of the interface that has the name, or its first 15 bytes.
pub record IsBound (k : Kernel) (p_iface : Option Bytes) (index : ℕ) : Type 0 where
  pub name : Bytes
  pub named : p_iface ≡ some name
  pub made : k.makes_socket ≡ true
  pub found : k.index_of (take 15 name) ≡ some index
  pub bound : k.binds index ≡ true
  pub joined : k.joins index ≡ true

-- All that the system has to do for a packet to be sent.
pub record Succeeds (k : Kernel) (sys : System) (c : Config) : Type 0 where
  pub index : ℕ
  pub path : Bytes
  pub frame : Bytes
  pub size : ℕ
  pub bound : IsBound k c.ifname index
  pub named : c.filepath ≡ some path
  pub opened : sys.opens (o_rdonly ∷ []) path ≡ true
  pub read : sys.reads path 4060 ≡ some frame
  pub taken : k.writes index (rt_bytes c.rt ++ frame) ≡ some size

-- What a run gives to the system: the packet made of the header and the file if all succeeds, and
-- nothing if not.
pub data Wrote (k : Kernel) (sys : System) (c : Config) : List (ℕ × Bytes) → Type 0 where
  nothing : ¬ Succeeds k sys c → Wrote k sys c []
  one :
      (s : Succeeds k sys c)
      → Framed sys c.rt s.path (rt_bytes c.rt ++ s.frame)
      → Wrote k sys c ((s.index, rt_bytes c.rt ++ s.frame) ∷ [])

bind_to-joins :
    (k : Kernel) (found index : ℕ)
    → (bind_to k found).fd ≡ some index
    → (found ≡ index) × (k.binds found ≡ true) × (k.joins found ≡ true)
unfolding bind_to
bind_to-joins k found index h = ground arith

create_raw_socket-IsBound :
    (k : Kernel) (p_iface : Option Bytes) (created : Created) (index : ℕ)
    → create_raw_socket k p_iface ≡ some created
    → created.fd ≡ some index
    → IsBound k p_iface index
unfolding create_raw_socket
create_raw_socket-IsBound k p_iface created index h fd = ground arith

-- A packet that is written, with what has succeeded for it.
data Sends (k : Kernel) (sys : System) (c : Config) : List (ℕ × Bytes) → Type 0 where
  silent : Sends k sys c []
  packet_of_file : (s : Succeeds k sys c) → Sends k sys c ((s.index, rt_bytes c.rt ++ s.frame) ∷ [])

send-Sends :
    (k : Kernel) (sys : System) (buff : Bytes) (c : Config) (path frame : Bytes) (fd : Option ℕ)
    → ((index : ℕ) → fd ≡ some index → IsBound k c.ifname index)
    → c.filepath ≡ some path
    → sys.opens (o_rdonly ∷ []) path ≡ true
    → sys.reads path 4060 ≡ some frame
    → Sends k sys c (send k c buff fd (rt_bytes c.rt ++ frame)).written
unfolding send write
send-Sends k sys buff c path frame none bound named opened read = silent
send-Sends k sys buff c path frame (some index) bound named opened read =
    elim (Option-cases (k.writes index (rt_bytes c.rt ++ frame))) [
      | inl e ↦ rw (e, send, write) silent
      | inr (size, e) ↦
          rw (e, send, write)
            (packet_of_file (record {
              index = index;
              path = path;
              frame = frame;
              size = size;
              bound = bound index refl;
              named = named;
              opened = opened;
              read = read;
              taken = e;
            }))
    ]

with_file :
    (k : Kernel) (sys : System) (buff : Bytes) (c : Config) (fd : Option ℕ) (run : Run)
    → ((index : ℕ) → fd ≡ some index → IsBound k c.ifname index)
    → elim (packet_of sys c.rt c.filepath) [
      | exits ↦ some (record { status = negsuc 0; written = []; output = [] })
      | sends packet ↦ some (send k c buff fd packet)
    ]
      ≡ some run
    → Sends k sys c run.written
unfolding packet_of
with_file k sys buff c fd run bound h = elim (Option-cases c.filepath) [
  | inl named ↦ rw (sym (some-injective _ _ (rw named at h))) silent
  | inr (path, named) ↦ read path named (inject sys c.rt path) refl (rw named at h)
]
  where
    read :
        (path : Bytes)
        → c.filepath ≡ some path
        → (sent : Sent) → inject sys c.rt path ≡ sent
        → elim sent [
          | exits ↦ some (record { status = negsuc 0; written = []; output = [] })
          | sends packet ↦ some (send k c buff fd packet)
        ]
          ≡ some run
        → Sends k sys c run.written
    read path named exits i h = rw (sym (some-injective _ _ h)) silent
    read path named (sends packet) i h =
        let (frame, e, same, opened) = reads_frame sys c.rt path packet i in
        rw (sym (some-injective _ _ h), sym same)
          (send-Sends k sys buff c path frame fd bound named opened e)

main-Sends :
    (k : Kernel) (sys : System) (buff : Bytes) (c : Config) (run : Run)
    → main k sys buff c ≡ some run
    → Sends k sys c run.written
unfolding main
main-Sends k sys buff c run h =
    let (created, e, rest) = >>=-eq-some (create_raw_socket k c.ifname) _ h in
    with_file k sys buff c created.fd run
      (λ index fd. create_raw_socket-IsBound k c.ifname created index e fd) rest

create_raw_socket-bound :
    (k : Kernel) (p_iface : Option Bytes) (index : ℕ)
    → IsBound k p_iface index
    → create_raw_socket k p_iface ≡ some (record { fd = some index; open_sockets = 1 })
unfolding create_raw_socket bind_to
create_raw_socket-bound k p_iface index b = rw (b.made, b.named, b.found, b.bound, b.joined) refl

inject-sends :
    (k : Kernel) (sys : System) (c : Config) (s : Succeeds k sys c)
    → inject sys c.rt s.path ≡ sends (rt_bytes c.rt ++ s.frame)
unfolding inject read_file
inject-sends k sys c s = rw (s.opened, s.read) refl

packet_of-sends :
    (k : Kernel) (sys : System) (c : Config) (s : Succeeds k sys c)
    → packet_of sys c.rt c.filepath ≡ sends (rt_bytes c.rt ++ s.frame)
unfolding packet_of
packet_of-sends k sys c s = rw s.named (inject-sends k sys c s)

send-written :
    (k : Kernel) (c : Config) (buff packet : Bytes) (index size : ℕ)
    → k.writes index packet ≡ some size
    → (send k c buff (some index) packet).written ≡ (index, packet) ∷ []
unfolding send write
send-written k c buff packet index size e = rw (e, send, write) refl

Succeeds-written :
    (k : Kernel) (sys : System) (buff : Bytes) (c : Config) (run : Run) (s : Succeeds k sys c)
    → main k sys buff c ≡ some run
    → run.written ≡ (s.index, rt_bytes c.rt ++ s.frame) ∷ []
unfolding main
Succeeds-written k sys buff c run s h =
    let made = create_raw_socket-bound k c.ifname s.index s.bound in
    let same = some-injective _ _ (rw (made, packet_of-sends k sys c s) at h) in
    ap (λ (r : Run). r.written) (sym same)
    ∙ send-written k c buff (rt_bytes c.rt ++ s.frame) s.index s.size s.taken

written_cases :
    (k : Kernel) (sys : System) (c : Config) {written : List (ℕ × Bytes)}
    → ReadsWithin sys
    → IsRadiotap c.rt
    → ((s : Succeeds k sys c) → written ≡ (s.index, rt_bytes c.rt ++ s.frame) ∷ [])
    → Sends k sys c written
    → Wrote k sys c written
written_cases k sys c within ok only silent = nothing (λ s. nil≢cons (only s))
written_cases k sys c within ok only (packet_of_file s) =
    one s
      (inject-Framed sys c.rt s.path (rt_bytes c.rt ++ s.frame) within ok (inject-sends k sys c s))

-- Where read puts no more bytes into the buffer than it is told to, and the header holds its own
-- length and numbers of 32 bits, a run of injectutil that does not crash gives one packet to the
-- system, made of the header and the bytes of the file, if the socket is made, bound to the
-- interface with the first 15 bytes of the name and made promiscuous, the file is opened and read,
-- and write succeeds, and no packet if one of these fails.
pub main-Wrote :
    (k : Kernel) (sys : System) (buff : Bytes) (c : Config) (run : Run)
    → ReadsWithin sys
    → IsRadiotap c.rt
    → main k sys buff c ≡ some run
    → Wrote k sys c run.written
main-Wrote k sys buff c run within ok h =
    written_cases k sys c within ok (λ s. Succeeds-written k sys buff c run s h)
      (main-Sends k sys buff c run h)
