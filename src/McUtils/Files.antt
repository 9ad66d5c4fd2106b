-- ===== src/McUtils/Files.antt =====
-- `writeFile` and then `readFile` of Csi/mcutils.c.
use app_loctag.Base.{
  ℕ, zero, suc, ◌+◌, ◌≤◌, ◌≡◌, ◌↔◌, refl, ap, ◌∙◌, arith, true, [], ◌∷◌, ◌++◌, append-nil, Option,
  none, some, Bytes, List, length-take, length, length-append, length-drop, take, drop, take-all,
  pos,
}
use app_loctag.McUtils.{
  Flag, o_rdonly, o_wronly, o_creat, o_trunc, System, WriteCall, Outcome, read_file, write_file,
}

-- What is left of a file behind an `open` with these flags: O_TRUNC empties it.
abbrev pub kept : List Flag → Bytes → Bytes
kept [] old = old
kept (o_trunc ∷ flags) old = []
kept (o_rdonly ∷ flags) old = kept flags old
kept (o_wronly ∷ flags) old = kept flags old
kept (o_creat ∷ flags) old = kept flags old

-- The system behind a call of `write` on a file.
abbrev pub After : Type 0
After = WriteCall → System

abbrev pub behind : System → After → Option WriteCall → System
behind sys after none = sys
behind sys after (some call) = after call

-- What POSIX says of a file that is opened to be written, written at its start and closed, for any flags of that
-- `open`: it can be read then and has the bytes that were taken, and behind them what there was of `old`, which
-- it has held before, nothing if it was not there.
pub record WritesAtStart (after : After) (path old : Bytes) : Type 0 where
  pub opens_again : (call : WriteCall) → (after call).opens (o_rdonly ∷ []) path ≡ true
  pub holds :
      (flags : List Flag) (bytes : Bytes) (n max : ℕ)
      → (after (flags, bytes, n)).reads path max
        ≡ some (take max (take n bytes ++ drop n (kept flags old)))

-- A count is returned only where `write` has taken that many bytes, and then the file is closed.
write_file-counts :
    (sys : System) (fds size : ℕ) (buf path : Bytes) (n : ℕ)
    → (write_file sys fds buf size path).0.code ≡ pos n
    → ((write_file sys fds buf size path).1 ≡ some (o_wronly ∷ o_creat ∷ [], take size buf, n))
      × ((write_file sys fds buf size path).0.fds ≡ fds)
unfolding write_file
write_file-counts sys fds size buf path n h = ground (arith, h)

drop-past : (n : ℕ) (old : Bytes) → length old ≤ n → drop n old ≡ []
drop-past zero [] h = refl
drop-past zero (x ∷ old) h = absurd (omega (arith, h))
drop-past (suc n) [] h = refl
drop-past (suc n) (x ∷ old) h = drop-past n old (omega (arith, h))

-- The old end of the file stays behind what is written.
over_iff :
    (size : ℕ) (bytes old : Bytes)
    → length bytes ≡ size
    → (bytes ++ drop size old ≡ bytes) ↔ (length old ≤ size)
over_iff size bytes old count = (there, back)
  where
    there : bytes ++ drop size old ≡ bytes → length old ≤ size
    there h = omega (
      arith,
      count,
      ap (λ (b : Bytes). length b) h,
      length-append bytes (drop size old),
      length-drop size old,
    )

    back : length old ≤ size → bytes ++ drop size old ≡ bytes
    back h = rw (drop-past size old h) (append-nil bytes)

read_file-holds :
    (sys : System) (fds max : ℕ) (path content : Bytes)
    → sys.opens (o_rdonly ∷ []) path ≡ true
    → sys.reads path max ≡ some content
    → read_file sys fds max path ≡ record { code = pos (length content); buf = content; fds = fds }
unfolding read_file
read_file-holds sys fds max path content o r =
    rw (o, r)
      (ap
        (λ (open_ones : ℕ). record { code = pos (length content); buf = content; fds = open_ones })
        (omega arith))

-- Where a file behind a call of write is as POSIX says for the flags of its open, the bytes that
-- were taken and behind them the end of what it held before, which O_TRUNC removes, what readFile
-- reads, told at least the size of the old and the new bytes, behind a writeFile that returns its
-- size, no more than the buffer has, are the first size bytes of the buffer exactly if the file
-- has not held more bytes before; and neither function leaves a descriptor open.
pub read_file-write_file :
    (sys : System) (after : After) (path buf old : Bytes) (fds size max : ℕ)
    → size ≤ length buf
    → WritesAtStart after path old
    → (write_file sys fds buf size path).0.code ≡ pos size
    → size + length old ≤ max
    → ((write_file sys fds buf size path).0.fds ≡ fds)
      × ((read_file (behind sys after (write_file sys fds buf size path).1) fds max path).fds ≡ fds)
      × (((read_file (behind sys after (write_file sys fds buf size path).1) fds max path).buf
            ≡ take size buf)
          ↔ (length old ≤ size))
read_file-write_file sys after path buf old fds size max inside law counted room =
    let bytes = take size buf in
    let call : WriteCall = (o_wronly ∷ o_creat ∷ [], bytes, size) in
    let count : length bytes ≡ size = length-take size buf ∙ omega (arith, inside) in
    let (written, closed) = write_file-counts sys fds size buf path size counted in
    let whole : take max (take size bytes ++ drop size old) ≡ bytes ++ drop size old =
      rw (take-all size bytes (omega (arith, count))) (
        take-all max _ (
          omega (arith, room, count, length-append bytes (drop size old), length-drop size old))) in
    let result =
      read_file-holds (after call) fds max path _ (law.opens_again call)
        (law.holds (o_wronly ∷ o_creat ∷ []) bytes size max ∙ ap some whole) in
    (
      closed,
      rw written (ap (λ (o : Outcome). o.fds) result),
      rw (written, result) (over_iff size bytes old count),
    )
