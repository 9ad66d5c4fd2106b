-- ===== src/McUtils.antt =====
-- Csi/mcutils.c: `readFile` and `writeFile`, and in HexDump `hexDump`. What the system does is a
-- parameter: whether `open` succeeds with its flags, and what `read` puts into the buffer or `write` takes
-- from it, `none` for an error. A descriptor is the file with the flags of its `open`. The state is the
-- number of open file descriptors.
pub mod HexDump
pub mod Files
mod Tests
use app_loctag.Base.{
  ℕ, suc, ◌-◌, Bool, List, [], ◌∷◌, take, Option, none, some, Bytes, length, ℤ, pos, negsuc,
  if◌then◌else◌,
}

-- Flags of `open`.
pub data Flag : Type 0 where
  o_rdonly o_wronly o_creat o_trunc : Flag

pub record System : Type 0 where
  pub opens : List Flag → Bytes → Bool
  pub reads : Bytes → ℕ → Option Bytes
  pub writes : List Flag → Bytes → Bytes → Option ℕ

-- What is returned, what has been put into the buffer, and the descriptors that are open then.
pub record Outcome : Type 0 where
  pub code : ℤ
  pub buf : Bytes
  pub fds : ℕ

unfoldable pub read_file : System → ℕ → ℕ → Bytes → Outcome
read_file sys fds max_size filepath =
    if sys.opens (o_rdonly ∷ []) filepath
    then elim (sys.reads filepath max_size) [
      | some bytes ↦ record { code = pos (length bytes); buf = bytes; fds = suc fds - 1 }
      | none ↦ record { code = negsuc 1; buf = []; fds = suc fds }
    ]
    else record { code = negsuc 0; buf = []; fds = fds }

-- The call of `write`, if it was made and has succeeded: the flags of its descriptor, what was given to it,
-- and how much of it was taken.
abbrev pub WriteCall : Type 0
WriteCall = List Flag × Bytes × ℕ

-- The buffer has at least `size` bytes.
unfoldable pub write_file : System → ℕ → Bytes → ℕ → Bytes → Outcome × Option WriteCall
write_file sys fds buf size filepath =
    let flags = o_wronly ∷ o_creat ∷ [] in
    if sys.opens flags filepath
    then elim (sys.writes flags filepath (take size buf)) [
      | some write_size ↦ (
        record { code = pos write_size; buf = buf; fds = suc fds - 1 },
        some (flags, take size buf, write_size),
      )
      | none ↦ (record { code = negsuc 1; buf = buf; fds = suc fds }, none)
    ]
    else (record { code = negsuc 0; buf = buf; fds = fds }, none)
