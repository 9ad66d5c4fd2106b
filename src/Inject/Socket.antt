-- ===== src/Inject/Socket.antt =====
-- `create_raw_socket` of Csi/injectutil.c. What the system answers is a parameter.
use app_loctag.Base.{ℕ, Bool, Option, none, some, Bytes, take, if◌then◌else◌}

-- Whether `socket` makes one, the index that `ioctl` finds for a name, whether `bind` and
-- `setsockopt` succeed for an index, and how many bytes of a packet `write` takes on a socket that
-- is bound to an index, `none` for an error.
pub record Kernel : Type 0 where
  pub makes_socket : Bool
  pub index_of : Bytes → Option ℕ
  pub binds : ℕ → Bool
  pub joins : ℕ → Bool
  pub writes : ℕ → Bytes → Option ℕ

-- What is returned, as the index that the socket is bound to, or `none` for -1; and the sockets
-- that are open then.
pub record Created : Type 0 where
  pub fd : Option ℕ
  pub open_sockets : ℕ

-- The room for a name in `ifr_name`, less the NUL.
abbrev pub name_size : ℕ
name_size = 15

abbrev lost : Created
lost = record { fd = none; open_sockets = 1 }

unfoldable pub bind_to : Kernel → ℕ → Created
bind_to k index =
    if k.binds index
    then if k.joins index then record { fd = some index; open_sockets = 1 } else lost
    else lost

-- The result is `none` where the name is NULL and read.
unfoldable pub create_raw_socket : Kernel → Option Bytes → Option Created
unfolding bind_to
create_raw_socket k p_iface =
    if k.makes_socket
    then elim p_iface [
      | some name ↦
          some
            (elim (k.index_of (take name_size name)) [ some index ↦ bind_to k index | none ↦ lost ])
      | none ↦ none
    ]
    else some (record { fd = none; open_sockets = 0 })
