-- ===== src/Capture/Event.antt =====
-- What Csi/csiutil.c does with a packet, as a list of events in their order, and the macro `log`.
use app_loctag.Base.{
  ℕ, Bool, true, false, List, [], ◌∷◌, ◌++◌, Option, some, ◌>>=◌, Bytes, leb, ℤ, pos, negsuc,
}
use app_loctag.Capture.Options.{Config}

-- The lines that are printed are the values that they are printed from. `sends` is a call of `sendto`
-- with an offset in the packet and a length.
pub data Event : Type 0 where
  dumps : Event
  broke_radiotap : ℕ → Event
  prints_addresses : Bytes → Bytes → ℕ → ℕ → ℤ → ℤ → Event
  prints_frame : Bytes → Option Bytes → Bytes → Event
  broke_csi : ℤ → Event
  incorrect_size : Event
  prints_csi : ℕ → ℕ → ℕ → ℕ → ℤ → Event
  prints_src_mac : Bytes → Event
  hex_dumps : Bytes → Event
  sends : ℕ → ℕ → Event

-- `log_level >= level`.
unfoldable pub logs : Config → ℕ → Bool
logs c level = elim c.log_level [ pos n ↦ leb level n | negsuc n ↦ false ]

-- `log (level, ...)`: what it prints is read only if it is printed.
abbrev pub log : Bool → Option Event → Option (List Event)
log true event = event >>= (λ e. some (e ∷ []))
log false event = some []

-- Two parts of a function, one behind the other; a fault in one is a fault of both.
abbrev pub then_events : Option (List Event) → Option (List Event) → Option (List Event)
then_events first second = first >>= (λ xs. second >>= (λ ys. some (xs ++ ys)))
