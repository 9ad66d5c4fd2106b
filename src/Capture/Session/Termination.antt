-- ===== src/Capture/Session/Termination.antt =====
-- A run of Csi/csiutil.c with a number of packets ends.
use app_loctag.Base.{
  ℕ, suc, ◌+◌, ◌≤◌, ◌<◌, ◌≡◌, refl, arith, Bool, true, false, Option, none, some, ◌⊎◌, inl, inr,
  Bool-cases, Option-cases, ℤ,
}
use app_loctag.Capture.Options.{Config, forwarding, has_mode}
use app_loctag.Capture.Session.{
  Phase, opening, compiling, installing, connecting, saving, capturing, stopping, closing, crashed,
  ended, State, start, limit_of, names_file, Step, open_fails, opens, compile_fails, compiles,
  install_fails, installs, connects, connect_fails, needs_no_socket, no_file_name, needs_no_file,
  save_fails, saves, gets, faults, loop_returns, stops, stops_nothing, closes_null, closes,
}

-- The steps that are left at most, where the loop has a limit.
abbrev packets_left : Option ℕ → ℕ
packets_left (some n) = n
packets_left none = 0

abbrev pub steps_left : Config → Phase → ℕ
steps_left c opening = packets_left (limit_of c.num_packets) + 8
steps_left c compiling = packets_left (limit_of c.num_packets) + 7
steps_left c installing = packets_left (limit_of c.num_packets) + 6
steps_left c connecting = packets_left (limit_of c.num_packets) + 5
steps_left c saving = packets_left (limit_of c.num_packets) + 4
steps_left c (capturing left) = packets_left left + 3
steps_left c stopping = 2
steps_left c closing = 1
steps_left c crashed = 0
steps_left c (ended status) = 0

abbrev limited : Phase → Bool
limited (capturing none) = false
limited _ = true

Step-steps_left :
    (c : Config) (n : ℕ) {s t : State}
    → limit_of c.num_packets ≡ some n
    → Step c s t
    → limited s.phase ≡ true
    → (limited t.phase ≡ true) × (steps_left c t.phase < steps_left c s.phase)
Step-steps_left c n l (open_fails s p) v = ground arith
Step-steps_left c n l (opens s p) v = ground arith
Step-steps_left c n l (compile_fails s p) v = ground arith
Step-steps_left c n l (compiles s p) v = ground arith
Step-steps_left c n l (install_fails s p) v = ground arith
Step-steps_left c n l (installs s p) v = ground arith
Step-steps_left c n l (connects s p m) v = ground arith
Step-steps_left c n l (connect_fails s p m) v = ground arith
Step-steps_left c n l (needs_no_socket s p m) v = ground arith
Step-steps_left c n l (no_file_name s p f) v = ground arith
Step-steps_left c n l (needs_no_file s p f) v = ground arith
Step-steps_left c n l (save_fails s p f) v = ground arith
Step-steps_left c n l (saves s p f) v = ground arith
Step-steps_left c n l (gets s left packet len events p w g) v = ground arith
Step-steps_left c n l (faults s left packet len p w g) v = ground arith
Step-steps_left c n l (loop_returns s left p) v = ground arith
Step-steps_left c n l (stops s p m) v = ground arith
Step-steps_left c n l (stops_nothing s p m) v = ground arith
Step-steps_left c n l (closes_null s p o) v = ground arith
Step-steps_left c n l (closes s p o) v = ground arith

-- Runs with their number of steps.
module _ (c : Config) where
  pub data Steps : ℕ → State → Type 0 where
    none_yet : Steps 0 start
    one_more : {k : ℕ} {s t : State} → Steps k s → Step c s t → Steps (suc k) t

bounded :
    (c : Config) (n k : ℕ) {s : State}
    → limit_of c.num_packets ≡ some n
    → Steps c k s
    → (limited s.phase ≡ true) × (k + steps_left c s.phase ≤ n + 8)
bounded c n k l none_yet = ground arith
bounded c n (suc k) l (one_more r step) =
    let (fine, few) = bounded c n k l r in
    let (fine', fewer) = Step-steps_left c n l step fine in (fine', omega (arith, few, fewer))

-- `main` has returned, or the process has crashed.
pub data IsOver : Phase → Type 0 where
  crash : IsOver crashed
  return : (status : ℤ) → IsOver (ended status)

abbrev Advances : Config → State → Type 0
Advances c s = IsOver s.phase ⊎ ((t : State) × Step c s t)

advances : (c : Config) (phase : Phase) (s : State) → s.phase ≡ phase → Advances c s
advances c opening s p = inr (_, opens s p)
advances c compiling s p = inr (_, compiles s p)
advances c installing s p = inr (_, installs s p)
advances c connecting s p = elim (Bool-cases (has_mode c forwarding)) [
  | inl m ↦ inr (_, connects s p m)
  | inr m ↦ inr (_, needs_no_socket s p m)
]
advances c saving s p = elim (Option-cases (names_file c.filepath)) [
  | inl f ↦ inr (_, no_file_name s p f)
  | inr (true, f) ↦ inr (_, saves s p f)
  | inr (false, f) ↦ inr (_, needs_no_file s p f)
]
advances c (capturing left) s p = inr (_, loop_returns s left p)
advances c stopping s p = elim (Bool-cases (has_mode c forwarding)) [
  | inl m ↦ inr (_, stops s p m)
  | inr m ↦ inr (_, stops_nothing s p m)
]
advances c closing s p = elim (Bool-cases s.output_file) [
  | inl f ↦ inr (_, closes s p f)
  | inr f ↦ inr (_, closes_null s p f)
]
advances c crashed s p = inl (rw p crash)
advances c (ended status) s p = inl (rw p (return status))

-- Where -n is a positive n, a run of main of csiutil has at most n + 8 steps, and in each of its
-- states it is over or can make a step.
pub Steps-IsOver :
    (c : Config) (n k : ℕ) (s : State)
    → limit_of c.num_packets ≡ some n
    → Steps c k s
    → (k ≤ n + 8) × (IsOver s.phase ⊎ ((t : State) × Step c s t))
Steps-IsOver c n k s l r = (omega (arith, (bounded c n k l r).1), advances c s.phase s refl)
