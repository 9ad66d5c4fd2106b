-- ===== src/Libc/Format/Reread.antt =====
-- What `strtoul` makes of digits with zeros in front, in any base.
use app_loctag.Base.{
  ℕ, zero, suc, ◌≤◌, ◌<◌, ◌≡◌, refl, false, [], ◌∷◌, ◌++◌, arith, Bytes, byte_at, length,
  length-append, replicate, lt→ltb, ◌∙◌, ap,
}
use app_loctag.Libc.Scan.{digit_value, scan_digits, strtoul_value, ulong_max}

-- Zeros in front change nothing.
pub scan-zeros :
    (base k : ℕ) (s : Bytes)
    → 0 < base
    → scan_digits base (replicate k b'0' ++ s) 0 ≡ scan_digits base s 0
unfolding scan_digits digit_value
scan-zeros base zero s h = refl
scan-zeros base (suc k) s h =
    rw (lt→ltb 0 base h)
      (ap (scan_digits base (replicate k b'0' ++ s)) (omega arith) ∙ scan-zeros base k s h)

-- A text that begins with a digit of the base, and is longer than what is behind it.
pub record Begins (base : ℕ) (text rest : Bytes) : Type 0 where
  pub head : ℕ
  pub tail : Bytes
  pub parts : text ≡ head ∷ tail
  pub digit : digit_value head < base
  pub longer : length rest ≤ length tail

pub Begins-shorter :
    {base x : ℕ} {text rest : Bytes} → Begins base text (x ∷ rest) → Begins base text rest
Begins-shorter b = record {
  head = b.head;
  tail = b.tail;
  parts = b.parts;
  digit = b.digit;
  longer = omega (arith, b.longer);
}

pub padded-Begins :
    (base k : ℕ) (text rest : Bytes)
    → 0 < base
    → Begins base (text ++ rest) rest
    → Begins base (replicate k b'0' ++ (text ++ rest)) rest
unfolding digit_value
padded-Begins base zero text rest h b = b
padded-Begins base (suc k) text rest h b = record {
  head = b'0';
  tail = replicate k b'0' ++ (text ++ rest);
  parts = refl;
  digit = h;
  longer = omega (
    arith,
    b.longer,
    length-append (replicate k b'0') (text ++ rest),
    ap (λ (t : Bytes). length t) b.parts,
  );
}

pub strtoul_value_pos :
    (v : ℕ) (rest : Bytes)
    → v ≤ ulong_max
    → strtoul_value (record { negative = false; magnitude = v; rest = rest }) ≡ v
unfolding strtoul_value
strtoul_value_pos v rest fits = ground arith

pub scan_stops :
    (base : ℕ) (rest : Bytes) (n : ℕ)
    → base ≤ digit_value (byte_at rest 0)
    → scan_digits base rest n ≡ (n, rest)
unfolding scan_digits
scan_stops base [] n h = refl
scan_stops base (c ∷ s) n h = ground arith
