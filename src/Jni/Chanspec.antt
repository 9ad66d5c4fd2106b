-- ===== src/Jni/Chanspec.antt =====
-- `strToChanspec` and `chanspecToStr` of Csi/JNICsi.c. A `jint` is its 32 bits; the copy of the string
-- that `GetStringUTFChars` makes may be missing.
use app_loctag.Base.{ℕ, ◌≡◌, arith, Option, none, some, Bytes, true, u16}
use app_loctag.Chanspec.Check.{wf_chspec_valid}
use app_loctag.Chanspec.Print.{wf_chspec_ntoa}
use app_loctag.Chanspec.Parse.{wf_chspec_aton}
use app_loctag.Chanspec.RoundTrip.{aton-ntoa}

-- The value of a call that comes back: the static pointer of `wf_chspec_aton`, which earlier calls
-- move, decides in Chanspec/Parse whether one does.
unfoldable pub str_to_chanspec : Option Bytes → ℕ
unfolding wf_chspec_aton
str_to_chanspec (some chanspec_str) = wf_chspec_aton chanspec_str
str_to_chanspec none = 0

-- The parameter of `wf_chspec_ntoa` has 16 bits.
unfoldable pub chanspec_to_str : ℕ → Option Bytes
unfolding wf_chspec_ntoa
chanspec_to_str chanspec = wf_chspec_ntoa (u16 chanspec)

-- strToChanspec reads what chanspecToStr prints of a number as its low 16 bits, if these are a
-- valid chanspec.
pub str_to_chanspec-chanspec_to_str :
    (chanspec : ℕ)
    → wf_chspec_valid (u16 chanspec) ≡ some true
    → (text : Bytes) × (chanspec_to_str chanspec ≡ some text)
      × (str_to_chanspec (some text) ≡ u16 chanspec)
unfolding str_to_chanspec chanspec_to_str
str_to_chanspec-chanspec_to_str chanspec v = aton-ntoa (u16 chanspec) (omega arith) v
