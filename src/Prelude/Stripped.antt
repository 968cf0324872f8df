-- ===== src/Prelude/Stripped.antt =====
-- `strip` of Python's `str` changes nothing the second time.
use Prim.Native.Char.{code}
use Prim.Native.String.{String}
use mathlib.Core.Path.{◌≡◌, refl, ap, ◌∙◌}
use mathlib.Core.Bool.{◌&&◌}
use mathlib.Core.Logic.{inl, inr}
use keirin_ai_web.Prelude.Tests.{Bool-cases}
use keirin_ai_web.Prelude.Text.{is_space, is_blank, strip_left, strip_right, strip}

is_blank-strip_right : (s : String) → is_blank (strip_right s) ≡ is_blank s
unfolding is_blank strip_right
is_blank-strip_right String.[] = refl
is_blank-strip_right (String.◌∷◌ c s) = elim (Bool-cases (is_space (code c) && is_blank s)) [
  | inl p ↦ rw p refl
  | inr p ↦ rw p (rw (is_blank-strip_right s) p)
]

strip_right-idempotent : (s : String) → strip_right (strip_right s) ≡ strip_right s
unfolding strip_right
strip_right-idempotent String.[] = refl
strip_right-idempotent (String.◌∷◌ c s) = elim (Bool-cases (is_space (code c) && is_blank s)) [
  | inl p ↦ rw p refl
  | inr p ↦ rw p (rw (is_blank-strip_right s) (rw p (ap (String.◌∷◌ c) (strip_right-idempotent s))))
]

strip_left-strip_right :
    (s : String) → strip_left (strip_right (strip_left s)) ≡ strip_right (strip_left s)
unfolding strip_left strip_right
strip_left-strip_right String.[] = refl
strip_left-strip_right (String.◌∷◌ c s) = elim (Bool-cases (is_space (code c))) [
  | inl p ↦ rw p (strip_left-strip_right s)
  | inr p ↦ rw p (rw p (rw p refl))
]

pub strip-idempotent : (s : String) → strip (strip s) ≡ strip s
unfolding strip
strip-idempotent s =
    ap strip_right (strip_left-strip_right s) ∙ strip_right-idempotent (strip_left s)
