-- ===== src/Prelude/Text.antt =====
-- What the program uses of Python's `str`: `strip`, the test for blank text, and the identifier
-- pattern shared by attempt, worker and task ids.
use Prim.Native.Nat.{ℕ, zero, suc}
use Prim.Native.Char.{code}
use Prim.Native.String.{String}
use mathlib.Core.Bool.{Bool, true, false, ◌&&◌, ◌||◌}
use keirin_ai_web.Prelude.Tests.{leb, ◌==◌, nat_eq, if◌then◌else◌}

-- The code points for which `str.isspace` holds.
unfoldable pub is_space : ℕ → Bool
is_space c =
    (leb 9 c && leb c 13)
    || (leb 28 c && leb c 32)
    || c == 0x85
    || c == 0xa0
    || c == 0x1680
    || (leb 0x2000 c && leb c 0x200a)
    || c == 0x2028
    || c == 0x2029
    || c == 0x202f
    || c == 0x205f
    || c == 0x3000

-- `not value.strip()`
unfoldable pub is_blank : String → Bool
unfolding is_space
is_blank String.[] = true
is_blank (String.◌∷◌ c s) = is_space (code c) && is_blank s

unfoldable pub strip_left : String → String
unfolding is_space
strip_left String.[] = String.[]
strip_left (String.◌∷◌ c s) =
    let rest = strip_left s in if is_space (code c) then rest else String.◌∷◌ c s

unfoldable pub strip_right : String → String
unfolding is_space is_blank
strip_right String.[] = String.[]
strip_right (String.◌∷◌ c s) =
    if is_space (code c) && is_blank s then String.[] else String.◌∷◌ c (strip_right s)

-- `value.strip()`
unfoldable pub strip : String → String
unfolding strip_left strip_right
strip s = strip_right (strip_left s)

-- `[A-Za-z0-9]`
unfoldable pub is_alphanumeric : ℕ → Bool
is_alphanumeric c =
    (leb b'0' c && leb c b'9') || (leb b'A' c && leb c b'Z') || (leb b'a' c && leb c b'z')

-- At most `n` characters, each of which passes the test: `[…]{0,n}` to the end of the text.
unfoldable pub each_upto : (ℕ → Bool) → ℕ → String → Bool
each_upto test n String.[] = true
each_upto test zero (String.◌∷◌ c s) = false
each_upto test (suc n) (String.◌∷◌ c s) = test (code c) && each_upto test n s

-- A first character, then at most `n` more: `^[first][rest]{0,n}$` under `fullmatch`.
unfoldable pub starts_then : (ℕ → Bool) → (ℕ → Bool) → ℕ → String → Bool
unfolding each_upto
starts_then first rest n String.[] = false
starts_then first rest n (String.◌∷◌ c s) = first (code c) && each_upto rest n s
