-- ===== src/Prelude/Text.antt =====
-- Python's texts: whole texts by the native `String`, characters by their code points.
use Prim.Native.Nat.{ℕ}
use Prim.Native.Char.{code}
use Prim.Native.String.{String}
use mathlib.Core.Bool.{Bool, true, false, ◌&&◌, ◌||◌}
use mathlib.Core.Path.{◌≡◌}
use mathlib.Core.Logic.{◌≢◌}
use text.Mathlib.TextEquality.{eq_iff}
use mathlib.Core.List.{List, [], ◌∷◌, reverse}
use text.Mathlib.Text.{◌==◌ as str_eq}
use fingerprint_full_matcher.Prelude.Tests.{leb, ◌==◌, if◌then◌else◌}

-- Texts that compare as different are different.
pub apart : (s t : String) → str_eq s t ≡ false → s ≢ t
apart s t different same =
    let compared : str_eq s t ≡ true = (eq_iff s t).1 same in cc (compared, different)

abbrev pub codes : String → List ℕ
codes String.[] = []
codes (String.◌∷◌ c s) = code c ∷ codes s

-- `not text`
abbrev pub is_empty : String → Bool
is_empty s = str_eq s ""

abbrev pub in_range : ℕ → ℕ → ℕ → Bool
in_range lo hi c = leb lo c && leb c hi

-- `str.isspace`, at one character.
unfoldable pub is_space : ℕ → Bool
is_space c =
    in_range 9 13 c
    || in_range 28 32 c
    || c == 0x85
    || c == 0xa0
    || c == 0x1680
    || in_range 0x2000 0x200a c
    || in_range 0x2028 0x2029 c
    || c == 0x202f
    || c == 0x205f
    || c == 0x3000

unfoldable pub drop_spaces : List ℕ → List ℕ
unfolding is_space
drop_spaces [] = []
drop_spaces (c ∷ cs) = if is_space c then drop_spaces cs else c ∷ cs

-- `str.strip`
unfoldable pub strip : List ℕ → List ℕ
unfolding drop_spaces
strip cs = reverse (drop_spaces (reverse (drop_spaces cs)))

-- `not text.strip()`: every character is a space.
unfoldable pub is_blank : List ℕ → Bool
unfolding is_space
is_blank [] = true
is_blank (c ∷ cs) = is_space c && is_blank cs
