-- ===== src/Prelude/Base64.antt =====
-- Python's `base64`: the encoder, and the decoder with `validate=True`, which takes groups of four
-- characters, of which the last may be padded. Padding after a complete group, which some versions of
-- Python let through, is refused.
pub mod RoundTrip
use fingerprint_full_matcher.Prelude.Tests.{leb, ltb, ◌==◌, if◌then◌else◌}
use fingerprint_full_matcher.Prelude.Text.{in_range}
use Prim.Native.Nat.{ℕ, ◌+◌, ◌-◌, ◌*◌, ◌/◌, ◌%◌}
use mathlib.Core.Bool.{Bool, true, false, ◌&&◌}
use mathlib.Core.Option.{Option, none, some}
use mathlib.Core.List.{List, [], ◌∷◌}

-- The character of six bits.
unfoldable pub symbol : ℕ → ℕ
symbol v =
    if ltb v 26
    then 65 + v
    else if ltb v 52
    then 71 + v
    else if ltb v 62
    then v - 4
    else if v == 62
    then 43
    else 47

unfoldable pub symbol_value : ℕ → Option ℕ
symbol_value c =
    if in_range 65 90 c
    then some (c - 65)
    else if in_range 97 122 c
    then some (c - 71)
    else if in_range 48 57 c
    then some (c + 4)
    else if c == 43
    then some 62
    else if c == 47
    then some 63
    else none

-- `b64encode`, into the codes of the characters; 61 is the padding.
unfoldable pub b64encode : List ℕ → List ℕ
unfolding symbol
b64encode [] = []
b64encode (a ∷ []) = symbol (a / 4) ∷ symbol (a % 4 * 16) ∷ 61 ∷ 61 ∷ []
b64encode (a ∷ b ∷ []) =
    symbol (a / 4) ∷ symbol (a % 4 * 16 + b / 16) ∷ symbol (b % 16 * 4) ∷ 61 ∷ []
b64encode (a ∷ b ∷ c ∷ bytes) =
    symbol (a / 4)
    ∷ symbol (a % 4 * 16 + b / 16)
    ∷ symbol (b % 16 * 4 + c / 64)
    ∷ symbol (c % 64)
    ∷ b64encode bytes

one_byte : Option ℕ → Option ℕ → Option (List ℕ)
one_byte (some p) (some q) = some ((p * 4 + q / 16) ∷ [])
one_byte _ _ = none

two_bytes : Option ℕ → Option ℕ → Option ℕ → Option (List ℕ)
two_bytes (some p) (some q) (some r) = some ((p * 4 + q / 16) ∷ (q % 16 * 16 + r / 4) ∷ [])
two_bytes _ _ _ = none

three_bytes : Option ℕ → Option ℕ → Option ℕ → Option ℕ → Option (List ℕ) → Option (List ℕ)
three_bytes (some p) (some q) (some r) (some s) (some rest) =
    some ((p * 4 + q / 16) ∷ (q % 16 * 16 + r / 4) ∷ (r % 4 * 64 + s) ∷ rest)
three_bytes _ _ _ _ _ = none

-- `b64decode`; `none` is `binascii.Error`, which is a `ValueError`.
unfoldable pub b64decode : List ℕ → Option (List ℕ)
unfolding symbol_value one_byte two_bytes three_bytes
b64decode [] = some []
b64decode (a ∷ b ∷ c ∷ d ∷ []) =
    if c == 61 && d == 61
    then one_byte (symbol_value a) (symbol_value b)
    else if d == 61
    then two_bytes (symbol_value a) (symbol_value b) (symbol_value c)
    else three_bytes (symbol_value a) (symbol_value b) (symbol_value c) (symbol_value d) (some [])
b64decode (a ∷ b ∷ c ∷ d ∷ rest) =
    three_bytes (symbol_value a) (symbol_value b) (symbol_value c) (symbol_value d) (b64decode rest)
b64decode _ = none
