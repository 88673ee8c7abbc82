-- ===== src/Prelude/Base64/RoundTrip.antt =====
-- Decoding what was encoded.
use fingerprint_full_matcher.Prelude.Tests.{◌==◌}
use fingerprint_full_matcher.Prelude.Lists.{All}
use fingerprint_full_matcher.Prelude.Base64.{
  symbol, symbol_value, b64encode, b64decode, one_byte, two_bytes, three_bytes,
}
use Prim.Native.Nat.{ℕ, ◌+◌, ◌*◌, ◌/◌, ◌%◌, ◌<◌}
use mathlib.Core.Path.{◌≡◌, refl, ap, ◌∙◌}
use mathlib.Core.Bool.{false}
use mathlib.Core.Option.{Option, some}
use mathlib.Core.List.{List, [], ◌∷◌}
use native.Mathlib.Omega.{arith}

symbol_value-symbol : (v : ℕ) → v < 64 → symbol_value (symbol v) ≡ some v
unfolding symbol symbol_value
symbol_value-symbol v h = ground arith

symbol-padding : (v : ℕ) → v < 64 → (symbol v == 61) ≡ false
unfolding symbol
symbol-padding v h = ground arith

-- A group of four that is not padded.
decode_group :
    (a b c d : ℕ) (rest : List ℕ)
    → (c == 61) ≡ false
    → (d == 61) ≡ false
    → b64decode (a ∷ b ∷ c ∷ d ∷ rest)
      ≡ three_bytes
          (symbol_value a)
          (symbol_value b)
          (symbol_value c)
          (symbol_value d)
          (b64decode rest)
unfolding b64decode
decode_group a b c d [] hc hd = rw (hc, hd) refl
decode_group a b c d (e ∷ rest) hc hd = refl

three_of :
    (p q r s : ℕ) (rest : List ℕ)
    → p < 64
    → q < 64
    → r < 64
    → s < 64
    → three_bytes
        (symbol_value (symbol p))
        (symbol_value (symbol q))
        (symbol_value (symbol r))
        (symbol_value (symbol s))
        (some rest)
      ≡ some ((p * 4 + q / 16) ∷ (q % 16 * 16 + r / 4) ∷ (r % 4 * 64 + s) ∷ rest)
unfolding three_bytes
three_of p q r s rest hp hq hr hs =
    rw
      (
        symbol_value-symbol p hp,
        symbol_value-symbol q hq,
        symbol_value-symbol r hr,
        symbol_value-symbol s hs,
      )
      refl

same_three :
    {a b c x y z : ℕ} (rest : List ℕ)
    → x ≡ a
    → y ≡ b
    → z ≡ c
    → ◌≡◌ {A = Option (List ℕ)} (some (x ∷ y ∷ z ∷ rest)) (some (a ∷ b ∷ c ∷ rest))
same_three rest hx hy hz = cc

same_two :
    {a b x y : ℕ}
    → x ≡ a
    → y ≡ b
    → ◌≡◌ {A = Option (List ℕ)} (some (x ∷ y ∷ [])) (some (a ∷ b ∷ []))
same_two hx hy = cc

-- A text of bytes is decoded to the bytes that were encoded.
pub b64decode-b64encode :
    (bytes : List ℕ) → All (λ b. b < 256) bytes → b64decode (b64encode bytes) ≡ some bytes
unfolding b64encode b64decode one_byte two_bytes
b64decode-b64encode [] h = refl
b64decode-b64encode (a ∷ []) (ha, _) =
    rw (symbol_value-symbol (a / 4) (omega arith), symbol_value-symbol (a % 4 * 16) (omega arith))
      (ap (λ n. some (n ∷ [])) (omega arith))
b64decode-b64encode (a ∷ b ∷ []) (ha, (hb, _)) =
    rw
      (
        symbol-padding (b % 16 * 4) (omega arith),
        symbol_value-symbol (a / 4) (omega arith),
        symbol_value-symbol (a % 4 * 16 + b / 16) (omega arith),
        symbol_value-symbol (b % 16 * 4) (omega arith),
      )
      (same_two (omega arith) (omega arith))
b64decode-b64encode (a ∷ b ∷ c ∷ bytes) (ha, (hb, (hc, h))) =
    decode_group (symbol (a / 4)) (symbol (a % 4 * 16 + b / 16)) (symbol (b % 16 * 4 + c / 64))
      (symbol (c % 64)) (b64encode bytes) (symbol-padding (b % 16 * 4 + c / 64) (omega arith))
      (symbol-padding (c % 64) (omega arith))
    ∙ rw (b64decode-b64encode bytes h) (
        three_of (a / 4) (a % 4 * 16 + b / 16) (b % 16 * 4 + c / 64) (c % 64) bytes (omega arith)
          (omega arith) (omega arith) (omega arith)
        ∙ same_three bytes (omega arith) (omega arith) (omega arith))
