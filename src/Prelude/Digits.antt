-- ===== src/Prelude/Digits.antt =====
-- Python's `str` and `int` between whole numbers and texts. Digits are the ASCII ones.
use Prim.Native.Nat.{ℕ, zero, suc, ◌+◌, ◌-◌, ◌*◌, ◌/◌, ◌%◌, ◌<◌}
use Prim.Native.Char.{Char, char, IsScalar}
use Prim.Native.String.{String}
use mathlib.Core.Path.{◌≡◌, refl, ap, sym, ◌∙◌}
use mathlib.Core.Bool.{Bool, true, false, not}
use mathlib.Core.Option.{Option, none, some}
use mathlib.Core.List.{List, [], ◌∷◌}
use mathlib.Core.Logic.{inl, inr}
use text.Mathlib.TextEquality.{eq_iff}
use native.Mathlib.Omega.{arith}
use fingerprint_full_matcher.Prelude.Tests.{Bool-cases, ltb→lt, ltb→ge, ltb, ◌==◌, if◌then◌else◌}
use fingerprint_full_matcher.Prelude.Int.{ℤ, pos, negsuc, sub_ℕ}
use fingerprint_full_matcher.Prelude.Text.{
  codes, in_range, is_space, is_blank, drop_spaces, is_empty,
}

pub scalar : (n : ℕ) → n < 55296 → IsScalar n
scalar n h = ground arith

abbrev pub digit_char : ℕ → Char
digit_char d = char (48 + d % 10) (scalar (48 + d % 10) (omega arith))

-- The digits of `n` before a text, with fuel for one digit a step.
unfoldable pub digits_before : ℕ → ℕ → String → String
digits_before zero n rest = rest
digits_before (suc fuel) n rest =
    let more = digits_before fuel (n / 10) (String.◌∷◌ (digit_char (n % 10)) rest) in
    if ltb n 10 then String.◌∷◌ (digit_char n) rest else more

-- `str(n)`: `n + 1` steps are enough, as each divides the number by ten.
unfoldable pub int_text : ℤ → String
unfolding digits_before
int_text (pos n) = digits_before (n + 1) n ""
int_text (negsuc n) = String.◌∷◌ "-" (digits_before (n + 2) (n + 1) "")

-- Digits that may be joined by single underscores, up to white space at the end.
unfoldable pub read_digits : Bool → ℕ → List ℕ → Option ℕ
unfolding is_blank
read_digits after_digit n [] = if after_digit then some n else none
read_digits after_digit n (c ∷ cs) =
    let more = read_digits true (n * 10 + (c - 48)) cs in
    let joined = read_digits false n cs in
    if in_range 48 57 c
    then more
    else if not after_digit
    then none
    else if c == 95
    then joined
    else if is_blank (c ∷ cs)
    then some n
    else none

signed_by : Bool → Option ℕ → Option ℤ
signed_by negative none = none
signed_by negative (some n) = some (if negative then sub_ℕ 0 n else pos n)

read_int : List ℕ → Option ℤ
unfolding read_digits signed_by
read_int [] = none
read_int (c ∷ cs) =
    if c == 45
    then signed_by true (read_digits false 0 cs)
    else if c == 43
    then signed_by false (read_digits false 0 cs)
    else signed_by false (read_digits false 0 (c ∷ cs))

-- `int(text)`; `none` is `ValueError`.
unfoldable pub int_of_text : String → Option ℤ
unfolding read_int drop_spaces
int_of_text text = read_int (drop_spaces (codes text))

is_space-digit : (d : ℕ) → d < 10 → is_space (48 + d) ≡ false
unfolding is_space
is_space-digit d h = ground arith

-- One digit read.
read_digits-digit :
    (b : Bool) (v d : ℕ) (cs : List ℕ)
    → d < 10
    → read_digits b v ((48 + d) ∷ cs) ≡ read_digits true (v * 10 + d) cs
unfolding read_digits
read_digits-digit b v d cs h = ground arith

modulus_small : (n : ℕ) → n < 10 → n % 10 ≡ n
modulus_small n h = omega arith

-- Reading the digits of a number before a text is reading that text after the number.
read_digits-digits_before :
    (fuel n : ℕ) (b : Bool) (rest : String)
    → n < fuel
    → read_digits b 0 (codes (digits_before fuel n rest)) ≡ read_digits true n (codes rest)
unfolding digits_before
read_digits-digits_before zero n b rest h = elim h [ ]
read_digits-digits_before (suc fuel) n b rest h = elim (Bool-cases (ltb n 10)) [
  | inl small ↦
      rw (small, modulus_small n (ltb→lt n 10 small))
        (read_digits-digit b 0 n (codes rest) (ltb→lt n 10 small)
          ∙ ap (λ v. read_digits true v (codes rest)) (omega arith))
  | inr large ↦ rw large (
      read_digits-digits_before fuel (n / 10) b (String.◌∷◌ (digit_char (n % 10)) rest)
        (omega (arith, ltb→ge n 10 large))
      ∙ read_digits-digit true (n / 10) (n % 10 % 10) (codes rest) (omega arith)
      ∙ ap (λ v. read_digits true v (codes rest)) (omega arith))
]

-- The first character of a number's text is a digit.
digits_before-head :
    (fuel n : ℕ) (rest : String)
    → n < fuel
    → (d : ℕ) × (cs : List ℕ) × (d < 10) × (codes (digits_before fuel n rest) ≡ (48 + d) ∷ cs)
unfolding digits_before
digits_before-head zero n rest h = elim h [ ]
digits_before-head (suc fuel) n rest h = elim (Bool-cases (ltb n 10)) [
  | inl small ↦ (n % 10, codes rest, omega arith, rw small refl)
  | inr large ↦
      let (d, cs, less, e) =
        digits_before-head fuel (n / 10) (String.◌∷◌ (digit_char (n % 10)) rest)
          (omega (arith, ltb→ge n 10 large)) in
      (d, cs, less, rw large e)
]

read_int-digits :
    (d : ℕ) (cs : List ℕ)
    → d < 10
    → read_int (drop_spaces ((48 + d) ∷ cs)) ≡ signed_by false (read_digits false 0 ((48 + d) ∷ cs))
unfolding read_int drop_spaces
read_int-digits d cs h = rw (is_space-digit d h) (ground arith)

-- `int(str(z))` is `z`.
pub int_of_text-int_text : (z : ℤ) → int_of_text (int_text z) ≡ some z
unfolding int_text int_of_text signed_by
int_of_text-int_text (pos n) =
    let (d, cs, less, e) = digits_before-head (n + 1) n "" (omega arith) in
    ap (λ t. read_int (drop_spaces t)) e
    ∙ read_int-digits d cs less
    ∙ ap (λ t. signed_by false (read_digits false 0 t)) (sym e)
    ∙ ap (signed_by false) (read_digits-digits_before (n + 1) n false "" (omega arith))
int_of_text-int_text (negsuc n) =
    ap (signed_by true) (read_digits-digits_before (n + 2) (n + 1) false "" (omega arith))
    ∙ ground arith

is_empty-codes : (t : String) (c : ℕ) (cs : List ℕ) → codes t ≡ c ∷ cs → is_empty t ≡ false
is_empty-codes t c cs h = elim (Bool-cases (is_empty t)) [
  | inl empty ↦
      let same : t ≡ "" = (eq_iff t "").0 empty in
      let no_codes : ◌≡◌ {A = List ℕ} [] (c ∷ cs) = sym (ap codes same) ∙ h in cc no_codes
  | inr other ↦ other
]

pub is_empty-int_text : (z : ℤ) → is_empty (int_text z) ≡ false
unfolding int_text
is_empty-int_text (pos n) =
    let (d, cs, less, e) = digits_before-head (n + 1) n "" (omega arith) in
    is_empty-codes (digits_before (n + 1) n "") (48 + d) cs e
is_empty-int_text (negsuc n) =
    is_empty-codes (String.◌∷◌ "-" (digits_before (n + 2) (n + 1) "")) 45
      (codes (digits_before (n + 2) (n + 1) "")) refl
