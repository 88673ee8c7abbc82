-- ===== src/Policy/Number.antt =====
-- Python's `Decimal`: its constructor from a text, and the comparisons that the policy makes.
-- Digits are the ASCII ones; the module's limit of 10^18 on exponents is not modelled.
use fingerprint_full_matcher.Prelude.{
  ℕ, ◌+◌, ◌-◌, ◌*◌, ◌^◌, String, Bool, true, false, ◌&&◌, Option, none, some, List, [], ◌∷◌, ◌++◌,
  map, length, ◌==◌, if◌then◌else◌,
}
use fingerprint_full_matcher.Prelude.Int.{ℤ, pos, pos_part, neg_part, sub_ℕ, ◌-ℤ◌}
use fingerprint_full_matcher.Prelude.Text.{codes, in_range, strip}

pub data Decimal : Type 0 where
  finite : Bool → ℕ → ℤ → Decimal
  infinite : Bool → Decimal
  nan : Decimal

is_digit : ℕ → Bool
is_digit c = in_range b'0' b'9' c

lower : ℕ → ℕ
lower c = if in_range b'A' b'Z' c then c + 32 else c

drop_underscores : List ℕ → List ℕ
drop_underscores [] = []
drop_underscores (c ∷ cs) = let rest = drop_underscores cs in if c == b'_' then rest else c ∷ rest

same_codes : List ℕ → List ℕ → Bool
same_codes [] [] = true
same_codes (a ∷ as') (b ∷ bs) = a == b && same_codes as' bs
same_codes _ _ = false

all_digits : List ℕ → Bool
unfolding is_digit
all_digits [] = true
all_digits (c ∷ cs) = is_digit c && all_digits cs

-- The digits at the front, and what follows them.
pub span_digits : List ℕ → List ℕ × List ℕ
unfolding is_digit
span_digits [] = ([], [])
span_digits (c ∷ cs) =
    let (ds, rest) = span_digits cs in if is_digit c then (c ∷ ds, rest) else ([], c ∷ cs)

digits_value : ℕ → List ℕ → ℕ
digits_value n [] = n
digits_value n (c ∷ cs) = digits_value (n * 10 + (c - b'0')) cs

signed : Bool → ℕ → ℤ
signed negative n = if negative then sub_ℕ 0 n else pos n

split_sign : List ℕ → Bool × List ℕ
split_sign [] = (false, [])
split_sign (c ∷ cs) =
    if c == b'-' then (true, cs) else if c == b'+' then (false, cs) else (false, c ∷ cs)

whole_exponent : Bool → List ℕ × List ℕ → Option ℤ
unfolding digits_value signed
whole_exponent negative (d ∷ ds, []) = some (signed negative (digits_value 0 (d ∷ ds)))
whole_exponent negative _ = none

-- The exponent part, which may be absent.
exponent_part : List ℕ → Option ℤ
unfolding lower split_sign span_digits whole_exponent
exponent_part [] = some (pos 0)
exponent_part (c ∷ cs) =
    let (negative, rest) = split_sign cs in
    if lower c == b'e' then whole_exponent negative (span_digits rest) else none

fraction_part : List ℕ → List ℕ × List ℕ
unfolding span_digits
fraction_part [] = ([], [])
fraction_part (c ∷ cs) = if c == b'.' then span_digits cs else ([], c ∷ cs)

finish : Bool → List ℕ → List ℕ → Option ℤ → Option Decimal
unfolding digits_value
finish negative whole fraction none = none
finish negative whole fraction (some e) =
    if length (whole ++ fraction) == 0
    then none
    else some (finite negative (digits_value 0 (whole ++ fraction)) (e -ℤ pos (length fraction)))

number : Bool → List ℕ → Option Decimal
unfolding span_digits fraction_part exponent_part finish
number negative cs =
    let (whole, after) = span_digits cs in
    let (fraction, tail) = fraction_part after in
    finish negative whole fraction (exponent_part tail)

starts_nan : List ℕ → Bool
unfolding all_digits
starts_nan (a ∷ b ∷ c ∷ cs) = same_codes (a ∷ b ∷ c ∷ []) (codes "nan") && all_digits cs
starts_nan _ = false

head_is : ℕ → List ℕ → Bool
head_is c [] = false
head_is c (d ∷ ds) = c == d

tail_of : List ℕ → List ℕ
tail_of [] = []
tail_of (d ∷ ds) = ds

unsigned_text : Bool → List ℕ → Option Decimal
unfolding same_codes starts_nan number lower head_is tail_of
unsigned_text negative cs =
    let folded = map lower cs in
    if same_codes folded (codes "inf")
    then some (infinite negative)
    else if same_codes folded (codes "infinity")
    then some (infinite negative)
    else if starts_nan folded
    then some nan
    else if starts_nan (tail_of folded) && head_is b's' folded
    then some nan
    else number negative cs

-- `Decimal(text)`; `none` is `InvalidOperation`.
unfoldable pub decimal : String → Option Decimal
unfolding drop_underscores split_sign unsigned_text strip
decimal text =
    let (negative, rest) = split_sign (drop_underscores (strip (codes text))) in
    unsigned_text negative rest

-- Two finite numbers, brought to one power of ten.
unfoldable pub scaled : Bool → ℕ → ℤ → ℤ → ℤ
unfolding signed
scaled negative coefficient exponent other =
    signed negative (coefficient * 10 ^ (pos_part exponent + neg_part other))
