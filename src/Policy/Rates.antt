-- ===== src/Policy/Rates.antt =====
-- `machine_rate` of tools/apply_sourceafis_decision_policy_v1.py. A rate's text has six decimals;
-- here it is the number of millionths. `Decimal` division rounds to 28 digits, half to even, before
-- `quantize` rounds half up.
pub mod Exact
use fingerprint_full_matcher.Prelude.{
  ◌≡◌, ◌≤◌, arith, ℕ, zero, suc, ◌+◌, ◌-◌, ◌*◌, ◌/◌, ◌%◌, ◌^◌, Bool, ◌||◌, Option, none, some, ltb,
  leb, ◌==◌, if◌then◌else◌,
}
use fingerprint_full_matcher.Prelude.Int.{ℤ, pos, negsuc, ltb_ℤ, pos_part}
use fingerprint_full_matcher.Prelude.Result.{Result, ok, err}
use fingerprint_full_matcher.Policy.{PolicyError, invalid_counts}

pub record Rate : Type 0 where
  pub numerator : ℤ
  pub denominator : ℤ
  pub value : Option ℕ

-- The digits after the point that a 28-digit quotient of `n` by `d` has: the least `s` that brings
-- the quotient to 10^27, sought from `s` on.
quotient_scale : ℕ → ℕ → ℕ → ℕ → ℕ
quotient_scale zero n d s = s
quotient_scale (suc fuel) n d s =
    let more = quotient_scale fuel n d (s + 1) in if leb (10 ^ 27 * d) (n * 10 ^ s) then s else more

round_half_even : ℕ → ℕ → ℕ
round_half_even a b =
    let q = a / b in
    let twice = 2 * (a % b) in if ltb twice b then q else if ltb b twice then q + 1 else q + q % 2

round_half_up : ℕ → ℕ → ℕ
round_half_up a b = (2 * a + b) / (2 * b)

-- `(Decimal(n) / Decimal(d)).quantize(Decimal("0.000001"), rounding=ROUND_HALF_UP)`, for `n ≤ d`:
-- the quotient's scale is 27 at least, and a digit of `d` adds one at most.
millionths : ℕ → ℕ → ℕ → ℕ
unfolding quotient_scale round_half_even round_half_up
millionths fuel n d =
    let s = quotient_scale fuel n d 27 in
    round_half_up (round_half_even (n * 10 ^ s) d * 10 ^ 6) (10 ^ s)

unfoldable pub rate_value : ℕ → ℕ → Option ℕ
unfolding millionths
rate_value n d = if d == 0 then none else if n == 0 then some 0 else some (millionths d n d)

unfoldable pub machine_rate : ℤ → ℤ → Result PolicyError Rate
machine_rate numerator denominator =
    if ltb_ℤ numerator (pos 0) || ltb_ℤ denominator (pos 0) || ltb_ℤ denominator numerator
    then err invalid_counts
    else ok (record {
      numerator = numerator;
      denominator = denominator;
      value = rate_value (pos_part numerator) (pos_part denominator);
    })

-- The rate of two counts of which the first is the lesser.
unfoldable pub rate_of : ℕ → ℕ → Rate
rate_of n d = record { numerator = pos n; denominator = pos d; value = rate_value n d }

pub machine_rate_lem : (n d : ℕ) → n ≤ d → machine_rate (pos n) (pos d) ≡ ok (rate_of n d)
unfolding machine_rate rate_of
machine_rate_lem n d h = ground arith
