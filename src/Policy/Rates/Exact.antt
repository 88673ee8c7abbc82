-- ===== src/Policy/Rates/Exact.antt =====
-- Rounding a quotient to 28 digits before it is rounded to six decimals changes no rate.
use native.Mathlib.Nat.{
  le_of_mul-le-mul_left, lt_of_mul-lt-mul_left, div-eq_of_lt-le, mul-le-mul_right, div-add-mod,
  mod-lt, pow-suc, mul-div_cancel_left, div-eq_of_lt,
}
use fingerprint_full_matcher.Prelude.{
  ℕ, zero, suc, ◌+◌, ◌-◌, ◌*◌, ◌/◌, ◌%◌, ◌^◌, ◌≤◌, ◌<◌, ◌≡◌, refl, ◌∙◌, sym, ap, none, some, arith,
  ◌==◌, if◌then◌else◌, inl, inr, ltb, Bool-cases, tests,
}
use fingerprint_full_matcher.Prelude.Int.{pos}
use fingerprint_full_matcher.Prelude.Result.{ok}
use fingerprint_full_matcher.Policy.Rates.{
  quotient_scale, round_half_even, round_half_up, millionths, rate_value, rate_of, machine_rate,
  machine_rate_lem,
}

-- A count `n` out of `d` at the scale `P`, a power of ten above ten million: `c` is the quotient's
-- coefficient, and `m` and `r` are the rounded number of millionths and what it leaves.
module _ (n d c P Q m r : ℕ) (positive : 0 < d) (scale : P ≡ 10_000_000 * Q)
    (big : 1_000_000 * d < P) (below : 2 * (n * P) ≤ 2 * (c * d) + d)
    (above : 2 * (c * d) ≤ 2 * (n * P) + d) (exact : (k : ℕ) → n * P ≡ d * k → c * d ≡ n * P)
    (split : 2 * (n * 1_000_000) + d ≡ 2 * d * m + r) (rest : r < 2 * d) where
  upper : 2 * (c * 1_000_000) + P < (m + 1) * (2 * P)
  upper =
      lt_of_mul-lt-mul_left d
        (omega (arith, ap (λ t. t * P) split, mul-le-mul_right P rest, big, above))

lower_tie :
    (n d c P Q m : ℕ)
    → P ≡ 10_000_000 * Q
    → ((k : ℕ) → n * P ≡ d * k → c * d ≡ n * P)
    → 2 * (n * 1_000_000) + d ≡ 2 * d * m
    → 0 < d
    → m * (2 * P) ≤ 2 * (c * 1_000_000) + P
lower_tie n d c P Q zero scale exact split positive = omega arith
lower_tie n d c P Q (suc m) scale exact split positive =
    let even : n * P ≡ d * ((2 * m + 1) * (5 * Q)) =
      rw scale (omega (arith, ap (λ t. t * (5 * Q)) split)) in
    let whole : c * d ≡ n * P = exact ((2 * m + 1) * (5 * Q)) even in
    le_of_mul-le-mul_left {k = d} (omega (arith, ap (λ t. t * P) split, whole)) positive

lower :
    (n d c P Q m r : ℕ)
    → 0 < d
    → P ≡ 10_000_000 * Q
    → 1_000_000 * d < P
    → 2 * (n * P) ≤ 2 * (c * d) + d
    → ((k : ℕ) → n * P ≡ d * k → c * d ≡ n * P)
    → 2 * (n * 1_000_000) + d ≡ 2 * d * m + r
    → m * (2 * P) ≤ 2 * (c * 1_000_000) + P
lower n d c P Q m zero positive scale big below exact split =
    lower_tie n d c P Q m scale exact (omega arith) positive
lower n d c P Q m (suc r) positive scale big below exact split =
    le_of_mul-le-mul_left {k = d} (omega (arith, ap (λ t. t * P) split)) positive

parity-mul-le : (q b : ℕ) → q % 2 * b ≤ 1 * b
parity-mul-le q b = mul-le-mul_right b (omega arith)

-- Rounding half to even stays within half a unit, and leaves a whole quotient alone.
round_half_even-bounds :
    (a b : ℕ)
    → 0 < b
    → (2 * a ≤ 2 * (round_half_even a b * b) + b) × (2 * (round_half_even a b * b) ≤ 2 * a + b)
unfolding round_half_even
round_half_even-bounds a b h = elim (Bool-cases (ltb (2 * (a % b)) b)) [
  | inl down ↦ rw down (omega (tests, down, div-add-mod a b), omega (tests, down, div-add-mod a b))
  | inr not_down ↦ elim (Bool-cases (ltb b (2 * (a % b)))) [
    | inl up ↦
        rw (not_down, up)
          (
            omega (tests, not_down, up, div-add-mod a b, mod-lt a h),
            omega (tests, not_down, up, div-add-mod a b, mod-lt a h),
          )
    | inr not_up ↦
        rw (not_down, not_up)
          (
            omega (tests, not_down, not_up, div-add-mod a b, parity-mul-le (a / b) b),
            omega (tests, not_down, not_up, div-add-mod a b, parity-mul-le (a / b) b),
          )
  ]
]

round_half_even-whole : (a b k : ℕ) → 0 < b → a ≡ b * k → round_half_even a b * b ≡ a
unfolding round_half_even
round_half_even-whole a b k h e =
    let q : a / b ≡ k = rw e (mul-div_cancel_left k h) in
    ground (arith, q, div-add-mod a b, ap (λ t. b * t) q)

-- A scale of 27 digits or more is a multiple of ten million.
ten_million : (t s : ℕ) → s ≡ t + 27 → (Q : ℕ) × (10 ^ s ≡ 10_000_000 * Q) × (10 ^ 27 ≤ 10 ^ s)
ten_million zero s e = let same : s ≡ 27 = omega arith in (10 ^ 20, rw same, rw same (omega arith))
ten_million (suc t) zero e = absurd (omega arith)
ten_million (suc t) (suc s) e =
    let (Q, scale, big) = ten_million t s (omega arith) in
    (Q * 10, rw pow-suc (omega (arith, scale)), rw (pow-suc 10 s) (omega (arith, big)))

quotient_scale-ge : (fuel n d s : ℕ) → s ≤ quotient_scale fuel n d s
unfolding quotient_scale
quotient_scale-ge zero n d s = omega arith
quotient_scale-ge (suc fuel) n d s = ground (arith, quotient_scale-ge fuel n d (s + 1))

millionths-exact :
    (fuel n d : ℕ) → 0 < d → d ≤ 10 ^ 20 → millionths fuel n d ≡ round_half_up (n * 1_000_000) d
unfolding millionths round_half_up
millionths-exact fuel n d positive small =
    let s = quotient_scale fuel n d 27 in
    let above : 27 ≤ s = quotient_scale-ge fuel n d 27 in
    let (Q, scale, big) = ten_million (s - 27) s (omega arith) in
    let P = 10 ^ s in
    let c = round_half_even (n * P) d in
    let (below, over) = round_half_even-bounds (n * P) d positive in
    let m = (2 * (n * 1_000_000) + d) / (2 * d) in
    let r = (2 * (n * 1_000_000) + d) % (2 * d) in
    let split : 2 * (n * 1_000_000) + d ≡ 2 * d * m + r =
      sym (div-add-mod (2 * (n * 1_000_000) + d) (2 * d)) in
    div-eq_of_lt-le (2 * P)
      (lower n d c P Q m r positive scale (omega arith) below
        (λ k e. round_half_even-whole (n * P) d k positive e) split)
      (upper n d c P Q m r positive scale (omega arith) below over
        (λ k e. round_half_even-whole (n * P) d k positive e) split (mod-lt _ (omega arith)))

half_of : (d : ℕ) → 0 < d → (0 + d) / (2 * d) ≡ 0
half_of d h = div-eq_of_lt (omega arith)

-- For counts up to 10^20 the rate is the exact fraction rounded half up to millionths.
pub rate_value-exact :
    (n d : ℕ) → 0 < d → d ≤ 10 ^ 20 → rate_value n d ≡ some ((2 * (n * 1_000_000) + d) / (2 * d))
unfolding rate_value round_half_up
rate_value-exact zero d positive small = ground (arith, half_of d positive)
rate_value-exact (suc n) d positive small =
    rw (millionths-exact d (suc n) d positive small) (ground arith)

-- For counts up to 10^20, of which the first is not the greater, `machine_rate` raises nothing; its
-- value is absent exactly for the denominator 0, and is otherwise the exact fraction in millionths,
-- rounded half up: the 28-digit quotient in between changes no rate.
pub machine_rate-exact :
    (n d : ℕ)
    → n ≤ d
    → d ≤ 10 ^ 20
    → machine_rate (pos n) (pos d)
      ≡ ok (record {
        numerator = pos n;
        denominator = pos d;
        value = if d == 0 then none else some ((2 * (n * 1_000_000) + d) / (2 * d));
      })
unfolding rate_of
machine_rate-exact n zero h small = machine_rate_lem n zero h ∙ ap ok (unfold rate_value in refl)
machine_rate-exact n (suc d) h small =
    machine_rate_lem n (suc d) h
    ∙ ap (λ v. ok (record { numerator = pos n; denominator = pos (suc d); value = v }))
        (rate_value-exact n (suc d) (omega arith) small ∙ ground arith)
