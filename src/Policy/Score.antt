-- ===== src/Policy/Score.antt =====
-- What the tests of `decision_for_row` say of a score, and what its two branches return.
use native.Mathlib.Nat.{zero-add, pow-suc}
use fingerprint_full_matcher.Prelude.{
  ℕ, zero, suc, ◌<◌, ◌*◌, ◌^◌, ◌+◌, String, Bool, true, false, not, ◌≡◌, refl, ◌≢◌, ◌↔◌, none, some,
  arith, eq_iff, if◌then◌else◌, leb,
}
use fingerprint_full_matcher.Prelude.Int.{pos, pos_part, neg_part}
use fingerprint_full_matcher.Prelude.Text.{codes, is_blank, is_empty}
use fingerprint_full_matcher.Prelude.Result.{ok}
use fingerprint_full_matcher.Policy.Number.{Decimal, finite, decimal}
use fingerprint_full_matcher.Policy.{
  threshold, is_finite, less, outcome_for, Decided, parsed_score, scored_row, failed_row,
}

-- A finite number that is not below zero: `-0` counts.
abbrev pub IsScore : Decimal → Type 0
IsScore (finite false c e) = Unit
IsScore (finite true c e) = c ≡ 0
IsScore _ = ⊥

-- The number is at least 40: its coefficient times a power of ten, in tenths, is at least 400.
abbrev pub reaches : Decimal → Bool
reaches (finite false c e) = leb (400 * 10 ^ neg_part e) (c * 10 ^ (pos_part e + 1))
reaches _ = false

pub ten_pos : (n : ℕ) → 0 < 10 ^ n
ten_pos zero = omega arith
ten_pos (suc n) = rw pow-suc (omega (arith, ten_pos n))

pub less-threshold : (d : Decimal) → IsScore d → less d threshold ≡ not (reaches d)
unfolding less
less-threshold (finite false c e) h = rw zero-add (ground arith)
less-threshold (finite true c e) h = rw h (ground (arith, ten_pos (0 + neg_part e)))
less-threshold _ h = absurd h

pub IsScore-of_tests :
    (d : Decimal) → is_finite d ≡ true → less d (finite false 0 (pos 0)) ≡ false → IsScore d
unfolding less is_finite
IsScore-of_tests (finite false c e) f l = tt
IsScore-of_tests (finite true c e) f l = grind (arith, ten_pos (pos_part e + 0))
IsScore-of_tests _ f l = cc

pub tests-of_IsScore :
    (d : Decimal) → IsScore d → (is_finite d ≡ true) × (less d (finite false 0 (pos 0)) ≡ false)
unfolding less is_finite
tests-of_IsScore (finite false c e) h = (refl, ground arith)
tests-of_IsScore (finite true c e) h = (refl, rw h (ground arith))
tests-of_IsScore _ h = absurd h

-- The steps of `scored_row`, read off a result and back.
pub scored_row_lem :
    (expected raw code message : String) (score : Decimal) (out : Decided)
    → decimal raw ≡ some score
    → scored_row expected raw code message ≡ ok out
    → (is_empty raw ≡ false)
      × (is_empty code ≡ true)
      × (is_empty message ≡ true)
      × (is_finite score ≡ true)
      × (less score (finite false 0 (pos 0)) ≡ false)
      × (out.decision ≡ (if less score threshold then "different" else "same"))
      × (outcome_for out.expected out.decision ≡ ok out.outcome)
      × (out.expected ≡ expected)
      × (out.raw_payload ≡ some raw)
      × (out.error_payload ≡ none)
unfolding scored_row parsed_score
scored_row_lem expected raw code message score out p h = ground arith

pub scored_row-parsed :
    (expected raw code message : String) (out : Decided)
    → scored_row expected raw code message ≡ ok out
    → decimal raw ≢ none
unfolding scored_row parsed_score
scored_row-parsed expected raw code message out h p = ground arith

pub scored_row-returns :
    (expected raw code message : String) (score : Decimal) (out : Decided)
    → is_empty raw ≡ false
    → is_empty code ≡ true
    → is_empty message ≡ true
    → decimal raw ≡ some score
    → is_finite score ≡ true
    → less score (finite false 0 (pos 0)) ≡ false
    → out.decision ≡ (if less score threshold then "different" else "same")
    → outcome_for out.expected out.decision ≡ ok out.outcome
    → out.expected ≡ expected
    → out.raw_payload ≡ some raw
    → out.error_payload ≡ none
    → scored_row expected raw code message ≡ ok out
unfolding scored_row parsed_score
scored_row-returns expected raw code message score out a b c p d e f g h i j = ground arith

pub failed_row_lem :
    (expected raw code : String) (out : Decided)
    → (failed_row expected raw code ≡ ok out) ↔ (
        (is_empty raw ≡ true)
        × (is_blank (codes code) ≡ false)
        × (out.decision ≡ "no_decision")
        × (outcome_for out.expected out.decision ≡ ok out.outcome)
        × (out.expected ≡ expected)
        × (out.raw_payload ≡ none)
        × (out.error_payload ≡ some code))
unfolding failed_row
failed_row_lem expected raw code out = ground arith

pub empty_iff : (s : String) → (is_empty s ≡ true) ↔ (s ≡ "")
empty_iff s = eq_iff s ""

pub decision-less :
    (d : Decimal)
    → IsScore d
    → ◌≡◌ {A = String}
        (if less d threshold then "different" else "same")
        (if reaches d then "same" else "different")
decision-less d h = rw (less-threshold d h) (ground arith)
