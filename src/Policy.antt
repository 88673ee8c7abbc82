-- ===== src/Policy.antt =====
-- tools/apply_sourceafis_decision_policy_v1.py: from one result row to its decision and outcome.
pub mod Number
pub mod Score
pub mod Verdict
pub mod Rates
pub mod Summary
pub mod Aggregate
mod Tests
use fingerprint_full_matcher.Prelude.{
  ℕ, String, Bool, true, false, not, ◌&&◌, Option, none, some, List, [], ◌∷◌, str_eq, if◌then◌else◌,
}
use fingerprint_full_matcher.Prelude.Int.{ℤ, pos, negsuc, ltb_ℤ}
use fingerprint_full_matcher.Prelude.Dict.{Dict, lookup, get}
use fingerprint_full_matcher.Prelude.Text.{codes, is_empty, is_blank}
use fingerprint_full_matcher.Prelude.Result.{Result, ok, err, ◌>>=◌, ◌>>◌, require, of_option}
use fingerprint_full_matcher.Policy.Number.{Decimal, finite, infinite, nan, decimal, scaled}

-- `InvalidInput`, and the exceptions of a missing key and of `machine_rate`.
pub data PolicyError : Type 0 where
  invalid_input : String → PolicyError
  key_error : String → PolicyError
  invalid_counts : PolicyError

abbrev pub expected_class : Dict String
expected_class =
    ("plain_self", "same")
    ∷ ("roll_self", "same")
    ∷ ("plain_roll_genuine", "same")
    ∷ ("plain_roll_next_subject", "different")
    ∷ []

abbrev pub threshold_text : String
threshold_text = "40.0"

-- `Decimal(THRESHOLD_TEXT)`
abbrev pub threshold : Decimal
threshold = finite false 400 (negsuc 0)

pub is_finite : Decimal → Bool
is_finite (finite _ _ _) = true
is_finite _ = false

-- `a < b`, asked of finite numbers only.
unfoldable pub less : Decimal → Decimal → Bool
unfolding scaled
less (finite sa ca ea) (finite sb cb eb) = ltb_ℤ (scaled sa ca ea eb) (scaled sb cb eb ea)
less _ _ = false

abbrev outcomes : List (String × String × String)
outcomes =
    ("same", "same", "correct_same")
    ∷ ("same", "different", "false_non_match")
    ∷ ("different", "same", "false_match")
    ∷ ("different", "different", "correct_different")
    ∷ []

mapped : List (String × String × String) → String → String → Result PolicyError String
mapped [] expected decision = err (invalid_input "unsupported expected-class decision mapping")
mapped ((e, d, outcome) ∷ rest) expected decision =
    if str_eq expected e && str_eq decision d then ok outcome else mapped rest expected decision

unfoldable pub outcome_for : String → String → Result PolicyError String
unfolding mapped
outcome_for expected decision =
    if str_eq decision "no_decision"
    then ok "technical_failure"
    else mapped outcomes expected decision

-- The tuple that `decision_for_row` returns.
pub record Decided : Type 0 where
  pub expected : String
  pub decision : String
  pub outcome : String
  pub raw_payload : Option String
  pub error_payload : Option String

pub class_of : String → Result PolicyError String
class_of kind = of_option (invalid_input "unknown comparison kind") (lookup kind expected_class)

pub parsed_score : String → Result PolicyError Decimal
parsed_score raw_text =
    of_option (invalid_input "successful row score is not decimal") (decimal raw_text)

pub scored_row : String → String → String → String → Result PolicyError Decided
scored_row expected raw_text error_code error_message = do
  require (not (is_empty raw_text)) (invalid_input "successful row has no score")
  require (is_empty error_code && is_empty error_message)
      (invalid_input "successful row carries error information")
  score ← parsed_score raw_text
  require (is_finite score) (invalid_input "successful row score is not finite")
  require (not (less score (finite false 0 (pos 0))))
      (invalid_input "successful row score is negative")
  let decision = if less score threshold then "different" else "same"
  outcome ← outcome_for expected decision
  ok (record {
    expected = expected;
    decision = decision;
    outcome = outcome;
    raw_payload = some raw_text;
    error_payload = none;
  })

pub failed_row : String → String → String → Result PolicyError Decided
failed_row expected raw_text error_code = do
  require (is_empty raw_text) (invalid_input "failed row carries a score")
  require (not (is_blank (codes error_code))) (invalid_input "failed row has no error code")
  outcome ← outcome_for expected "no_decision"
  ok (record {
    expected = expected;
    decision = "no_decision";
    outcome = outcome;
    raw_payload = none;
    error_payload = some error_code;
  })

pub decision_for_row : Dict String → String → Result PolicyError Decided
decision_for_row row comparison_kind = do
  expected ← class_of comparison_kind
  let status = get row "status" ""
  let raw_text = get row "raw_score" ""
  let error_code = get row "error_code" ""
  let error_message = get row "error_message" ""
  if str_eq status "ok"
      then scored_row expected raw_text error_code error_message
      else failed_row expected raw_text error_code
