-- ===== src/Policy/Summary.antt =====
-- `summarize_rows` of tools/apply_sourceafis_decision_policy_v1.py: the counts and the rates of the
-- derived rows of one bundle.
pub mod Counting
pub mod Totals
use text.Mathlib.Text.{starts_with}
use fingerprint_full_matcher.Prelude.{
  ℕ, suc, ◌+◌, String, ◌<>◌, Bool, List, [], ◌∷◌, length, str_eq, if◌then◌else◌,
}
use fingerprint_full_matcher.Prelude.Int.{ℤ, pos}
use fingerprint_full_matcher.Prelude.Result.{Result, ok, err, ◌>>=◌}
use fingerprint_full_matcher.Policy.{PolicyError, key_error}
use fingerprint_full_matcher.Policy.Rates.{Rate, machine_rate}

-- What `summarize_rows` reads of a derived row; `process_bundle` writes each of these keys.
pub record DerivedRow : Type 0 where
  pub expected_class : String
  pub decision : String
  pub outcome : String

pub record Counts : Type 0 where
  pub planned_pairs : ℕ
  pub successful_scores : ℕ
  pub technical_failures : ℕ
  pub same_decisions : ℕ
  pub different_decisions : ℕ
  pub no_decisions : ℕ
  pub correct_same : ℕ
  pub correct_different : ℕ
  pub false_matches : ℕ
  pub false_non_matches : ℕ
  pub correct_decisions : ℕ
  pub incorrect_decisions : ℕ

abbrev pub no_counts : ℕ → Counts
no_counts planned = record {
  planned_pairs = planned;
  successful_scores = 0;
  technical_failures = 0;
  same_decisions = 0;
  different_decisions = 0;
  no_decisions = 0;
  correct_same = 0;
  correct_different = 0;
  false_matches = 0;
  false_non_matches = 0;
  correct_decisions = 0;
  incorrect_decisions = 0;
}

-- `counts[f"{decision}_decisions"] += 1`: five of the keys have that form.
count_decision : String → Counts → Result PolicyError Counts
count_decision decision c =
    if str_eq decision "same"
    then ok (record c { same_decisions = c.same_decisions + 1 })
    else if str_eq decision "different"
    then ok (record c { different_decisions = c.different_decisions + 1 })
    else if str_eq decision "no"
    then ok (record c { no_decisions = c.no_decisions + 1 })
    else if str_eq decision "correct"
    then ok (record c { correct_decisions = c.correct_decisions + 1 })
    else if str_eq decision "incorrect"
    then ok (record c { incorrect_decisions = c.incorrect_decisions + 1 })
    else err (key_error (decision <> "_decisions"))

-- `counts[outcome_count[row["outcome"]]] += 1`
count_outcome : String → Counts → Result PolicyError Counts
count_outcome outcome c =
    if str_eq outcome "correct_same"
    then ok (record c { correct_same = c.correct_same + 1 })
    else if str_eq outcome "correct_different"
    then ok (record c { correct_different = c.correct_different + 1 })
    else if str_eq outcome "false_match"
    then ok (record c { false_matches = c.false_matches + 1 })
    else if str_eq outcome "false_non_match"
    then ok (record c { false_non_matches = c.false_non_matches + 1 })
    else err (key_error outcome)

count_correctness : String → Counts → Counts
count_correctness outcome c =
    if starts_with outcome "correct_"
    then record c { correct_decisions = c.correct_decisions + 1 }
    else record c { incorrect_decisions = c.incorrect_decisions + 1 }

count_success : DerivedRow → Counts → Result PolicyError Counts
unfolding count_decision count_outcome count_correctness
count_success row c = do
  c' ← count_decision row.decision (record c { successful_scores = c.successful_scores + 1 })
  c'' ← count_outcome row.outcome c'
  ok (count_correctness row.outcome c'')

-- One round of the loop.
pub count_row : DerivedRow → Counts → Result PolicyError Counts
unfolding count_success
count_row row c =
    if str_eq row.decision "no_decision"
    then ok (record c {
      technical_failures = c.technical_failures + 1;
      no_decisions = c.no_decisions + 1;
    })
    else count_success row c

pub count_rows : List DerivedRow → Counts → Result PolicyError Counts
count_rows [] c = ok c
count_rows (row ∷ rows) c = do c' ← count_row row c; count_rows rows c'

-- The fields that depend on the class of the rows.
pub data ClassRates : Type 0 where
  same_class :
      (correct_same_count false_non_match_count : ℕ)
      (match_rate_valid false_non_match_rate_valid : Rate)
      → ClassRates
  different_class :
      (correct_different_count false_match_count : ℕ)
      (correct_reject_rate_valid false_match_rate_valid : Rate)
      → ClassRates

pub record Summary : Type 0 where
  pub counts : Counts
  pub decision_coverage : Rate
  pub technical_failure_rate : Rate
  pub valid_only_correct_rate : Rate
  pub strict_correct_completion_rate : Rate
  pub by_class : ClassRates

pub first_class : List DerivedRow → String
first_class [] = "same"
first_class (row ∷ rows) = row.expected_class

pub class_rates : String → Counts → Result PolicyError ClassRates
class_rates expected c =
    if str_eq expected "same"
    then (do
      match_rate ← machine_rate (pos c.correct_same) (pos c.successful_scores)
      non_match_rate ← machine_rate (pos c.false_non_matches) (pos c.successful_scores)
      ok (same_class c.correct_same c.false_non_matches match_rate non_match_rate))
    else (do
      reject_rate ← machine_rate (pos c.correct_different) (pos c.successful_scores)
      false_match_rate ← machine_rate (pos c.false_matches) (pos c.successful_scores)
      ok (different_class c.correct_different c.false_matches reject_rate false_match_rate))

pub summarize_rows : List DerivedRow → Result PolicyError Summary
unfolding first_class
summarize_rows rows = do
  c ← count_rows rows (no_counts (length rows))
  coverage ← machine_rate (pos c.successful_scores) (pos c.planned_pairs)
  failure_rate ← machine_rate (pos c.technical_failures) (pos c.planned_pairs)
  valid_correct ← machine_rate (pos c.correct_decisions) (pos c.successful_scores)
  strict_correct ← machine_rate (pos c.correct_decisions) (pos c.planned_pairs)
  by_class ← class_rates (first_class rows) c
  ok (record {
    counts = c;
    decision_coverage = coverage;
    technical_failure_rate = failure_rate;
    valid_only_correct_rate = valid_correct;
    strict_correct_completion_rate = strict_correct;
    by_class = by_class;
  })
