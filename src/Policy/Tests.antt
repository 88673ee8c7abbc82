-- ===== src/Policy/Tests.antt =====
-- Runs of the decision policy, and its theorems at concrete rows.
use fingerprint_full_matcher.Prelude.{
  ◌+◌, String, ◌≡◌, refl, true, false, ◌↔◌, none, some, List, [], ◌∷◌, map, arith,
}
use fingerprint_full_matcher.Prelude.Int.{pos, negsuc}
use fingerprint_full_matcher.Prelude.Dict.{Dict}
use fingerprint_full_matcher.Prelude.Text.{is_blank}
use fingerprint_full_matcher.Prelude.Result.{Result, ok, err}
use fingerprint_full_matcher.Policy.Number.{finite, infinite, nan, decimal}
use fingerprint_full_matcher.Policy.{
  PolicyError, invalid_input, threshold, less, is_finite, outcome_for, Decided, class_of,
  parsed_score, scored_row, failed_row, decision_for_row,
}
use fingerprint_full_matcher.Policy.Verdict.{Verdict, decision_for_row-iff-Verdict}
use fingerprint_full_matcher.Policy.Rates.{machine_rate, rate_value}
use fingerprint_full_matcher.Policy.Rates.Exact.{machine_rate-exact}
use fingerprint_full_matcher.Policy.Summary.{DerivedRow, Counts, no_counts, Summary, summarize_rows}
use fingerprint_full_matcher.Policy.Summary.Counting.{counted, IsBalanced}
use fingerprint_full_matcher.Policy.Summary.Totals.{
  derived_row, decide_all, summarize_rows-decide_all,
}

decimals :
    (decimal "40.0" ≡ some threshold)
    × (decimal "  +4_0.00E-1 " ≡ some (finite false 4000 (negsuc 2)))
    × (decimal "-Infinity" ≡ some (infinite true))
    × (decimal "sNaN12" ≡ some nan)
    × (decimal ".5" ≡ some (finite false 5 (negsuc 0)))
    × (decimal "." ≡ none)
    × (decimal "1e" ≡ none)
    × (decimal "" ≡ none)
unfolding decimal
decimals = (refl, refl, refl, refl, refl, refl, refl, refl)

abbrev scored : String → Dict String
scored score =
    ("status", "ok") ∷ ("raw_score", score) ∷ ("error_code", "") ∷ ("error_message", "") ∷ []

abbrev failed : Dict String
failed =
    ("status", "prepare_a_failure")
    ∷ ("raw_score", "")
    ∷ ("error_code", "invalid_image_input")
    ∷ ("error_message", "unreadable")
    ∷ []

decide : Dict String → String → Result PolicyError Decided
unfolding decision_for_row class_of scored_row failed_row parsed_score is_finite less outcome_for
    decimal is_blank
decide = decision_for_row

abbrev matched : Decided
matched = record {
  expected = "same";
  decision = "same";
  outcome = "correct_same";
  raw_payload = some "40.0";
  error_payload = none;
}

abbrev missed : Decided
missed = record {
  expected = "different";
  decision = "different";
  outcome = "correct_different";
  raw_payload = some "39.99999999999999999999";
  error_payload = none;
}

abbrev undecided : Decided
undecided = record {
  expected = "same";
  decision = "no_decision";
  outcome = "technical_failure";
  raw_payload = none;
  error_payload = some "invalid_image_input";
}

decisions :
    (decide (scored "40.0") "plain_self" ≡ ok matched)
    × (decide (scored "39.99999999999999999999") "plain_roll_next_subject" ≡ ok missed)
    × (decide failed "roll_self" ≡ ok undecided)
    × (decide (scored "-1") "plain_self" ≡ err (invalid_input "successful row score is negative"))
    × (decide (scored "nan") "plain_self"
        ≡ err (invalid_input "successful row score is not finite"))
    × (decide (scored "40") "other" ≡ err (invalid_input "unknown comparison kind"))
unfolding decide
decisions = (refl, refl, refl, refl, refl, refl)

decision_for_row-iff-Verdict_example :
    (decision_for_row (scored "40.0") "plain_self" ≡ ok matched)
    ↔ Verdict (scored "40.0") "plain_self" matched
decision_for_row-iff-Verdict_example =
    decision_for_row-iff-Verdict (scored "40.0") "plain_self" matched

rates : (rate_value 2 3 ≡ some 666667) × (rate_value 1 8 ≡ some 125000) × (rate_value 0 0 ≡ none)
unfolding rate_value
rates = (refl, refl, refl)

abbrev bundle : List (Dict String × String)
bundle = (scored "40.0", "plain_self") ∷ (failed, "roll_self") ∷ []

bundle_decided : decide_all bundle ≡ ok (matched ∷ undecided ∷ [])
unfolding decide
bundle_decided = refl

summarize_rows-decide_all_example :
    let rows : List DerivedRow = map derived_row (matched ∷ undecided ∷ []) in
    let c : Counts = counted (no_counts 2) rows in
    (s : Summary) × (summarize_rows rows ≡ ok s)
    × (s.counts ≡ c)
    × IsBalanced c
    × (c.planned_pairs ≡ c.successful_scores + c.technical_failures)
summarize_rows-decide_all_example =
    summarize_rows-decide_all bundle (matched ∷ undecided ∷ []) bundle_decided

machine_rate-exact_example :
    machine_rate (pos 2) (pos 3)
    ≡ ok (record { numerator = pos 2; denominator = pos 3; value = some 666667 })
machine_rate-exact_example = machine_rate-exact 2 3 (omega arith) (omega arith)
