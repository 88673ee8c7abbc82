-- ===== src/Policy/Aggregate/Tests.antt =====
-- The aggregate of two entries.
use fingerprint_full_matcher.Prelude.{◌+◌, List, [], ◌∷◌, ◌≡◌, refl}
use fingerprint_full_matcher.Prelude.Result.{ok}
use fingerprint_full_matcher.Policy.Rates.{rate_of}
use fingerprint_full_matcher.Policy.Summary.{no_counts}
use fingerprint_full_matcher.Policy.Summary.Counting.{IsBalanced}
use fingerprint_full_matcher.Policy.Aggregate.{
  Entry, Aggregate, by_kind, verification_aggregate, verification_aggregate-rates,
}

-- Two matched pairs, a missed one, and a failure.
abbrev genuine : Entry
genuine = record {
  comparison_kind = "plain_roll_genuine";
  dataset_release = "sd300b";
  counts = record (no_counts 4) {
    successful_scores = 3;
    technical_failures = 1;
    same_decisions = 2;
    different_decisions = 1;
    no_decisions = 1;
    correct_same = 2;
    false_non_matches = 1;
    correct_decisions = 2;
    incorrect_decisions = 1;
  };
}

abbrev impostor : Entry
impostor = record {
  comparison_kind = "plain_roll_next_subject";
  dataset_release = "sd300b";
  counts = record (no_counts 2) {
    successful_scores = 2;
    different_decisions = 2;
    correct_different = 2;
    correct_decisions = 2;
  };
}

abbrev entries : List Entry
entries = record genuine { dataset_release = "sd300c" } ∷ impostor ∷ genuine ∷ []

genuine-IsBalanced : IsBalanced genuine.counts
genuine-IsBalanced = record {
  decisions = refl;
  failures = refl;
  outcomes = refl;
  correct = refl;
  incorrect = refl;
}

impostor-IsBalanced : IsBalanced impostor.counts
impostor-IsBalanced = record {
  decisions = refl;
  failures = refl;
  outcomes = refl;
  correct = refl;
  incorrect = refl;
}

verification_aggregate-rates_example :
    (a : Aggregate) × (verification_aggregate entries "sd300b" ≡ ok a)
    × (a.fnmr_valid ≡ rate_of 1 3)
    × (a.fmr_valid ≡ rate_of 0 2)
    × (a.verification_decision_coverage ≡ rate_of 5 6)
    × (a.verification_strict_correct_completion_rate ≡ rate_of 4 6)
    × (a.genuine_planned + a.impostor_planned
        ≡ a.genuine_successful
          + a.impostor_successful
          + (a.genuine_technical_failures + a.impostor_technical_failures))
unfolding by_kind
verification_aggregate-rates_example =
    verification_aggregate-rates entries "sd300b" genuine impostor refl refl genuine-IsBalanced
      impostor-IsBalanced refl refl
