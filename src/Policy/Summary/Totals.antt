-- ===== src/Policy/Summary/Totals.antt =====
-- `summarize_rows` on what `decision_for_row` returns.
use fingerprint_full_matcher.Prelude.{
  ◌+◌, String, ◌≡◌, ◌∙◌, ap, ◌⊎◌, inl, inr, List, [], ◌∷◌, map, length, length-map, All, arith,
  str_eq, if◌then◌else◌, Bool, true, false, Bool-cases,
}
use fingerprint_full_matcher.Prelude.Dict.{Dict}
use fingerprint_full_matcher.Prelude.Result.{Result, ok, collect, collect-All, length-collect}
use fingerprint_full_matcher.Policy.{PolicyError, Decided, decision_for_row}
use fingerprint_full_matcher.Policy.Score.{reaches}
use fingerprint_full_matcher.Policy.Verdict.{Verdict, decision_for_row-iff-Verdict}
use fingerprint_full_matcher.Policy.Rates.{rate_of, machine_rate_lem}
use fingerprint_full_matcher.Policy.Summary.{
  DerivedRow, Counts, no_counts, ClassRates, same_class, different_class, Summary, first_class,
  class_rates, summarize_rows,
}
use fingerprint_full_matcher.Policy.Summary.Counting.{
  IsDerived, counted, count_rows-counted, IsBalanced, counted-IsBalanced, counted_complete,
}

-- The fields of a derived row that `process_bundle` takes from the decision.
abbrev pub derived_row : Decided → DerivedRow
derived_row d = record { expected_class = d.expected; decision = d.decision; outcome = d.outcome }

scored_decision :
    (b : Bool) (decision : String)
    → decision ≡ (if b then "same" else "different")
    → (decision ≡ "same") ⊎ (decision ≡ "different") ⊎ (decision ≡ "no_decision")
scored_decision true decision h = inl h
scored_decision false decision h = inr (inl h)

derived_row-IsDerived :
    (row : Dict String) (kind : String) (d : Decided)
    → decision_for_row row kind ≡ ok d
    → IsDerived (derived_row d)
derived_row-IsDerived row kind d h =
    let v : Verdict row kind d = (decision_for_row-iff-Verdict row kind d).0 h in
    record {
      decided = elim v.ground_for [
        | inl s ↦ scored_decision (reaches s.score) d.decision s.decision
        | inr f ↦ inr (inr f.decision)
      ];
      outcome_of = v.outcome;
    }

class_summary : String → Counts → ClassRates
class_summary expected c =
    if str_eq expected "same"
    then same_class c.correct_same c.false_non_matches (rate_of c.correct_same c.successful_scores)
        (rate_of c.false_non_matches c.successful_scores)
    else different_class c.correct_different c.false_matches
        (rate_of c.correct_different c.successful_scores)
        (rate_of c.false_matches c.successful_scores)

class_rates-class_summary :
    (expected : String) (c : Counts)
    → IsBalanced c
    → class_rates expected c ≡ ok (class_summary expected c)
unfolding class_rates class_summary
class_rates-class_summary expected c b = elim (Bool-cases (str_eq expected "same")) [
  | inl e ↦ rw (
    e,
    machine_rate_lem c.correct_same c.successful_scores (omega arith),
    machine_rate_lem c.false_non_matches c.successful_scores (omega arith),
  )
  | inr e ↦ rw (
    e,
    machine_rate_lem c.correct_different c.successful_scores (omega arith),
    machine_rate_lem c.false_matches c.successful_scores (omega arith),
  )
]

-- The summary that the counters of the rows give.
pub summary_of : List DerivedRow → Summary
summary_of rows =
    let c : Counts = counted (no_counts (length rows)) rows in
    record {
      counts = c;
      decision_coverage = rate_of c.successful_scores c.planned_pairs;
      technical_failure_rate = rate_of c.technical_failures c.planned_pairs;
      valid_only_correct_rate = rate_of c.correct_decisions c.successful_scores;
      strict_correct_completion_rate = rate_of c.correct_decisions c.planned_pairs;
      by_class = class_summary (first_class rows) c;
    }

summarize_rows-summary_of :
    (rows : List DerivedRow) → All IsDerived rows → summarize_rows rows ≡ ok (summary_of rows)
unfolding summarize_rows summary_of
summarize_rows-summary_of rows d =
    let c : Counts = counted (no_counts (length rows)) rows in
    let b : IsBalanced c = counted-IsBalanced rows (no_counts (length rows)) d (omega arith) in
    let all : c.planned_pairs ≡ c.successful_scores + c.technical_failures =
      counted_complete rows in
    rw (
      count_rows-counted rows (no_counts (length rows)) d,
      machine_rate_lem c.successful_scores c.planned_pairs (omega arith),
      machine_rate_lem c.technical_failures c.planned_pairs (omega arith),
      machine_rate_lem c.correct_decisions c.successful_scores (omega arith),
      machine_rate_lem c.correct_decisions c.planned_pairs (omega arith),
      class_rates-class_summary (first_class rows) c b,
    )

All-map-IsDerived :
    (ds : List Decided)
    → All (λ d. IsDerived (derived_row d)) ds
    → All IsDerived (map derived_row ds)
All-map-IsDerived [] h = tt
All-map-IsDerived (d ∷ ds) (h, hs) = (h, All-map-IsDerived ds hs)

abbrev pub decide_all : List (Dict String × String) → Result PolicyError (List Decided)
decide_all = collect (λ r. decision_for_row r.0 r.1)

-- If every row of a bundle gets a decision, then `summarize_rows` raises nothing on the derived
-- rows: each counter is the number of rows that it is named for, the counters fit together, and the
-- planned pairs are the successes and the failures.
pub summarize_rows-decide_all :
    (results : List (Dict String × String)) (ds : List Decided)
    → decide_all results ≡ ok ds
    → let rows : List DerivedRow = map derived_row ds in
      let c : Counts = counted (no_counts (length results)) rows in
      (s : Summary) × (summarize_rows rows ≡ ok s)
      × (s.counts ≡ c)
      × IsBalanced c
      × (c.planned_pairs ≡ c.successful_scores + c.technical_failures)
unfolding summary_of
summarize_rows-decide_all results ds h =
    let rows : List DerivedRow = map derived_row ds in
    let derived : All IsDerived rows = All-map-IsDerived ds (
      collect-All (λ d. IsDerived (derived_row d)) (λ r. decision_for_row r.0 r.1)
        (λ r. derived_row-IsDerived r.0 r.1) results ds h) in
    let same : length rows ≡ length results =
      length-map derived_row ds ∙ length-collect (λ r. decision_for_row r.0 r.1) results ds h in
    (
      summary_of rows,
      summarize_rows-summary_of rows derived,
      ap (λ n. counted (no_counts n) rows) same,
      counted-IsBalanced rows (no_counts (length results)) derived (omega arith),
      omega (arith, counted_complete rows),
    )
