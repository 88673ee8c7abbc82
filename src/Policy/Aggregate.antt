-- ===== src/Policy/Aggregate.antt =====
-- `verification_aggregate` of tools/apply_sourceafis_decision_policy_v1.py: the genuine and the
-- impostor comparisons of one release, put together.
mod Tests
use fingerprint_full_matcher.Prelude.{
  ℕ, ◌+◌, ◌*◌, ◌^◌, ◌≤◌, String, Bool, false, ◌&&◌, Option, none, some, List, [], ◌∷◌, ◌≡◌, refl,
  str_eq, arith, if◌then◌else◌,
}
use fingerprint_full_matcher.Prelude.Int.{pos}
use fingerprint_full_matcher.Prelude.Result.{Result, ok, err, ◌>>=◌, of_option}
use fingerprint_full_matcher.Policy.{PolicyError, key_error}
use fingerprint_full_matcher.Policy.Rates.{Rate, machine_rate, rate_of, machine_rate_lem}
use fingerprint_full_matcher.Policy.Summary.{Counts}
use fingerprint_full_matcher.Policy.Summary.Counting.{IsBalanced}

-- What the function reads of a primary entry.
pub record Entry : Type 0 where
  pub comparison_kind : String
  pub dataset_release : String
  pub counts : Counts

pub record Aggregate : Type 0 where
  pub dataset_release : String
  pub plain_self_included : Bool
  pub roll_self_included : Bool
  pub included_comparison_kinds : List String
  pub genuine_planned : ℕ
  pub impostor_planned : ℕ
  pub genuine_successful : ℕ
  pub impostor_successful : ℕ
  pub genuine_technical_failures : ℕ
  pub impostor_technical_failures : ℕ
  pub false_non_matches : ℕ
  pub false_matches : ℕ
  pub correct_genuine : ℕ
  pub correct_impostor : ℕ
  pub fnmr_valid : Rate
  pub fmr_valid : Rate
  pub verification_decision_coverage : Rate
  pub verification_strict_correct_completion_rate : Rate

-- `by_kind.get(kind)`: of two entries of one kind, the later is kept.
unfoldable pub by_kind : String → String → List Entry → Option Entry
by_kind kind release [] = none
by_kind kind release (entry ∷ entries) = elim (by_kind kind release entries) [
  | some later ↦ some later
  | none ↦
      if str_eq entry.dataset_release release && str_eq entry.comparison_kind kind
      then some entry
      else none
]

pub aggregate_of : String → Counts → Counts → Result PolicyError Aggregate
aggregate_of release genuine impostor = do
  fnmr ← machine_rate (pos genuine.false_non_matches) (pos genuine.successful_scores)
  fmr ← machine_rate (pos impostor.false_matches) (pos impostor.successful_scores)
  coverage ←
      machine_rate (pos (genuine.successful_scores + impostor.successful_scores))
        (pos (genuine.planned_pairs + impostor.planned_pairs))
  strict ←
      machine_rate (pos (genuine.correct_same + impostor.correct_different))
        (pos (genuine.planned_pairs + impostor.planned_pairs))
  ok (record {
    dataset_release = release;
    plain_self_included = false;
    roll_self_included = false;
    included_comparison_kinds = "plain_roll_genuine" ∷ "plain_roll_next_subject" ∷ [];
    genuine_planned = genuine.planned_pairs;
    impostor_planned = impostor.planned_pairs;
    genuine_successful = genuine.successful_scores;
    impostor_successful = impostor.successful_scores;
    genuine_technical_failures = genuine.technical_failures;
    impostor_technical_failures = impostor.technical_failures;
    false_non_matches = genuine.false_non_matches;
    false_matches = impostor.false_matches;
    correct_genuine = genuine.correct_same;
    correct_impostor = impostor.correct_different;
    fnmr_valid = fnmr;
    fmr_valid = fmr;
    verification_decision_coverage = coverage;
    verification_strict_correct_completion_rate = strict;
  })

-- The counts are those of every planned pair.
abbrev pub IsComplete : Counts → Type 0
IsComplete c = c.planned_pairs ≡ c.successful_scores + c.technical_failures

abbrev rates_of : String → Counts → Counts → Aggregate
rates_of release g i = record {
  dataset_release = release;
  plain_self_included = false;
  roll_self_included = false;
  included_comparison_kinds = "plain_roll_genuine" ∷ "plain_roll_next_subject" ∷ [];
  genuine_planned = g.planned_pairs;
  impostor_planned = i.planned_pairs;
  genuine_successful = g.successful_scores;
  impostor_successful = i.successful_scores;
  genuine_technical_failures = g.technical_failures;
  impostor_technical_failures = i.technical_failures;
  false_non_matches = g.false_non_matches;
  false_matches = i.false_matches;
  correct_genuine = g.correct_same;
  correct_impostor = i.correct_different;
  fnmr_valid = rate_of g.false_non_matches g.successful_scores;
  fmr_valid = rate_of i.false_matches i.successful_scores;
  verification_decision_coverage =
      rate_of (g.successful_scores + i.successful_scores) (g.planned_pairs + i.planned_pairs);
  verification_strict_correct_completion_rate =
      rate_of (g.correct_same + i.correct_different) (g.planned_pairs + i.planned_pairs);
}

aggregate_of_lem :
    (release : String) (g i : Counts)
    → IsBalanced g
    → IsBalanced i
    → IsComplete g
    → IsComplete i
    → aggregate_of release g i ≡ ok (rates_of release g i)
unfolding aggregate_of
aggregate_of_lem release g i bg bi cg ci =
    rw
      (
        machine_rate_lem g.false_non_matches g.successful_scores (omega arith),
        machine_rate_lem i.false_matches i.successful_scores (omega arith),
        machine_rate_lem (g.successful_scores + i.successful_scores)
            (g.planned_pairs + i.planned_pairs) (omega arith),
        machine_rate_lem (g.correct_same + i.correct_different) (g.planned_pairs + i.planned_pairs)
            (omega arith),
      )
      refl

pub verification_aggregate : List Entry → String → Result PolicyError Aggregate
verification_aggregate primary_entries release = do
  genuine ←
      of_option (key_error "plain_roll_genuine")
        (by_kind "plain_roll_genuine" release primary_entries)
  impostor ←
      of_option (key_error "plain_roll_next_subject")
        (by_kind "plain_roll_next_subject" release primary_entries)
  aggregate_of release genuine.counts impostor.counts

-- Where a release has an entry of both kinds whose counters fit together, the aggregate is computed:
-- its error rates are those of the two entries among their successes, its coverage and its strict
-- rate count both entries among all planned pairs, and the planned pairs are successes and failures.
pub verification_aggregate-rates :
    (entries : List Entry) (release : String) (genuine impostor : Entry)
    → by_kind "plain_roll_genuine" release entries ≡ some genuine
    → by_kind "plain_roll_next_subject" release entries ≡ some impostor
    → IsBalanced genuine.counts
    → IsBalanced impostor.counts
    → IsComplete genuine.counts
    → IsComplete impostor.counts
    → let g : Counts = genuine.counts in
      let i : Counts = impostor.counts in
      (a : Aggregate) × (verification_aggregate entries release ≡ ok a)
      × (a.fnmr_valid ≡ rate_of g.false_non_matches g.successful_scores)
      × (a.fmr_valid ≡ rate_of i.false_matches i.successful_scores)
      × (a.verification_decision_coverage
          ≡ rate_of (g.successful_scores + i.successful_scores) (g.planned_pairs + i.planned_pairs))
      × (a.verification_strict_correct_completion_rate
          ≡ rate_of (g.correct_same + i.correct_different) (g.planned_pairs + i.planned_pairs))
      × (a.genuine_planned + a.impostor_planned
          ≡ a.genuine_successful
            + a.impostor_successful
            + (a.genuine_technical_failures + a.impostor_technical_failures))
unfolding verification_aggregate
verification_aggregate-rates entries release genuine impostor hg hi bg bi cg ci =
    let g : Counts = genuine.counts in
    let i : Counts = impostor.counts in
    let computed = aggregate_of_lem release g i bg bi cg ci in
    (rates_of release g i, rw (hg, hi) computed, refl, refl, refl, refl, omega (arith, cg, ci))
