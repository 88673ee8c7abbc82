-- ===== src/Policy/Summary/Counting.antt =====
-- The loop of `summarize_rows` counts what its counters are named for.
use mathlib.Core.Path.{subst}
use native.Mathlib.Nat.{add-zero, add_assoc}
use fingerprint_full_matcher.Prelude.{
  ℕ, ◌+◌, String, Bool, not, ◌&&◌, ◌||◌, ◌≡◌, refl, sym, ap, ◌⊎◌, inl, inr, List, [], ◌∷◌, length,
  All, arith, eq_iff, str_eq, if◌then◌else◌,
}
use fingerprint_full_matcher.Prelude.Result.{Result, ok, ok-injective}
use fingerprint_full_matcher.Policy.{PolicyError, outcome_for}
use fingerprint_full_matcher.Policy.Summary.{DerivedRow, Counts, no_counts, count_row, count_rows}

-- A row as `decision_for_row` leaves it.
pub record IsDerived (row : DerivedRow) : Type 0 where
  pub decided :
      (row.decision ≡ "same") ⊎ (row.decision ≡ "different") ⊎ (row.decision ≡ "no_decision")
  pub outcome_of : outcome_for row.expected_class row.decision ≡ ok row.outcome

abbrev weight : Bool → ℕ
weight b = if b then 1 else 0

-- How many rows pass a test.
unfoldable pub tally : (DerivedRow → Bool) → List DerivedRow → ℕ
tally p [] = 0
tally p (row ∷ rows) = weight (p row) + tally p rows

abbrev pub decides : String → DerivedRow → Bool
decides decision row = str_eq row.decision decision

abbrev pub judges : String → String → DerivedRow → Bool
judges expected decision row = str_eq row.expected_class expected && str_eq row.decision decision

abbrev pub is_correct : DerivedRow → Bool
is_correct row = judges "same" "same" row || judges "different" "different" row

abbrev pub is_incorrect : DerivedRow → Bool
is_incorrect row = judges "same" "different" row || judges "different" "same" row

-- The counters with a tally of each kind of row added to each.
abbrev pub counted : Counts → List DerivedRow → Counts
counted c rows = record {
  planned_pairs = c.planned_pairs;
  successful_scores = c.successful_scores + tally (λ row. not (decides "no_decision" row)) rows;
  technical_failures = c.technical_failures + tally (decides "no_decision") rows;
  same_decisions = c.same_decisions + tally (decides "same") rows;
  different_decisions = c.different_decisions + tally (decides "different") rows;
  no_decisions = c.no_decisions + tally (decides "no_decision") rows;
  correct_same = c.correct_same + tally (judges "same" "same") rows;
  correct_different = c.correct_different + tally (judges "different" "different") rows;
  false_matches = c.false_matches + tally (judges "different" "same") rows;
  false_non_matches = c.false_non_matches + tally (judges "same" "different") rows;
  correct_decisions = c.correct_decisions + tally is_correct rows;
  incorrect_decisions = c.incorrect_decisions + tally is_incorrect rows;
}

abbrev row_of : String → String → String → DerivedRow
row_of expected decision outcome = record {
  expected_class = expected;
  decision = decision;
  outcome = outcome;
}

outcome_for-same :
    (expected outcome : String)
    → outcome_for expected "same" ≡ ok outcome
    → ((expected ≡ "same") × (outcome ≡ "correct_same"))
      ⊎ ((expected ≡ "different") × (outcome ≡ "false_match"))
unfolding outcome_for
outcome_for-same expected outcome h =
    ground (arith, eq_iff expected "same", eq_iff expected "different")

outcome_for-different :
    (expected outcome : String)
    → outcome_for expected "different" ≡ ok outcome
    → ((expected ≡ "same") × (outcome ≡ "false_non_match"))
      ⊎ ((expected ≡ "different") × (outcome ≡ "correct_different"))
unfolding outcome_for
outcome_for-different expected outcome h =
    ground (arith, eq_iff expected "same", eq_iff expected "different")

abbrev Counted : DerivedRow → Counts → Type 0
Counted row c = count_row row c ≡ ok (counted c (row ∷ []))

count_row-failed :
    (expected : String) (c : Counts) → Counted (row_of expected "no_decision" "technical_failure") c
unfolding count_row tally
count_row-failed expected c = ground arith

count_row-correct_same : (c : Counts) → Counted (row_of "same" "same" "correct_same") c
unfolding count_row tally
count_row-correct_same c = ground arith

count_row-false_match : (c : Counts) → Counted (row_of "different" "same" "false_match") c
unfolding count_row tally
count_row-false_match c = ground arith

count_row-false_non_match : (c : Counts) → Counted (row_of "same" "different" "false_non_match") c
unfolding count_row tally
count_row-false_non_match c = ground arith

count_row-correct_different :
    (c : Counts) → Counted (row_of "different" "different" "correct_different") c
unfolding count_row tally
count_row-correct_different c = ground arith

row_path :
    (row : DerivedRow) (expected decision outcome : String)
    → row.expected_class ≡ expected
    → row.decision ≡ decision
    → row.outcome ≡ outcome
    → row_of expected decision outcome ≡ row
row_path row expected decision outcome p q r =
    λ i. record { expected_class = sym p i; decision = sym q i; outcome = sym r i }

-- A derived row is one of five.
IsDerived-elim :
    (P : DerivedRow → Type 0)
    → ((expected : String) → P (row_of expected "no_decision" "technical_failure"))
    → P (row_of "same" "same" "correct_same")
    → P (row_of "different" "same" "false_match")
    → P (row_of "same" "different" "false_non_match")
    → P (row_of "different" "different" "correct_different")
    → (row : DerivedRow) → IsDerived row
    → P row
unfolding outcome_for
IsDerived-elim P failed cs fm fnm cd row d = elim d.decided [
  | inl s ↦ elim (outcome_for-same row.expected_class row.outcome (rw s at d.outcome_of)) [
    | inl (p, r) ↦ subst P (row_path row _ _ _ p s r) cs
    | inr (p, r) ↦ subst P (row_path row _ _ _ p s r) fm
  ]
  | inr (inl s) ↦
      elim (outcome_for-different row.expected_class row.outcome (rw s at d.outcome_of)) [
        | inl (p, r) ↦ subst P (row_path row _ _ _ p s r) fnm
        | inr (p, r) ↦ subst P (row_path row _ _ _ p s r) cd
      ]
  | inr (inr s) ↦
      let r : ◌≡◌ {A = Result PolicyError String} (ok "technical_failure") (ok row.outcome) =
        rw s at d.outcome_of in
      subst P (row_path row _ _ _ refl s (sym (ok-injective r))) (failed row.expected_class)
]

count_row-Counted : (row : DerivedRow) (c : Counts) → IsDerived row → Counted row c
count_row-Counted row c =
    IsDerived-elim (λ r. Counted r c) (λ expected. count_row-failed expected c)
      (count_row-correct_same c) (count_row-false_match c) (count_row-false_non_match c)
      (count_row-correct_different c) row

counted-cons :
    (c : Counts) (row : DerivedRow) (rows : List DerivedRow)
    → counted (counted c (row ∷ [])) rows ≡ counted c (row ∷ rows)
unfolding tally
counted-cons c row rows = simp (add-zero, add_assoc)

pub count_rows-counted :
    (rows : List DerivedRow) (c : Counts)
    → All IsDerived rows
    → count_rows rows c ≡ ok (counted c rows)
unfolding count_rows tally
count_rows-counted [] c d = simp add-zero
count_rows-counted (row ∷ rows) c (derived, rest) =
    rw (count_row-Counted row c derived, count_rows-counted rows (counted c (row ∷ [])) rest)
      (ap ok (counted-cons c row rows))

-- The counters that `summarize_rows` keeps fit together.
pub record IsBalanced (c : Counts) : Type 0 where
  pub decisions : c.successful_scores ≡ c.same_decisions + c.different_decisions
  pub failures : c.technical_failures ≡ c.no_decisions
  pub outcomes : c.successful_scores ≡ c.correct_decisions + c.incorrect_decisions
  pub correct : c.correct_decisions ≡ c.correct_same + c.correct_different
  pub incorrect : c.incorrect_decisions ≡ c.false_matches + c.false_non_matches

counted_row-IsBalanced :
    (row : DerivedRow) (c : Counts)
    → IsBalanced c
    → IsDerived row
    → IsBalanced (counted c (row ∷ []))
unfolding tally
counted_row-IsBalanced row c b =
    IsDerived-elim (λ r. IsBalanced (counted c (r ∷ []))) (λ expected. ground arith) (omega arith)
      (omega arith) (omega arith) (omega arith) row

pub counted-IsBalanced :
    (rows : List DerivedRow) (c : Counts)
    → All IsDerived rows
    → IsBalanced c
    → IsBalanced (counted c rows)
unfolding tally
counted-IsBalanced [] c d b = simp add-zero b
counted-IsBalanced (row ∷ rows) c (derived, rest) b =
    subst IsBalanced (counted-cons c row rows)
      (counted-IsBalanced rows (counted c (row ∷ [])) rest (counted_row-IsBalanced row c b derived))

tally-split :
    (p : DerivedRow → Bool) (rows : List DerivedRow)
    → tally (λ row. not (p row)) rows + tally p rows ≡ length rows
unfolding tally
tally-split p [] = omega arith
tally-split p (row ∷ rows) = ground (arith, tally-split p rows)

-- Every row is a success or a failure.
pub counted_complete :
    (rows : List DerivedRow)
    → let c : Counts = counted (no_counts (length rows)) rows in
      c.planned_pairs ≡ c.successful_scores + c.technical_failures
counted_complete rows = omega (arith, tally-split (decides "no_decision") rows)
