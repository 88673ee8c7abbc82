-- ===== src/Policy/Verdict.antt =====
-- Which rows `decision_for_row` accepts, and what it decides about them.
use mathlib.Core.Path.{subst}
use fingerprint_full_matcher.Prelude.{
  String, Bool, false, ◌≡◌, refl, ◌∙◌, sym, ap, ◌≢◌, ◌↔◌, ◌⊎◌, inl, inr, none, some, eq_iff, str_eq,
  if◌then◌else◌, Bool-cases, Option-cases,
}
use fingerprint_full_matcher.Prelude.Dict.{Dict, lookup, get}
use fingerprint_full_matcher.Prelude.Text.{codes, is_blank, is_empty}
use fingerprint_full_matcher.Prelude.Result.{Result, ok, of_option_iff, bind_returned}
use fingerprint_full_matcher.Policy.Number.{Decimal, decimal}
use fingerprint_full_matcher.Policy.{
  PolicyError, invalid_input, expected_class, outcome_for, Decided, class_of, scored_row,
  failed_row, decision_for_row,
}
use fingerprint_full_matcher.Policy.Score.{
  IsScore, reaches, IsScore-of_tests, tests-of_IsScore, scored_row_lem, scored_row-parsed,
  scored_row-returns, failed_row_lem, empty_iff, decision-less,
}

pub record ScoredVerdict (row : Dict String) (out : Decided) : Type 0 where
  pub status : get row "status" "" ≡ "ok"
  pub no_error_code : get row "error_code" "" ≡ ""
  pub no_error_message : get row "error_message" "" ≡ ""
  pub has_score : get row "raw_score" "" ≢ ""
  pub score : Decimal
  pub parsed : decimal (get row "raw_score" "") ≡ some score
  pub nonnegative : IsScore score
  pub decision : out.decision ≡ (if reaches score then "same" else "different")
  pub raw_payload : out.raw_payload ≡ some (get row "raw_score" "")
  pub error_payload : out.error_payload ≡ none

pub record FailedVerdict (row : Dict String) (out : Decided) : Type 0 where
  pub status : get row "status" "" ≢ "ok"
  pub no_score : get row "raw_score" "" ≡ ""
  pub has_error_code : is_blank (codes (get row "error_code" "")) ≡ false
  pub decision : out.decision ≡ "no_decision"
  pub raw_payload : out.raw_payload ≡ none
  pub error_payload : out.error_payload ≡ some (get row "error_code" "")

-- What the policy says about a row: its class is that of its comparison kind, its outcome is that
-- of class and decision, and either it has a score, without an error, that is compared with 40, or
-- it has an error code, without a score, and no decision.
pub record Verdict (row : Dict String) (kind : String) (out : Decided) : Type 0 where
  pub class : lookup kind expected_class ≡ some out.expected
  pub outcome : outcome_for out.expected out.decision ≡ ok out.outcome
  pub ground_for : ScoredVerdict row out ⊎ FailedVerdict row out

scored_row-ScoredVerdict :
    (row : Dict String) (expected : String) (out : Decided)
    → get row "status" "" ≡ "ok"
    → scored_row expected
        (get row "raw_score" "")
        (get row "error_code" "")
        (get row "error_message" "")
      ≡ ok out
    → (outcome_for out.expected out.decision ≡ ok out.outcome)
      × (out.expected ≡ expected)
      × ScoredVerdict row out
scored_row-ScoredVerdict row expected out s h =
    let raw = get row "raw_score" "" in
    let code = get row "error_code" "" in
    let message = get row "error_message" "" in
    elim (Option-cases (decimal raw)) [
      | inl p ↦ absurd (scored_row-parsed expected raw code message out h p)
      | inr (score, p) ↦
          let (a, b, c, d, e, f, g, x, y, z) =
            scored_row_lem expected raw code message score out p h in
          let nonneg : IsScore score = IsScore-of_tests score d e in
          (
            g,
            x,
            record {
              status = s;
              no_error_code = (empty_iff code).0 b;
              no_error_message = (empty_iff message).0 c;
              has_score = λ q. cc (a, (empty_iff raw).1 q);
              score = score;
              parsed = p;
              nonnegative = nonneg;
              decision = f ∙ decision-less score nonneg;
              raw_payload = y;
              error_payload = z;
            },
          )
    ]

not_same : (s : String) → s ≢ "ok" → str_eq s "ok" ≡ false
not_same s h = elim (Bool-cases (str_eq s "ok")) [
  | inl same ↦ absurd (h ((eq_iff s "ok").0 same))
  | inr differ ↦ differ
]

not_empty : (s : String) → s ≢ "" → is_empty s ≡ false
not_empty s h = elim (Bool-cases (is_empty s)) [
  | inl same ↦ absurd (h ((empty_iff s).0 same))
  | inr differ ↦ differ
]

module _ (row : Dict String) (expected : String) (out : Decided)
    (outcome : outcome_for out.expected out.decision ≡ ok out.outcome)
    (class : out.expected ≡ expected) where
  scored-status :
      ScoredVerdict row out
      → scored_row expected
          (get row "raw_score" "")
          (get row "error_code" "")
          (get row "error_message" "")
        ≡ ok out
  scored-status v =
      let (finite_score, not_negative) = tests-of_IsScore v.score v.nonnegative in
      scored_row-returns expected (get row "raw_score" "") (get row "error_code" "")
        (get row "error_message" "") v.score out (not_empty (get row "raw_score" "") v.has_score)
        ((empty_iff (get row "error_code" "")).1 v.no_error_code)
        ((empty_iff (get row "error_message" "")).1 v.no_error_message) v.parsed finite_score
        not_negative (v.decision ∙ sym (decision-less v.score v.nonnegative)) outcome class
        v.raw_payload v.error_payload

  failed-status :
      FailedVerdict row out
      → failed_row expected (get row "raw_score" "") (get row "error_code" "") ≡ ok out
  failed-status v =
      (failed_row_lem expected (get row "raw_score" "") (get row "error_code" "") out).1 (
        (empty_iff (get row "raw_score" "")).1 v.no_score,
        v.has_error_code,
        v.decision,
        outcome,
        class,
        v.raw_payload,
        v.error_payload,
      )

failed_row-FailedVerdict :
    (row : Dict String) (expected : String) (out : Decided)
    → get row "status" "" ≢ "ok"
    → failed_row expected (get row "raw_score" "") (get row "error_code" "") ≡ ok out
    → (outcome_for out.expected out.decision ≡ ok out.outcome)
      × (out.expected ≡ expected)
      × FailedVerdict row out
failed_row-FailedVerdict row expected out s h =
    let (a, b, c, d, e, f, g) =
      (failed_row_lem expected (get row "raw_score" "") (get row "error_code" "") out).0 h in
    (
      d,
      e,
      record {
        status = s;
        no_score = (empty_iff (get row "raw_score" "")).0 a;
        has_error_code = b;
        decision = c;
        raw_payload = f;
        error_payload = g;
      },
    )

-- `decision_for_row` returns a tuple exactly when the policy's verdict on the row is that tuple.
pub decision_for_row-iff-Verdict :
    (row : Dict String) (kind : String) (out : Decided)
    → (decision_for_row row kind ≡ ok out) ↔ Verdict row kind out
unfolding decision_for_row class_of
decision_for_row-iff-Verdict row kind out = (returns, verdict)
  where
    status : String
    status = get row "status" ""

    branch : String → Bool → Result PolicyError Decided
    branch expected b =
        if b
        then scored_row expected (get row "raw_score" "") (get row "error_code" "")
            (get row "error_message" "")
        else failed_row expected (get row "raw_score" "") (get row "error_code" "")

    returns : decision_for_row row kind ≡ ok out → Verdict row kind out
    returns h =
        let (expected, found, rest) = bind_returned (class_of kind) _ h in
        let class : lookup kind expected_class ≡ some expected =
          (of_option_iff _ (lookup kind expected_class) expected).0 found in
        elim (Bool-cases (str_eq status "ok")) [
          | inl yes' ↦
              let (outcome, same, v) =
                scored_row-ScoredVerdict row expected out ((eq_iff status "ok").0 yes')
                  (subst (λ b. branch expected b ≡ ok out) yes' rest) in
              record { class = class ∙ ap some (sym same); outcome = outcome; ground_for = inl v }
          | inr no' ↦
              let (outcome, same, v) =
                failed_row-FailedVerdict row expected out (λ q. cc (no', (eq_iff status "ok").1 q))
                  (subst (λ b. branch expected b ≡ ok out) no' rest) in
              record { class = class ∙ ap some (sym same); outcome = outcome; ground_for = inr v }
        ]

    verdict : Verdict row kind out → decision_for_row row kind ≡ ok out
    verdict v =
        rw
          ((of_option_iff (invalid_input "unknown comparison kind") (lookup kind expected_class)
              out.expected).1
            v.class)
          (elim v.ground_for [
            | inl s ↦
                rw ((eq_iff status "ok").1 s.status)
                  (scored-status row out.expected out v.outcome refl s)
            | inr f ↦
                rw (not_same status f.status) (failed-status row out.expected out v.outcome refl f)
          ])
