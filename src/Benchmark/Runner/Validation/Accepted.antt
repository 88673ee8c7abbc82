-- ===== src/Benchmark/Runner/Validation/Accepted.antt =====
-- The rows that the runner writes pass the checks of the validator.
use mathlib.Core.Path.{subst}
use text.Mathlib.TextPositions.{eq_refl}
use fingerprint_full_matcher.Prelude.{
  ℕ, String, true, false, ◌&&◌, Option, none, some, ◌≡◌, refl, ◌⊎◌, inl, inr,
}
use fingerprint_full_matcher.Prelude.Int.{pos}
use fingerprint_full_matcher.Prelude.Text.{is_empty}
use fingerprint_full_matcher.Prelude.Digits.{int_of_text-int_text}
use fingerprint_full_matcher.Prelude.Dict.{Dict}
use fingerprint_full_matcher.Prelude.Result.{ok, ok-injective}
use fingerprint_full_matcher.Benchmark.Floats.{Floats, FloatLaws}
use fingerprint_full_matcher.Benchmark.Contract.{
  MethodMetadata, PrepareOutcome, CompareOutcome, IsPrepareOutcome, IsCompareOutcome, is_falsy,
  has_finite,
}
use fingerprint_full_matcher.Benchmark.Manifest.{PairRecord, ProtocolManifest}
use fingerprint_full_matcher.Benchmark.Runner.{
  Value, is_ok, Ending, ending, raw_score_of, full_row, columns, result_columns,
}
use fingerprint_full_matcher.Benchmark.Runner.Validation.{written, check_row}

module _ {F : Type 0} (floats : Floats F) (laws : FloatLaws floats) where
  -- A row's ending and score as the validator wants them.
  abbrev pub IsEnding : Ending → Option F → Type 0
  IsEnding e score =
      (is_ok e.result_status ≡ true)
        × (e.error_code ≡ none)
        × ((x : F) × (score ≡ some x) × (floats.is_finite x ≡ true))
      ⊎ (is_ok e.result_status ≡ false)
        × (score ≡ none)
        × ((code : String) × (e.error_code ≡ some code) × (is_empty code ≡ false))

  -- A comparison is run only where both preparations succeeded.
  abbrev pub IsComparison : PrepareOutcome F → PrepareOutcome F → Option (CompareOutcome F) → Type 0
  IsComparison a b none = is_ok a.status && is_ok b.status ≡ false
  IsComparison a b (some c) =
      (is_ok a.status ≡ true) × (is_ok b.status ≡ true) × IsCompareOutcome floats c

  falsy_code :
      (o : Option String)
      → is_falsy o ≡ false
      → (code : String) × (o ≡ some code) × (is_empty code ≡ false)
  falsy_code none h = cc h
  falsy_code (some code) h = (code, refl, h)

  finite_score :
      (o : Option F)
      → has_finite floats o ≡ true
      → (x : F) × (o ≡ some x) × (floats.is_finite x ≡ true)
  finite_score none h = cc h
  finite_score (some x) h = (x, refl, h)

  IsEnding-prepared :
      (a b : PrepareOutcome F) (c : Option (CompareOutcome F))
      → is_ok a.status ≡ true
      → is_ok b.status ≡ true
      → IsComparison a b c
      → IsEnding (ending a b c) (raw_score_of c)
  unfolding ending raw_score_of
  IsEnding-prepared a b none oka okb h = cc (oka, okb, h)
  IsEnding-prepared a b (some c) oka okb (_, _, hc) = elim hc [
    | inl (okc, finite, no_code) ↦
        rw (oka, okb, okc) (inl (refl, refl, finite_score c.raw_score finite))
    | inr (notc, no_score, falsy) ↦
        rw (oka, okb, notc) (inr (refl, refl, falsy_code c.error_code falsy))
  ]

  pub IsEnding-ending :
      (a b : PrepareOutcome F) (c : Option (CompareOutcome F))
      → IsPrepareOutcome a
      → IsPrepareOutcome b
      → IsComparison a b c
      → IsEnding (ending a b c) (raw_score_of c)
  unfolding ending raw_score_of
  IsEnding-ending a b c (inl (oka, _, _)) (inl (okb, _, _)) hc = IsEnding-prepared a b c oka okb hc
  IsEnding-ending a b none (inr (nota, norep, falsy)) hb hc =
      rw nota (inr (refl, refl, falsy_code a.error_code falsy))
  IsEnding-ending a b none (inl (oka, _, _)) (inr (notb, norep, falsy)) hc =
      rw (oka, notb) (inr (refl, refl, falsy_code b.error_code falsy))
  IsEnding-ending a b (some c) (inl (oka, _, _)) (inr (notb, norep, falsy)) (_, okb, _) =
      cc (notb, okb)
  IsEnding-ending a b (some c) (inr (nota, norep, falsy)) hb (oka, _, _) = cc (nota, oka)

  -- The row of a pair with a given ending passes, as the reader of the written file gives it back.
  pub check_row-written :
      (stable_sha256 : Dict (Value F) → String) (run_id : String) (manifest : ProtocolManifest)
      (pair_index : ℕ) (pair : PairRecord) (metadata : MethodMetadata) (a b : PrepareOutcome F)
      (c : Option (CompareOutcome F))
      → IsEnding (ending a b c) (raw_score_of c)
      → (row : Dict (Value F))
      → columns stable_sha256 result_columns
          (full_row stable_sha256 run_id manifest pair_index pair metadata a b c)
        ≡ ok row
      → check_row floats stable_sha256 run_id (written floats row) ≡ ok tt
  unfolding columns full_row written check_row
  check_row-written stable_sha256 run_id manifest pair_index pair metadata a b c h row e =
      subst (λ r. check_row floats stable_sha256 run_id (written floats r) ≡ ok tt) (ok-injective e)
        (elim h [
          | inl (okay, no_code, (x, score, finite)) ↦
              rw
                (
                  okay,
                  no_code,
                  score,
                  eq_refl run_id,
                  int_of_text-int_text manifest.protocol_version,
                  int_of_text-int_text (pos pair_index),
                  laws.of_text-text x finite,
                  finite,
                  laws.is_empty-text x,
                  eq_refl,
                )
                refl
          | inr (failed, no_score, (code, coded, named)) ↦
              rw
                (
                  failed,
                  coded,
                  no_score,
                  eq_refl run_id,
                  int_of_text-int_text manifest.protocol_version,
                  int_of_text-int_text (pos pair_index),
                  named,
                  eq_refl,
                )
                refl
        ])

  -- Each column has its key.
  pub columns-full_row :
      (stable_sha256 : Dict (Value F) → String) (run_id : String) (manifest : ProtocolManifest)
      (pair_index : ℕ) (pair : PairRecord) (metadata : MethodMetadata) (a b : PrepareOutcome F)
      (c : Option (CompareOutcome F))
      → (row : Dict (Value F)) × (columns stable_sha256 result_columns
            (full_row stable_sha256 run_id manifest pair_index pair metadata a b c)
          ≡ ok row)
  unfolding columns full_row
  columns-full_row stable_sha256 run_id manifest pair_index pair metadata a b c = (_, refl)
