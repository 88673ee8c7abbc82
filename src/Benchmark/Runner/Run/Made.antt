-- ===== src/Benchmark/Runner/Run/Made.antt =====
-- The directory that a run makes passes the validation.
use text.Mathlib.TextPositions.{eq_refl}
use fingerprint_full_matcher.Prelude.{
  ℕ, suc, String, some, List, [], ◌∷◌, length, ◌≡◌, refl, ap, ==_iff,
}
use fingerprint_full_matcher.Prelude.Dict.{Dict}
use fingerprint_full_matcher.Prelude.Result.{ok}
use fingerprint_full_matcher.Prelude.Action.Rules.{Yields, Yields-bind, Yields-lift}
use fingerprint_full_matcher.Benchmark.Floats.{FloatLaws}
use fingerprint_full_matcher.Benchmark.Manifest.{PairRecord}
use fingerprint_full_matcher.Benchmark.Runner.{result_columns}
use fingerprint_full_matcher.Benchmark.Runner.Validation.{written, check_row, check_rows}
use fingerprint_full_matcher.Benchmark.Runner.Validation.Rows.{IsAdapter, Yields-result_for_pair}
use fingerprint_full_matcher.Benchmark.Runner.Directory.{
  Directory, Results, json, validate_result_bundle, has_text, has_number, same_columns,
}
use fingerprint_full_matcher.Benchmark.Runner.Run.{collect_rows, made_metadata, own_id, RunInput}

module _ {S F P : Type 0} (run : RunInput S F P) (laws : FloatLaws run.floats)
    (good : IsAdapter run.floats run.adapter) where
  abbrev run_id : String
  run_id = own_id run

  -- The rows that the validator accepts, one for each pair.
  abbrev pub AreAccepted : ℕ → List (Dict String) → Type 0
  AreAccepted n rows =
      (check_rows run.floats run.hashes.stable_sha256 run_id rows ≡ ok tt) × (length rows ≡ n)

  pub Yields-collect_rows :
      (index : ℕ) (pairs : List PairRecord)
      → Yields (AreAccepted (length pairs)) (collect_rows run index pairs)
  unfolding collect_rows check_rows
  Yields-collect_rows index [] = Yields-lift S (AreAccepted 0) _ [] refl (refl, refl)
  Yields-collect_rows index (pair ∷ pairs) =
      Yields-bind
        (λ row.
          check_row run.floats run.hashes.stable_sha256 run_id (written run.floats row) ≡ ok tt)
        _ _ _
        (Yields-result_for_pair run.floats laws run.hashes.stable_sha256 run.adapter good run_id
          run.manifest index pair)
        λ row first.
          Yields-bind (AreAccepted (length pairs)) _ _ _ (Yields-collect_rows (suc index) pairs)
            λ rows (others, counted).
              Yields-lift S (AreAccepted (suc (length pairs))) _ (written run.floats row ∷ rows)
                refl (rw (first, others) refl, ap suc counted)

  module _ (rows : List (Dict String)) where
    abbrev results : Results
    results = record { fieldnames = result_columns; rows = rows }

    abbrev pub made_directory : Directory F P
    made_directory = record {
      metadata = some (json (made_metadata run results));
      results = some results;
      provenance = some (json run.provenance);
    }

    pub validate_result_bundle-made :
        AreAccepted (length run.manifest.records) rows
        → validate_result_bundle run.floats run.hashes (some made_directory)
          ≡ ok (record { row_count = length run.manifest.records; run_id = run_id })
    unfolding validate_result_bundle made_metadata has_text has_number same_columns
    validate_result_bundle-made (accepted, counted) =
        rw
          (
            eq_refl run_id,
            eq_refl (run.hashes.sha256_of_results results),
            eq_refl (run.hashes.sha256_of_provenance (json run.provenance)),
            accepted,
            (==_iff (length rows) (length rows)).1 refl,
            counted,
          )
          refl
