-- ===== src/Benchmark/Runner/Validation.antt =====
-- src/fingerprint_benchmark/runner.py: what `validate_result_bundle` checks of each row. A row is what
-- `csv.DictReader` reads: the written texts under the names of their columns.
pub mod Accepted
pub mod Rows
use fingerprint_full_matcher.Prelude.{
  ℕ, suc, String, Bool, true, false, not, ◌&&◌, ◌||◌, Option, none, some, List, [], ◌∷◌, map,
  str_eq, if◌then◌else◌, ◌≡◌, ◌==◌,
}
use fingerprint_full_matcher.Prelude.Int.{ℤ, pos}
use fingerprint_full_matcher.Prelude.Text.{is_empty}
use fingerprint_full_matcher.Prelude.Digits.{int_text, int_of_text}
use fingerprint_full_matcher.Prelude.Dict.{Dict, lookup}
use fingerprint_full_matcher.Prelude.Result.{
  Result, ok, err, ◌>>=◌, ◌>>◌, require, of_option, Exception, key_error, value_error,
}
use fingerprint_full_matcher.Benchmark.Floats.{Floats}
use fingerprint_full_matcher.Benchmark.Contract.{benchmark_contract_version}
use fingerprint_full_matcher.Benchmark.Runner.{Value, nothing, str, int, float, is_ok}

-- `ResultBundleError`, and the exceptions that the checks do not convert.
pub data ResultError : Type 0 where
  result_bundle_error : String → ResultError
  raised : Exception → ResultError

module _ {F : Type 0} (floats : Floats F) where
  -- What the writer puts into a cell.
  unfoldable pub cell_text : Value F → String
  cell_text nothing = ""
  cell_text (str s) = s
  cell_text (int z) = int_text z
  cell_text (float x) = floats.text x

  unfoldable pub written : Dict (Value F) → Dict String
  unfolding cell_text
  written [] = []
  written ((k, v) ∷ row) = (k, cell_text v) ∷ written row

  abbrev field : Dict String → String → Result ResultError String
  field row key = of_option (raised (key_error key)) (lookup key row)

  abbrev whole : String → Result ResultError ℤ
  whole s = of_option (raised (value_error "invalid literal for int()")) (int_of_text s)

  abbrev number : String → Result ResultError F
  number s = of_option (raised (value_error "could not convert string to float")) (floats.of_text s)

  check_success : String → String → Result ResultError (Unit {0})
  check_success raw_score error_code = do
    score ←
        of_option (result_bundle_error "successful row has invalid raw score")
          (floats.of_text raw_score)
    require (floats.is_finite score && is_empty error_code)
        (result_bundle_error "successful row violates score semantics")

  check_failure : String → String → Result ResultError (Unit {0})
  check_failure raw_score error_code =
      require (is_empty raw_score && not (is_empty error_code))
        (result_bundle_error "failed row violates failure semantics")

  -- `row["error_code"] or None`
  or_none : String → Value F
  or_none s = if is_empty s then nothing else str s

  -- `float(row["raw_score"]) if row["raw_score"] else None`
  score_payload : String → Result ResultError (Value F)
  score_payload s = if is_empty s then ok nothing else (do x ← number s; ok (float x))

  payload_of : Dict String → Result ResultError (Dict (Value F))
  unfolding or_none score_payload
  payload_of row = do
    method ← field row "method"
    method_version ← field row "method_version"
    protocol_id ← field row "protocol_id"
    protocol_version_text ← field row "protocol_version"
    protocol_version ← whole protocol_version_text
    manifest_sha256 ← field row "manifest_sha256"
    pair_index_text ← field row "pair_index"
    pair_index ← whole pair_index_text
    pair_id ← field row "pair_id"
    comparison_kind ← field row "comparison_kind"
    subject_id_a ← field row "subject_id_a"
    subject_id_b ← field row "subject_id_b"
    sha256_a ← field row "sha256_a"
    sha256_b ← field row "sha256_b"
    status ← field row "status"
    error_code ← field row "error_code"
    raw_score_text ← field row "raw_score"
    raw_score ← score_payload raw_score_text
    ok (
        ("contract_version", str benchmark_contract_version)
        ∷ ("method_id", str method)
        ∷ ("method_version", str method_version)
        ∷ ("protocol_id", str protocol_id)
        ∷ ("protocol_version", int protocol_version)
        ∷ ("manifest_sha256", str manifest_sha256)
        ∷ ("pair_index", int pair_index)
        ∷ ("pair_id", str pair_id)
        ∷ ("comparison_kind", str comparison_kind)
        ∷ ("subject_id_a", str subject_id_a)
        ∷ ("subject_id_b", str subject_id_b)
        ∷ ("sha256_a", str sha256_a)
        ∷ ("sha256_b", str sha256_b)
        ∷ ("result_status", str status)
        ∷ ("error_code", or_none error_code)
        ∷ ("raw_score", raw_score)
        ∷ [])

  module _ (stable_sha256 : Dict (Value F) → String) where
    -- One round of the loop over the rows.
    unfoldable pub check_row : String → Dict String → Result ResultError (Unit {0})
    unfolding check_success check_failure payload_of
    check_row run_id row = do
      row_run_id ← field row "run_id"
      require (str_eq row_run_id run_id) (result_bundle_error "result row run identity mismatch")
      status ← field row "status"
      raw_score ← field row "raw_score"
      error_code ← field row "error_code"
      if is_ok status
          then check_success raw_score error_code
          else check_failure raw_score error_code
      payload ← payload_of row
      recorded ← field row "score_payload_sha256"
      require (str_eq (stable_sha256 payload) recorded)
          (result_bundle_error "score payload checksum mismatch")

    unfoldable pub check_rows : String → List (Dict String) → Result ResultError (Unit {0})
    check_rows run_id [] = ok tt
    check_rows run_id (row ∷ rows) = check_row run_id row >> check_rows run_id rows
