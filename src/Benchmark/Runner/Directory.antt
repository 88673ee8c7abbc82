-- ===== src/Benchmark/Runner/Directory.antt =====
-- src/fingerprint_benchmark/runner.py: `validate_result_bundle` on a directory. A JSON file holds a value
-- or a text that is no JSON; metadata is a dictionary whose values have the types that the runner writes.
use fingerprint_full_matcher.Prelude.{
  ℕ, zero, suc, String, Bool, true, false, ◌&&◌, Option, none, some, List, [], ◌∷◌, length, str_eq,
  ◌==◌,
}
use fingerprint_full_matcher.Prelude.Dict.{Dict}
use fingerprint_full_matcher.Prelude.Result.{Result, ok, err, ◌>>=◌, ◌>>◌, require, of_option}
use fingerprint_full_matcher.Benchmark.Floats.{Floats}
use fingerprint_full_matcher.Benchmark.Contract.{benchmark_contract_version}
use fingerprint_full_matcher.Benchmark.Runner.{Value, result_columns}
use fingerprint_full_matcher.Benchmark.Runner.Validation.{
  ResultError, result_bundle_error, check_rows,
}

pub data JsonFile (A : Type 0) : Type 0 where
  json : A → JsonFile A
  no_json : String → JsonFile A

-- `none` is a key that is missing, or an identity that is no dictionary.
pub record Metadata (F : Type 0) : Type 0 where
  pub contract_version : Option String
  pub run_id : Option String
  pub row_count : Option ℕ
  pub identity : Option (Dict (Value F))
  pub results_sha256 : Option String
  pub provenance_sha256 : Option String

pub record Results : Type 0 where
  pub fieldnames : List String
  pub rows : List (Dict String)

-- A result bundle, or a part of one; `P` is what a provenance file holds.
pub record Directory (F P : Type 0) : Type 0 where
  pub metadata : Option (JsonFile (Metadata F))
  pub results : Option Results
  pub provenance : Option (JsonFile P)

pub record BundleSummary : Type 0 where
  pub row_count : ℕ
  pub run_id : String

-- `file_sha256` of the two files that are hashed, and `stable_sha256`.
pub record Hashes (F P : Type 0) : Type 0 where
  pub stable_sha256 : Dict (Value F) → String
  pub sha256_of_results : Results → String
  pub sha256_of_provenance : JsonFile P → String

-- `text[:n]`
unfoldable pub first_chars : ℕ → String → String
first_chars zero s = ""
first_chars (suc n) String.[] = ""
first_chars (suc n) (String.◌∷◌ c s) = String.◌∷◌ c (first_chars n s)

unfoldable pub has_text : Option String → String → Bool
has_text none s = false
has_text (some t) s = str_eq t s

unfoldable pub has_number : Option ℕ → ℕ → Bool
has_number none n = false
has_number (some m) n = m == n

unfoldable pub same_columns : List String → List String → Bool
same_columns [] [] = true
same_columns (s ∷ ss) (t ∷ ts) = str_eq s t && same_columns ss ts
same_columns ss ts = false

unfoldable pub parsed_json : {A : Type 0} → JsonFile A → Result ResultError A
parsed_json (json a) = ok a
parsed_json (no_json text) = err (result_bundle_error "result bundle contains invalid JSON")

module _ {F P : Type 0} (floats : Floats F) (hashes : Hashes F P) where
  unfoldable pub run_id_of : Dict (Value F) → String
  unfolding first_chars
  run_id_of identity = first_chars 24 (hashes.stable_sha256 identity)

  -- The checks on the metadata, and then the loop over the rows.
  unfoldable pub check_contents :
      Metadata F → Results → JsonFile P → Result ResultError BundleSummary
  unfolding run_id_of has_text has_number same_columns check_rows
  check_contents metadata results provenance = do
    require (has_text metadata.contract_version benchmark_contract_version)
        (result_bundle_error "unexpected result contract version")
    identity ← of_option (result_bundle_error "result bundle identity mismatch") metadata.identity
    let run_id = run_id_of identity
    require (has_text metadata.run_id run_id)
        (result_bundle_error "result bundle identity mismatch")
    require
        (has_text metadata.results_sha256 (hashes.sha256_of_results results)
          && has_text metadata.provenance_sha256 (hashes.sha256_of_provenance provenance))
        (result_bundle_error "result bundle checksum mismatch")
    require (same_columns results.fieldnames result_columns)
        (result_bundle_error "unexpected results schema")
    check_rows floats hashes.stable_sha256 run_id results.rows
    require (has_number metadata.row_count (length results.rows))
        (result_bundle_error "result row count mismatch")
    ok (record { row_count = length results.rows; run_id = run_id })

  unfoldable pub validate_directory : Directory F P → Result ResultError BundleSummary
  unfolding parsed_json check_contents
  validate_directory d = do
    let incomplete = result_bundle_error "result bundle is incomplete"
    metadata_file ← of_option incomplete d.metadata
    results ← of_option incomplete d.results
    provenance ← of_option incomplete d.provenance
    metadata ← parsed_json metadata_file
    parsed_json provenance >>= λ _. check_contents metadata results provenance

  -- `none` is a path where there is no directory.
  unfoldable pub validate_result_bundle : Option (Directory F P) → Result ResultError BundleSummary
  unfolding validate_directory
  validate_result_bundle none = err (result_bundle_error "result bundle is incomplete")
  validate_result_bundle (some d) = validate_directory d
