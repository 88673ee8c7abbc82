-- ===== src/Benchmark/Runner.antt =====
-- src/fingerprint_benchmark/runner.py: the row of one pair. `stable_sha256` of hashing.py is a
-- function of the JSON value that it is given.
pub mod Validation
pub mod Directory
pub mod Run
use fingerprint_full_matcher.Prelude.{
  ℕ, String, Bool, true, false, not, ◌&&◌, ◌||◌, Option, none, some, List, [], ◌∷◌, ◌++◌, map,
  str_eq, if◌then◌else◌, ◌≡◌,
}
use fingerprint_full_matcher.Prelude.Int.{ℤ, pos}
use fingerprint_full_matcher.Prelude.Dict.{Dict, lookup}
use fingerprint_full_matcher.Prelude.Result.{Result, ok, err, Exception, key_error, assertion_error}
use fingerprint_full_matcher.Prelude.Action.{Action, ◌>>=◌, lift}
use fingerprint_full_matcher.Benchmark.Contract.{
  benchmark_contract_version, PreparedRepresentation, PrepareOutcome, CompareOutcome,
  MatcherAdapter, MethodMetadata,
}
use fingerprint_full_matcher.Benchmark.Manifest.{PairRecord, ProtocolManifest}

abbrev pub result_columns : List String
result_columns =
    "run_id" ∷ "method" ∷ "method_version" ∷ "protocol_id" ∷ "protocol_version"
    ∷ "manifest_relative_path" ∷ "manifest_sha256" ∷ "pair_index" ∷ "pair_id" ∷ "comparison_kind"
    ∷ "dataset_release" ∷ "subject_index_a" ∷ "subject_id_a" ∷ "subject_index_b" ∷ "subject_id_b"
    ∷ "canonical_finger" ∷ "hand" ∷ "finger_name" ∷ "capture_type_a" ∷ "capture_type_b"
    ∷ "nominal_ppi_a" ∷ "nominal_ppi_b" ∷ "relative_path_a" ∷ "relative_path_b" ∷ "sha256_a"
    ∷ "sha256_b" ∷ "source_frgp_a" ∷ "source_frgp_b" ∷ "image_status_a" ∷ "image_status_b"
    ∷ "pair_status" ∷ "source_pair_id" ∷ "prepare_a_status" ∷ "prepare_b_status"
    ∷ "comparison_status" ∷ "status" ∷ "error_code" ∷ "error_message" ∷ "raw_score"
    ∷ "score_direction" ∷ "score_semantics" ∷ "prepare_a_wall_ms" ∷ "prepare_b_wall_ms"
    ∷ "compare_wall_ms" ∷ "method_internal_prepare_a_ms" ∷ "method_internal_prepare_b_ms"
    ∷ "method_internal_compare_ms" ∷ "score_payload_sha256" ∷ []

-- The Python values of a row and of a JSON payload; `nothing` is `None`.
pub data Value (F : Type 0) : Type 0 where
  nothing : Value F
  str : String → Value F
  int : ℤ → Value F
  float : F → Value F

abbrev pub is_ok : String → Bool
is_ok status = str_eq status "ok"

-- How a pair ended: the three values that the first part of `_result_for_pair` computes.
pub record Ending : Type 0 where
  pub result_status : String
  pub error_code : Option String
  pub error_message : Option String

module _ {F : Type 0} where
  abbrev pub optional_text : Option String → Value F
  optional_text none = nothing
  optional_text (some s) = str s

  abbrev pub optional_float : Option F → Value F
  optional_float none = nothing
  optional_float (some x) = float x

  -- `_display`
  abbrev pub display : Value F → Value F
  display nothing = str ""
  display v = v

  -- The outcome of the comparison, where there is one.
  abbrev status_of : Option (CompareOutcome F) → String
  status_of none = "not_run"
  status_of (some c) = c.status

  compared : Option (CompareOutcome F) → Ending
  compared none = record {
    result_status = "comparison_failure";
    error_code = some "comparison_not_run";
    error_message = some "comparison was not run";
  }
  compared (some c) =
      if is_ok c.status
      then record { result_status = "ok"; error_code = none; error_message = none }
      else record {
        result_status = "comparison_failure";
        error_code = c.error_code;
        error_message = c.error_message;
      }

  unfoldable pub ending : PrepareOutcome F → PrepareOutcome F → Option (CompareOutcome F) → Ending
  unfolding compared
  ending prepared_a prepared_b comparison =
      if not (is_ok prepared_a.status)
      then record {
        result_status = "prepare_a_failure";
        error_code = prepared_a.error_code;
        error_message = prepared_a.error_message;
      }
      else if not (is_ok prepared_b.status)
      then record {
        result_status = "prepare_b_failure";
        error_code = prepared_b.error_code;
        error_message = prepared_b.error_message;
      }
      else compared comparison

  unfoldable pub raw_score_of : Option (CompareOutcome F) → Option F
  raw_score_of none = none
  raw_score_of (some c) = if is_ok c.status then c.raw_score else none

  -- `asdict(pair)` without the two paths.
  abbrev pair_fields : PairRecord → Dict (Value F)
  pair_fields pair =
      ("pair_id", str pair.pair_id)
      ∷ ("comparison_kind", str pair.comparison_kind)
      ∷ ("dataset_release", str pair.dataset_release)
      ∷ ("subject_index_a", int pair.subject_index_a)
      ∷ ("subject_id_a", str pair.subject_id_a)
      ∷ ("subject_index_b", int pair.subject_index_b)
      ∷ ("subject_id_b", str pair.subject_id_b)
      ∷ ("canonical_finger", int pair.canonical_finger)
      ∷ ("hand", str pair.hand)
      ∷ ("finger_name", str pair.finger_name)
      ∷ ("capture_type_a", str pair.capture_type_a)
      ∷ ("capture_type_b", str pair.capture_type_b)
      ∷ ("nominal_ppi_a", int pair.nominal_ppi_a)
      ∷ ("nominal_ppi_b", int pair.nominal_ppi_b)
      ∷ ("relative_path_a", str pair.relative_path_a)
      ∷ ("relative_path_b", str pair.relative_path_b)
      ∷ ("sha256_a", str pair.sha256_a)
      ∷ ("sha256_b", str pair.sha256_b)
      ∷ ("source_frgp_a", str pair.source_frgp_a)
      ∷ ("source_frgp_b", str pair.source_frgp_b)
      ∷ ("image_status_a", str pair.image_status_a)
      ∷ ("image_status_b", str pair.image_status_b)
      ∷ ("pair_status", str pair.pair_status)
      ∷ ("source_pair_id", str pair.source_pair_id)
      ∷ []

  wall_of : Option (CompareOutcome F) → Option F
  wall_of none = none
  wall_of (some c) = c.wall_ms

  internal_of : Option (CompareOutcome F) → Option F
  internal_of none = none
  internal_of (some c) = c.internal_ms

  -- The payload whose hash a row carries: the fields that do not depend on the run's times.
  unfoldable pub deterministic :
      MethodMetadata → ProtocolManifest → ℕ → PairRecord → Ending → Option F → Dict (Value F)
  deterministic metadata manifest pair_index pair e raw_score =
      ("contract_version", str benchmark_contract_version)
      ∷ ("method_id", str metadata.method_id)
      ∷ ("method_version", str metadata.method_version)
      ∷ ("protocol_id", str manifest.protocol_id)
      ∷ ("protocol_version", int manifest.protocol_version)
      ∷ ("manifest_sha256", str manifest.sha256)
      ∷ ("pair_index", int (pos pair_index))
      ∷ ("pair_id", str pair.pair_id)
      ∷ ("comparison_kind", str pair.comparison_kind)
      ∷ ("subject_id_a", str pair.subject_id_a)
      ∷ ("subject_id_b", str pair.subject_id_b)
      ∷ ("sha256_a", str pair.sha256_a)
      ∷ ("sha256_b", str pair.sha256_b)
      ∷ ("result_status", str e.result_status)
      ∷ ("error_code", optional_text e.error_code)
      ∷ ("raw_score", optional_float raw_score)
      ∷ []

  module _ (stable_sha256 : Dict (Value F) → String) where
    unfoldable pub full_row :
        String
        → ProtocolManifest
        → ℕ
        → PairRecord
        → MethodMetadata
        → PrepareOutcome F
        → PrepareOutcome F
        → Option (CompareOutcome F)
        → Dict (Value F)
    unfolding ending raw_score_of deterministic wall_of internal_of
    full_row run_id manifest pair_index pair metadata prepared_a prepared_b comparison =
        let e = ending prepared_a prepared_b comparison in
        let raw_score = raw_score_of comparison in
        ("run_id", str run_id)
        ∷ ("method", str metadata.method_id)
        ∷ ("method_version", str metadata.method_version)
        ∷ ("protocol_id", str manifest.protocol_id)
        ∷ ("protocol_version", int manifest.protocol_version)
        ∷ ("manifest_relative_path", str manifest.relative_path)
        ∷ ("manifest_sha256", str manifest.sha256)
        ∷ ("pair_index", int (pos pair_index))
        ∷ (pair_fields pair
            ++ (("prepare_a_status", str prepared_a.status)
                ∷ ("prepare_b_status", str prepared_b.status)
                ∷ ("comparison_status", str (status_of comparison))
                ∷ ("status", str e.result_status)
                ∷ ("error_code", optional_text e.error_code)
                ∷ ("error_message", optional_text e.error_message)
                ∷ ("raw_score", optional_float raw_score)
                ∷ ("score_direction", str metadata.score_direction)
                ∷ ("score_semantics", str metadata.score_semantics)
                ∷ ("prepare_a_wall_ms", optional_float prepared_a.wall_ms)
                ∷ ("prepare_b_wall_ms", optional_float prepared_b.wall_ms)
                ∷ ("compare_wall_ms", optional_float (wall_of comparison))
                ∷ ("method_internal_prepare_a_ms", optional_float prepared_a.internal_ms)
                ∷ ("method_internal_prepare_b_ms", optional_float prepared_b.internal_ms)
                ∷ ("method_internal_compare_ms", optional_float (internal_of comparison))
                ∷ (
                  "score_payload_sha256",
                  str (stable_sha256 (deterministic metadata manifest pair_index pair e raw_score)),
                )
                ∷ []))

    -- `{column: _display(row[column]) for column in RESULT_COLUMNS}`; a missing key would raise.
    unfoldable pub columns : List String → Dict (Value F) → Result Exception (Dict (Value F))
    columns [] row = ok []
    columns (c ∷ cs) row = elim (lookup c row) [
      | none ↦ err (key_error c)
      | some v ↦ elim (columns cs row) [ err e ↦ err e | ok rest ↦ ok ((c, display v) ∷ rest) ]
    ]

    module _ {S : Type 0} (adapter : MatcherAdapter S F) where
      -- The representations of two successful outcomes; an `assert` fails where one is missing.
      compare_prepared :
          Option PreparedRepresentation
          → Option PreparedRepresentation
          → Action S Exception (Option (CompareOutcome F))
      compare_prepared (some a) (some b) = do
        comparison ← adapter.compare a b
        lift (ok (some comparison))
      compare_prepared _ _ = lift (err assertion_error)

      comparison_of :
          PrepareOutcome F → PrepareOutcome F → Action S Exception (Option (CompareOutcome F))
      unfolding compare_prepared
      comparison_of prepared_a prepared_b =
          if is_ok prepared_a.status && is_ok prepared_b.status
          then compare_prepared prepared_a.representation prepared_b.representation
          else lift (ok none)

      -- `_result_for_pair`
      pub result_for_pair :
          String → ProtocolManifest → ℕ → PairRecord → Action S Exception (Dict (Value F))
      result_for_pair run_id manifest pair_index pair = do
        prepared_a ←
            adapter.prepare pair.path_a
              (record { nominal_ppi = pair.nominal_ppi_a; sha256 = pair.sha256_a })
        prepared_b ←
            adapter.prepare pair.path_b
              (record { nominal_ppi = pair.nominal_ppi_b; sha256 = pair.sha256_b })
        comparison ← comparison_of prepared_a prepared_b
        lift (
            columns result_columns (
              full_row run_id manifest pair_index pair adapter.metadata prepared_a prepared_b
                comparison))
