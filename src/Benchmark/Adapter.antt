-- ===== src/Benchmark/Adapter.antt =====
-- src/fingerprint_benchmark/sourceafis_adapter.py: `SourceAfisAdapter`, over a client, a disk and a
-- clock.
pub mod Outcomes
pub mod Tests
use fingerprint_full_matcher.Prelude.{
  ℕ, String, Bool, true, false, not, ◌&&◌, ◌||◌, Option, none, some, List, [], ◌∷◌, str_eq, ◌==◌,
  if◌then◌else◌, ◌≡◌,
}
use fingerprint_full_matcher.Prelude.Int.{ℤ, pos, negsuc}
use fingerprint_full_matcher.Prelude.Text.{is_empty}
use fingerprint_full_matcher.Prelude.Result.{
  Result, ok, err, require, Exception, type_error, value_error, key_error, index_error,
  assertion_error, overflow_error, os_error,
}
use fingerprint_full_matcher.Prelude.Action.{Action, ◌>>=◌, ◌>>◌, lift, try_except}
use fingerprint_full_matcher.Benchmark.Floats.{Floats}
use fingerprint_full_matcher.Benchmark.Client.{
  sourceafis_version, Caught, client_error, other_error, uncaught, ExtractedTemplate, Verification,
}
use fingerprint_full_matcher.Benchmark.Contract.{
  Bytes, MethodMetadata, PreparedRepresentation, new_representation, PrepareOutcome,
  new_prepare_outcome, CompareOutcome, new_compare_outcome, ImageMetadata, MatcherAdapter,
}

-- The client, the disk and the clock that the adapter uses.
pub record ClientApi (S F : Type 0) : Type 0 where
  pub extract_template : Bytes → ℤ → Action S Caught (ExtractedTemplate F)
  pub verify : Bytes → Bytes → Action S Caught (Verification F)
  pub close : Action S Exception Unit
  pub read_bytes : String → Action S Caught Bytes
  pub perf_counter : S → F × S

abbrev is_dpi : ℤ → Bool
is_dpi (pos n) = n == 1000 || n == 2000
is_dpi (negsuc n) = false

-- `str(exc)`
abbrev pub message_of : Exception → String
message_of (type_error m) = m
message_of (value_error m) = m
message_of (key_error key) = key
message_of index_error = "list index out of range"
message_of assertion_error = ""
message_of overflow_error = "int too large to convert to float"
message_of (os_error message) = message

-- An exception of a constructor inside the `try`.
unfoldable pub caught : {A : Type 0} → Result Exception A → Result Caught A
caught (ok a) = ok a
caught (err e) = err (other_error (message_of e))

-- `if not test: raise …` inside the `try`.
unfoldable pub insist : {S : Type 0} → Bool → String → Action S Caught Unit
insist test message = lift (require test (other_error message))

module _ {S F : Type 0} (floats : Floats F) (client : ClientApi S F) where
  -- `(time.perf_counter() - started) * 1000`
  wall_ms : {E : Type 0} → F → Action S E F
  wall_ms started s =
      let (now, s') = client.perf_counter s in (ok (floats.milliseconds started now), s')

  prepare_body : F → String → ImageMetadata → Action S Caught (PrepareOutcome F)
  prepare_body started image_path image_metadata = do
    insist (is_dpi image_metadata.nominal_ppi) "nominal_ppi must be 1000 or 2000"
    encoded ← client.read_bytes image_path
    extracted ← client.extract_template encoded image_metadata.nominal_ppi
    representation ← lift (
        caught (
          new_representation (record {
            payload = extracted.payload;
            format_id = extracted.format_id;
            format_version = extracted.format_version;
          })))
    wall ← wall_ms started
    lift (
        caught (
          new_prepare_outcome (record {
            status = "ok";
            representation = some representation;
            error_code = none;
            error_message = none;
            wall_ms = some wall;
            internal_ms = some extracted.elapsed_ms;
          })))

  error_prepare : F → String → String → Action S Exception (PrepareOutcome F)
  error_prepare started code message = do
    wall ← wall_ms started
    lift (
        new_prepare_outcome (record {
          status = "error";
          representation = none;
          error_code = some code;
          error_message = some message;
          wall_ms = some wall;
          internal_ms = none;
        }))

  failed_prepare : F → Caught → Action S Exception (PrepareOutcome F)
  unfolding error_prepare
  failed_prepare started (client_error code message status) = error_prepare started code message
  failed_prepare started (other_error message) = error_prepare started "invalid_image_input" message
  failed_prepare started (uncaught e) = lift (err e)

  pub prepare : String → ImageMetadata → Action S Exception (PrepareOutcome F)
  unfolding prepare_body failed_prepare
  prepare image_path image_metadata s =
      let (started, s') = client.perf_counter s in
      try_except (prepare_body started image_path image_metadata) (failed_prepare started) s'

  is_sourceafis : PreparedRepresentation → Bool
  is_sourceafis r = str_eq r.format_id "sourceafis" && str_eq r.format_version sourceafis_version

  compare_body :
      F → PreparedRepresentation → PreparedRepresentation → Action S Caught (CompareOutcome F)
  compare_body started representation_a representation_b = do
    insist (is_sourceafis representation_a && is_sourceafis representation_b)
        "SourceAFIS template identity/version mismatch"
    verification ← client.verify representation_a.payload representation_b.payload
    wall ← wall_ms started
    lift (
        caught (
          new_compare_outcome floats (record {
            status = "ok";
            raw_score = some verification.score;
            error_code = none;
            error_message = none;
            wall_ms = some wall;
            internal_ms = some verification.elapsed_ms;
          })))

  error_compare : F → String → String → Action S Exception (CompareOutcome F)
  error_compare started code message = do
    wall ← wall_ms started
    lift (
        new_compare_outcome floats (record {
          status = "error";
          raw_score = none;
          error_code = some code;
          error_message = some message;
          wall_ms = some wall;
          internal_ms = none;
        }))

  failed_compare : F → Caught → Action S Exception (CompareOutcome F)
  unfolding error_compare
  failed_compare started (client_error code message status) = error_compare started code message
  failed_compare started (other_error message) = error_compare started "invalid_template" message
  failed_compare started (uncaught e) = lift (err e)

  pub compare :
      PreparedRepresentation → PreparedRepresentation → Action S Exception (CompareOutcome F)
  unfolding compare_body failed_compare
  compare representation_a representation_b s =
      let (started, s') = client.perf_counter s in
      try_except (compare_body started representation_a representation_b) (failed_compare started)
        s'

  abbrev pub adapter : MatcherAdapter S F
  adapter = record {
    metadata = record {
      method_id = "sourceafis";
      method_version = sourceafis_version;
      score_direction = "higher_is_more_similar";
      score_semantics = "raw_similarity";
    };
    prepare = prepare;
    compare = compare;
    close = client.close;
  }
