-- ===== src/Benchmark/Runner/Run.antt =====
-- src/fingerprint_benchmark/runner.py: `run_manifest`, over the state of the adapter and the disk of
-- `publish_bundle`. A write of a file is one call of the system, which may fail and leave the directory as
-- it was or otherwise. The candidate's path and the backup's, which end in random texts, are parameters.
pub mod Made
pub mod Calls
pub mod Published
pub mod Closed
use fingerprint_full_matcher.Prelude.{
  ℕ, suc, String, ◌<>◌, Bool, true, false, not, ◌&&◌, Option, none, some, List, [], ◌∷◌, map,
  length, if◌then◌else◌,
}
use fingerprint_full_matcher.Prelude.Dict.{Dict}
use fingerprint_full_matcher.Prelude.Result.{Result, ok, err, Exception}
use fingerprint_full_matcher.Prelude.Action.{Action, ◌>>=◌, ◌>>◌, lift, try_except, try_finally}
use fingerprint_full_matcher.Benchmark.Floats.{Floats}
use fingerprint_full_matcher.Benchmark.Contract.{MatcherAdapter, benchmark_contract_version}
use fingerprint_full_matcher.Benchmark.Adapter.{message_of}
use fingerprint_full_matcher.Benchmark.Manifest.{PairRecord, ProtocolManifest}
use fingerprint_full_matcher.Benchmark.Bundle
use fingerprint_full_matcher.Benchmark.Bundle.{
  BundleError, os_error, invalid_bundle, Fault, done, failed, left, World, put, next_fault, exists,
  rmtree, publish_bundle,
}
use fingerprint_full_matcher.Benchmark.Runner.{Value, str, result_columns, result_for_pair}
use fingerprint_full_matcher.Benchmark.Runner.Validation.{
  ResultError, result_bundle_error, raised, written,
}
use fingerprint_full_matcher.Benchmark.Runner.Directory.{
  Directory, Metadata, Results, JsonFile, json, Hashes, BundleSummary, run_id_of,
  validate_result_bundle,
}

pub data RunError : Type 0 where
  exception : Exception → RunError
  disk_error : BundleError → RunError

-- An exception with its text, as `publish_bundle` passes it on.
unfoldable pub bundle_error : ResultError → BundleError
bundle_error (result_bundle_error message) = invalid_bundle message
bundle_error (raised e) = invalid_bundle (message_of e)

unfoldable pub validation : Result ResultError BundleSummary → Result BundleError (Unit {0})
unfolding bundle_error
validation (ok summary) = ok tt
validation (err e) = err (bundle_error e)

pub record RunState (S Tree : Type 0) : Type 0 where
  pub adapter : S
  pub disk : World Tree

module _ {D E A : Type 0} where
  abbrev pub map_error : (D → E) → Result D A → Result E A
  map_error f (ok a) = ok a
  map_error f (err d) = err (f d)

-- `call(); return path`
unfoldable pub returning : {E : Type 0} → String → Result E (Unit {0}) → Result E String
returning path (ok u) = ok path
returning path (err e) = err e

module _ {S Tree A : Type 0} where
  -- A call of the adapter, and one of the disk.
  unfoldable pub on_adapter : Action S Exception A → Action (RunState S Tree) RunError A
  on_adapter m s = let (r, a) = m s.adapter in (map_error exception r, record s { adapter = a })

  unfoldable pub on_disk : Bundle.Action Tree A → Action (RunState S Tree) RunError A
  on_disk m s = let (r, w) = m s.disk in (map_error disk_error r, record s { disk = w })

module _ {F P : Type 0} where
  abbrev pub nothing_there : Directory F P
  nothing_there = record { metadata = none; results = none; provenance = none }

  made : Option (Directory F P) → String → Bundle.Action (Directory F P) Unit
  made none path w = (ok tt, record w { at = put path (some nothing_there) w.at })
  made (some d) path w = (err os_error, w)

  -- `path.mkdir(parents=True, exist_ok=False)`
  unfoldable pub mkdir : String → Bundle.Action (Directory F P) Unit
  unfolding made next_fault
  mkdir path w =
      let (fault, rest) = next_fault w.faults in
      let w' : World (Directory F P) = record w { faults = rest } in
      elim fault [
        | done ↦ made (w.at path) path w'
        | failed ↦ (err os_error, w')
        | left d ↦ (err os_error, w')
      ]

  changed :
      Option (Directory F P)
      → (Directory F P → Directory F P)
      → String
      → Bundle.Action (Directory F P) Unit
  changed none f path w = (err os_error, w)
  changed (some d) f path w = (ok tt, record w { at = put path (some (f d)) w.at })

  -- An atomic writer of io.py, on a file of the directory at `path`.
  unfoldable pub write_atomic :
      String → (Directory F P → Directory F P) → Bundle.Action (Directory F P) Unit
  unfolding changed next_fault
  write_atomic path f w =
      let (fault, rest) = next_fault w.faults in
      let w' : World (Directory F P) = record w { faults = rest } in
      elim fault [
        | done ↦ changed (w.at path) f path w'
        | failed ↦ (err os_error, w')
        | left d ↦ (err os_error, record w' { at = put path (some d) w.at })
      ]

  with_results : Results → Directory F P → Directory F P
  with_results results d = record d { results = some results }

  with_provenance : P → Directory F P → Directory F P
  with_provenance p d = record d { provenance = some (json p) }

  with_metadata : Metadata F → Directory F P → Directory F P
  with_metadata m d = record d { metadata = some (json m) }

-- What a call of `run_manifest` is given, with the numbers and the hashes of its Python.
pub record RunInput (S F P : Type 0) : Type 0 where
  pub floats : Floats F
  pub hashes : Hashes F P
  pub adapter : MatcherAdapter S F
  pub manifest : ProtocolManifest
  pub provenance : P
  pub candidate : String
  pub destination : String
  pub backup : String

module _ {S F P : Type 0} (run : RunInput S F P) where
  abbrev identity_of : Dict (Value F)
  identity_of =
      ("contract_version", str benchmark_contract_version)
      ∷ ("method_id", str run.adapter.metadata.method_id)
      ∷ ("method_version", str run.adapter.metadata.method_version)
      ∷ ("manifest_sha256", str run.manifest.sha256)
      ∷ ("protocol_lock_sha256", str run.manifest.protocol_lock_sha256)
      ∷ []

  abbrev pub own_id : String
  own_id = run_id_of run.floats run.hashes identity_of

  -- `enumerate(manifest.records, start=1)`; the writer turns each row into texts.
  unfoldable pub collect_rows : ℕ → List PairRecord → Action S Exception (List (Dict String))
  collect_rows index [] = lift (ok [])
  collect_rows index (pair ∷ pairs) = do
    row ← result_for_pair run.hashes.stable_sha256 run.adapter own_id run.manifest index pair
    rows ← collect_rows (suc index) pairs
    lift (ok (written run.floats row ∷ rows))

  unfoldable pub made_metadata : Results → Metadata F
  made_metadata results = record {
    contract_version = some benchmark_contract_version;
    run_id = some own_id;
    row_count = some (length results.rows);
    identity = some identity_of;
    results_sha256 = some (run.hashes.sha256_of_results results);
    provenance_sha256 = some (run.hashes.sha256_of_provenance (json run.provenance));
  }

  unfoldable pub write_files : Results → Action (RunState S (Directory F P)) RunError Unit
  unfolding ◌>>=◌ on_disk with_results with_provenance with_metadata
  write_files results = do
    on_disk (write_atomic run.candidate (with_results results))
    on_disk (write_atomic run.candidate (with_provenance run.provenance))
    on_disk (write_atomic run.candidate (with_metadata (made_metadata results)))

  unfoldable pub check_bundle : Option (Directory F P) → Result BundleError (Unit {0})
  unfolding validation validate_result_bundle
  check_bundle d = validation (validate_result_bundle run.floats run.hashes d)

  unfoldable pub run_body : Bool → Action (RunState S (Directory F P)) RunError String
  unfolding ◌>>=◌ on_adapter on_disk
  run_body replace = do
    rows ← on_adapter (collect_rows 1 run.manifest.records)
    write_files (record { fieldnames = result_columns; rows = rows })
    on_disk (publish_bundle check_bundle run.candidate run.destination run.backup replace)

  -- `except BaseException: if candidate.exists(): shutil.rmtree(candidate); raise`
  unfoldable pub drop_candidate : RunError → Action (RunState S (Directory F P)) RunError String
  unfolding ◌>>=◌ on_disk Bundle.when exists lift
  drop_candidate e = do
    on_disk (λ w. Bundle.when (exists run.candidate w) (rmtree run.candidate) w)
    lift (err e)

  unfoldable pub run_new : Bool → Action (RunState S (Directory F P)) RunError String
  unfolding try_finally try_except on_adapter
  run_new replace =
      try_finally (try_except (run_body replace) drop_candidate) (on_adapter run.adapter.close)

  keep_destination : Bundle.Action (Directory F P) String
  unfolding check_bundle returning
  keep_destination w = (returning run.destination (check_bundle (w.at run.destination)), w)

  unfoldable pub run_old : Action (RunState S (Directory F P)) RunError String
  unfolding try_finally keep_destination on_disk on_adapter
  run_old = try_finally (on_disk keep_destination) (on_adapter run.adapter.close)

  unfoldable pub make_and_run : Bool → Action (RunState S (Directory F P)) RunError String
  unfolding ◌>>=◌ on_disk
  make_and_run replace = do on_disk (mkdir run.candidate); run_new replace

  unfoldable pub run_or_keep : Bool → Bool → Action (RunState S (Directory F P)) RunError String
  run_or_keep true replace = run_old
  run_or_keep false replace = make_and_run replace

  -- The destination is `output_root / run_id`.
  unfoldable pub run_manifest : Bool → Action (RunState S (Directory F P)) RunError String
  unfolding exists
  run_manifest replace s = run_or_keep (exists run.destination s.disk && not replace) replace s
