-- ===== src/Benchmark/Runner/Run/Published.antt =====
-- A run where no call fails.
use text.Mathlib.TextPositions.{eq_refl}
use fingerprint_full_matcher.Prelude.{
  String, Bool, false, not, ◌&&◌, Option, none, some, List, [], length, ◌≡◌, ◌≢◌, refl, ap, sym,
  ◌∙◌, arith,
}
use fingerprint_full_matcher.Prelude.Dict.{Dict}
use fingerprint_full_matcher.Prelude.Result.{Result, ok}
use fingerprint_full_matcher.Prelude.Action.{try_except}
use fingerprint_full_matcher.Prelude.Action.Rules.{Yields}
use fingerprint_full_matcher.Benchmark.Floats.{FloatLaws}
use fingerprint_full_matcher.Benchmark.Bundle.{BundleError, World, put, exists, publish_bundle}
use fingerprint_full_matcher.Benchmark.Bundle.Publication.{
  AreDistinct, differ, present, publish_bundle-total, publish_bundle-returned, publish_bundle-flags,
}
use fingerprint_full_matcher.Benchmark.Runner.{result_columns}
use fingerprint_full_matcher.Benchmark.Runner.Validation.Rows.{IsAdapter}
use fingerprint_full_matcher.Benchmark.Runner.Directory.{Directory, Results, validate_result_bundle}
use fingerprint_full_matcher.Benchmark.Runner.Run.{
  RunInput, own_id, RunState, RunError, nothing_there, with_results, with_provenance, with_metadata,
  made_metadata, own_id, RunInput, collect_rows, write_files, check_bundle, validation, run_body,
  run_new, drop_candidate, run_or_keep, make_and_run, run_manifest,
}
use fingerprint_full_matcher.Benchmark.Runner.Run.Calls.{
  put_same, disk_of, mkdir-run, write_atomic-run,
}
use fingerprint_full_matcher.Benchmark.Runner.Run.Made.{
  AreAccepted, Yields-collect_rows, made_directory, validate_result_bundle-made,
}

-- The run has returned the destination, with a bundle that has a row for each pair.
module _ {S F P : Type 0} (run : RunInput S F P) where
  abbrev pub IsPublished : Result RunError String × RunState S (Directory F P) → Type 0
  IsPublished ended =
      (d : Directory F P) × (ended.0 ≡ ok run.destination)
      × (ended.1.disk.at run.destination ≡ some d)
      × (validate_result_bundle run.floats run.hashes (some d)
          ≡ ok (record { row_count = length run.manifest.records; run_id = own_id run }))
      × (ended.1.disk.at run.candidate ≡ none)
      × (ended.1.disk.at run.backup ≡ none)

module _ {S F P : Type 0} (run : RunInput S F P) (laws : FloatLaws run.floats)
    (good : IsAdapter run.floats run.adapter) (closes : (s : S) → (run.adapter.close s).0 ≡ ok tt)
    (paths : AreDistinct run.candidate run.destination run.backup) (moved published : Bool) where
  abbrev Dir : Type 0
  Dir = Directory F P

  abbrev state : S → (String → Option Dir) → RunState S Dir
  state a at = record { adapter = a; disk = disk_of at moved published }

  abbrev files : List (Dict String) → Dir
  files rows = made_directory run laws good rows

  abbrev after_files : List (Dict String) → (String → Option Dir) → String → Option Dir
  after_files rows at =
      let results : Results = record { fieldnames = result_columns; rows = rows } in
      let first = with_results results nothing_there in
      let second = with_provenance run.provenance first in
      put run.candidate (some (files rows))
        (put run.candidate (some second) (put run.candidate (some first) at))

  write_files-run :
      (rows : List (Dict String)) (a : S) (at : String → Option Dir)
      → at run.candidate ≡ some nothing_there
      → write_files run (record { fieldnames = result_columns; rows = rows }) (state a at)
        ≡ (ok tt, state a (after_files rows at))
  unfolding write_files
  write_files-run rows a at here =
      let results : Results = record { fieldnames = result_columns; rows = rows } in
      let first = with_results results nothing_there in
      let second = with_provenance run.provenance first in
      let at1 = put run.candidate (some first) at in
      let at2 = put run.candidate (some second) at1 in
      rw
        (
          write_atomic-run run.candidate moved published (with_results results) nothing_there at
              here,
          write_atomic-run run.candidate moved published (with_provenance run.provenance) first at1
              (put_same run.candidate (some first) at),
          write_atomic-run run.candidate moved published (with_metadata (made_metadata run results))
              second at2 (put_same run.candidate (some second) at1),
        )
        refl

  abbrev publish : Bool → (String → Option Dir) → Result BundleError String × World Dir
  publish replace at =
      publish_bundle (check_bundle run) run.candidate run.destination run.backup replace
        (disk_of at moved published)

  module _ (replace : Bool) (at : String → Option Dir)
      (free : present (at run.destination) && not replace ≡ false)
      (no_backup : at run.backup ≡ none) (rows : List (Dict String))
      (accepted : AreAccepted run laws good (length run.manifest.records) rows) where
    abbrev at' : String → Option Dir
    at' = after_files rows at

    same_elsewhere : (path : String) → path ≢ run.candidate → at' path ≡ at path
    same_elsewhere path h = rw (differ path run.candidate h) refl

    at_candidate : at' run.candidate ≡ some (files rows)
    at_candidate = rw (eq_refl run.candidate) refl

    check_bundle-files : check_bundle run (some (files rows)) ≡ ok tt
    unfolding check_bundle validation
    check_bundle-files = rw (validate_result_bundle-made run laws good rows accepted) refl

    destination_free : present (at' run.destination) && not replace ≡ false
    destination_free = rw (same_elsewhere run.destination (λ e. paths.cd (sym e))) free

    publish-run :
        (publish replace at' ≡ (ok run.destination, (publish replace at').1))
        × ((publish replace at').1.at run.destination ≡ some (files rows))
        × ((publish replace at').1.at run.candidate ≡ none)
        × ((publish replace at').1.at run.backup ≡ none)
    publish-run =
        let check = check_bundle run in
        let none_kept = same_elsewhere run.backup (λ e. paths.cb (sym e)) ∙ no_backup in
        let returned : (publish replace at').0 ≡ ok run.destination =
          ap (λ r. r.0)
            (publish_bundle-flags check run.candidate run.destination run.backup replace
              (disk_of at' moved published))
          ∙ publish_bundle-total check run.candidate run.destination run.backup paths at' none_kept
              replace (files rows) at_candidate check_bundle-files
              (λ kept. absurd (cc (kept, destination_free))) in
        let whole : publish replace at' ≡ (ok run.destination, (publish replace at').1) =
          ap (λ r. (r, (publish replace at').1)) returned in
        let (_, candidate_gone, backup_gone, _, placed) =
          publish_bundle-returned check run.candidate run.destination run.backup paths at' none_kept
            replace [] run.destination (publish replace at').1
            (sym (
                publish_bundle-flags check run.candidate run.destination run.backup replace
                  (disk_of at' moved published))
              ∙ whole) in
        (whole, placed ∙ rw destination_free at_candidate, candidate_gone, backup_gone)

    run_body-run :
        (a a' : S)
        → at run.candidate ≡ some nothing_there
        → collect_rows run 1 run.manifest.records a ≡ (ok rows, a')
        → run_body run replace (state a at)
          ≡ (ok run.destination, record { adapter = a'; disk = (publish replace at').1 })
    unfolding run_body
    run_body-run a a' here collected =
        rw (collected, write_files-run rows a' at here, publish-run.0) refl

    run_new-run :
        (a a' : S)
        → at run.candidate ≡ some nothing_there
        → collect_rows run 1 run.manifest.records a ≡ (ok rows, a')
        → IsPublished run (run_new run replace (state a at))
    unfolding run_new
    run_new-run a a' here collected =
        let (_, placed, candidate_gone, backup_gone) = publish-run in
        let attempt =
          ap (λ r. try_except (λ s. r) (drop_candidate run) (state a at))
            (run_body-run a a' here collected) in
        (
          files rows,
          rw (attempt, closes a') refl,
          rw (attempt) placed,
          validate_result_bundle-made run laws good rows accepted,
          rw (attempt) candidate_gone,
          rw (attempt) backup_gone,
        )

  not_kept :
      (replace : Bool) (at : String → Option Dir)
      → present (at run.destination) && not replace ≡ false
      → exists run.destination (disk_of at moved published) && not replace ≡ false
  unfolding exists
  not_kept replace at h = ground arith

  make_and_run-run :
      (replace : Bool) (at : String → Option Dir) (a : S)
      → present (at run.destination) && not replace ≡ false
      → at run.candidate ≡ none
      → at run.backup ≡ none
      → IsPublished run (make_and_run run replace (state a at))
  unfolding make_and_run Yields
  make_and_run-run replace at a free no_candidate no_backup =
      let made = put run.candidate (some nothing_there) at in
      let after : S = (collect_rows run 1 run.manifest.records a).1 in
      let (rows, collected, accepted) =
        Yields-collect_rows run laws good 1 run.manifest.records a in
      let still_free : present (made run.destination) && not replace ≡ false =
        rw (differ run.destination run.candidate (λ e. paths.cd (sym e))) free in
      let still_none : made run.backup ≡ none =
        rw (differ run.backup run.candidate (λ e. paths.cb (sym e))) no_backup in
      rw (mkdir-run run.candidate moved published at no_candidate) (
        run_new-run replace made still_free still_none rows accepted a after
          (put_same run.candidate (some nothing_there) at) (ap (λ r. (r, after)) collected))

  -- For distinct paths, of which candidate and backup are free, and an adapter that keeps the contract and
  -- closes without an error: where no call of the system fails and there is no bundle at the destination or
  -- it is to be replaced, the run returns the destination, which then holds a bundle with a row for each
  -- pair of the manifest that the validator accepts, and candidate and backup are gone.
  pub run_manifest-total :
      (replace : Bool) (at : String → Option Dir) (a : S)
      → present (at run.destination) && not replace ≡ false
      → at run.candidate ≡ none
      → at run.backup ≡ none
      → IsPublished run (run_manifest run replace (state a at))
  unfolding run_manifest run_or_keep
  run_manifest-total replace at a free no_candidate no_backup =
      rw (not_kept replace at free) (make_and_run-run replace at a free no_candidate no_backup)
