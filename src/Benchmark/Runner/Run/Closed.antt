-- ===== src/Benchmark/Runner/Run/Closed.antt =====
-- The adapter is closed when `run_manifest` ends.
use fingerprint_full_matcher.Prelude.{String, Bool, true, false, ◌≡◌, ◌⊎◌, inl, inr, refl}
use fingerprint_full_matcher.Prelude.Result.{Result, ok, err}
use fingerprint_full_matcher.Prelude.Action.{continue, ◌>>=◌, try_finally}
use fingerprint_full_matcher.Benchmark.Bundle.{BundleError}
use fingerprint_full_matcher.Benchmark.Runner.Directory.{Directory}
use fingerprint_full_matcher.Benchmark.Runner.Run.{
  RunInput, RunState, RunError, map_error, disk_error, run_or_keep, make_and_run, on_adapter,
  on_disk, mkdir, run_new, run_old, run_manifest,
}

module _ {S F P : Type 0} (run : RunInput S F P) (IsClosed : S → Type 0)
    (closes : (s : S) → IsClosed (run.adapter.close s).1) where
  run_new-closes :
      (replace : Bool) (s : RunState S (Directory F P)) → IsClosed (run_new run replace s).1.adapter
  unfolding run_new try_finally on_adapter
  run_new-closes replace s = closes _

  run_old-closes : (s : RunState S (Directory F P)) → IsClosed (run_old run s).1.adapter
  unfolding run_old try_finally on_adapter
  run_old-closes s = closes _

  -- Closed, or the directory was not made: then the run raises why, and the adapter is as it was.
  abbrev Ends :
      Result BundleError (Unit {0})
      → RunState S (Directory F P)
      → Result RunError String × RunState S (Directory F P)
      → Type 0
  Ends made before ended =
      IsClosed ended.1.adapter
      ⊎ ((e : BundleError) × (made ≡ err e)
          × (ended.0 ≡ err (disk_error e))
          × (ended.1.adapter ≡ before.adapter))

  continue-Ends :
      (replace : Bool) (made : Result BundleError (Unit {0}))
      (before s : RunState S (Directory F P))
      → s.adapter ≡ before.adapter
      → Ends made before (continue (map_error disk_error made) (λ _. run_new run replace) s)
  unfolding continue
  continue-Ends replace (ok u) before s same = inl (run_new-closes replace s)
  continue-Ends replace (err e) before s same = inr (e, refl, refl, same)

  run_or_keep-Ends :
      (kept replace : Bool) (s : RunState S (Directory F P))
      → Ends (mkdir {F = F} {P = P} run.candidate s.disk).0 s (run_or_keep run kept replace s)
  unfolding run_or_keep make_and_run ◌>>=◌ on_disk
  run_or_keep-Ends true replace s = inl (run_old-closes s)
  run_or_keep-Ends false replace s = continue-Ends replace (mkdir run.candidate s.disk).0 s _ refl

  -- Whatever the adapter raises and whatever calls of the system fail, the adapter is closed when
  -- `run_manifest` has returned or raised, but where the directory of the candidate could not be made: then
  -- the run raises the error of that call, and the adapter is left as it was.
  pub run_manifest-closes :
      (replace : Bool) (s : RunState S (Directory F P))
      → let ended = run_manifest run replace s in
        IsClosed ended.1.adapter
        ⊎ ((e : BundleError) × ((mkdir {F = F} {P = P} run.candidate s.disk).0 ≡ err e)
            × (ended.0 ≡ err (disk_error e))
            × (ended.1.adapter ≡ s.adapter))
  unfolding run_manifest
  run_manifest-closes replace s = run_or_keep-Ends _ replace s
