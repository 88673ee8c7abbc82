-- ===== src/Supervisor/Package/Tests.antt =====
-- `build_package` on a disk with a package, which is a number here.
use fingerprint_full_matcher.Prelude.{
  ℕ, String, true, false, not, ◌&&◌, ◌≡◌, ◌⊎◌, refl, Option, none, some, List, [], ◌∷◌, str_eq,
  if◌then◌else◌,
}
use fingerprint_full_matcher.Prelude.Result.{Result, ok, err}
use fingerprint_full_matcher.Prelude.Text.{apart}
use fingerprint_full_matcher.Benchmark.Bundle.{
  BundleError, os_error, invalid_bundle, Fault, done, failed, World, os_replace, rmtree,
}
use fingerprint_full_matcher.Benchmark.Bundle.Publication.{AreDistinct, one_failure, present}
use fingerprint_full_matcher.Supervisor.Package.{build_package}
use fingerprint_full_matcher.Supervisor.Package.Published.{
  build_package-returned, build_package-raised,
}

abbrev disk : String → Option ℕ
disk path = if str_eq path "o" then some 15 else none

abbrev start : (String → Option ℕ) → List (Fault ℕ) → World ℕ
start at faults = record {
  at = at;
  faults = faults;
  moved_old = false;
  published_candidate = false;
}

paths : AreDistinct "c" "o" "b"
paths = record { cd = apart "c" "o" refl; cb = apart "c" "b" refl; db = apart "o" "b" refl }

abbrev run : List (Fault ℕ) → Result BundleError (Unit {0}) × World ℕ
run faults = build_package (ok tt) (some 20) "c" "o" "b" true (start disk faults)

replaced : (run []).1.at "o" ≡ some 20
unfolding build_package os_replace rmtree
replaced = refl

-- The old package cannot be moved back after a second failure, and is left as the backup.
twice : (run (done ∷ failed ∷ failed ∷ [])).1.at "b" ≡ some 15
unfolding build_package os_replace rmtree
twice = refl

-- The next run removes the only copy before it builds; here its build fails.
abbrev left_over : String → Option ℕ
left_over path = if str_eq path "b" then some 15 else none

abbrev next_run : Result BundleError (Unit {0}) × World ℕ
next_run =
    build_package (err (invalid_bundle "curation")) none "c" "o" "b" true (start left_over [])

only_copy_lost : (next_run.1.at "b" ≡ none) × (next_run.1.at "o" ≡ none)
unfolding build_package os_replace rmtree
only_copy_lost = (refl, refl)

ran : run [] ≡ (ok tt, (run []).1)
unfolding build_package os_replace rmtree
ran = refl

raised : run (one_failure 1) ≡ (err os_error, (run (one_failure 1)).1)
unfolding build_package os_replace rmtree one_failure
raised = refl

build_package-returned_example :
    let w = (run []).1 in
    (◌≡◌ {A = Result BundleError (Unit {0})} (ok tt) (ok tt))
    × (present (disk "o") && not true ≡ false)
    × (w.at "o" ≡ some 20)
    × (w.at "c" ≡ none)
    × (w.at "b" ≡ none)
build_package-returned_example =
    build_package-returned (ok tt) (some 20) "c" "o" "b" paths disk true [] (run []).1 ran

build_package-raised_example :
    let w = (run (one_failure 1)).1 in
    ((w.at "o" ≡ some 15) × (w.at "b" ≡ none))
    ⊎ ((◌≡◌ {A = Result BundleError (Unit {0})} (ok tt) (ok tt)) × (w.at "o" ≡ some 20))
build_package-raised_example =
    build_package-raised (ok tt) (some 20) "c" "o" "b" paths disk 20 refl refl refl true os_error
      (run (one_failure 1)).1 1 raised
