-- ===== src/Benchmark/Bundle/Tests.antt =====
-- `publish_bundle` on a disk with a candidate and an old bundle; a bundle is a number here, and one
-- below 10 is not valid.
use fingerprint_full_matcher.Prelude.{
  ℕ, String, Bool, true, false, ◌≡◌, refl, Option, none, some, List, [], ◌∷◌, str_eq, if◌then◌else◌,
  ltb,
}
use fingerprint_full_matcher.Prelude.Result.{Result, ok, err}
use fingerprint_full_matcher.Prelude.Text.{apart}
use fingerprint_full_matcher.Benchmark.Bundle.{
  BundleError, os_error, invalid_bundle, Fault, done, failed, left, World, publish_bundle,
  os_replace, rmtree,
}
use fingerprint_full_matcher.Benchmark.Bundle.Frame.{publish_bundle-frame}
use fingerprint_full_matcher.Benchmark.Bundle.Publication.{
  AreDistinct, one_failure, publish_bundle-returned, publish_bundle-total, publish_bundle-restores,
}

abbrev validate_number : Option ℕ → Result BundleError (Unit {0})
validate_number none = err (invalid_bundle "missing")
validate_number (some n) = if ltb n 10 then err (invalid_bundle "bad") else ok tt

abbrev disk : String → Option ℕ
disk path = if str_eq path "c" then some 20 else if str_eq path "d" then some 15 else none

abbrev start : List (Fault ℕ) → World ℕ
start faults = record { at = disk; faults = faults; moved_old = false; published_candidate = false }

paths : AreDistinct "c" "d" "b"
paths = record { cd = apart "c" "d" refl; cb = apart "c" "b" refl; db = apart "d" "b" refl }

abbrev run : Bool → List (Fault ℕ) → Result BundleError String × World ℕ
run replace faults = publish_bundle validate_number "c" "d" "b" replace (start faults)

replaced : ((publish_bundle validate_number "c" "d" "b" true (start [])).1).at "d" ≡ some 20
unfolding publish_bundle os_replace rmtree
replaced = refl

kept : ((publish_bundle validate_number "c" "d" "b" false (start [])).1).at "d" ≡ some 15
unfolding publish_bundle os_replace rmtree
kept = refl

-- The removal of the backup fails half-way: the damaged old bundle is put back.
damaged :
    ((publish_bundle validate_number "c" "d" "b" true (start (done ∷ done ∷ left 3 ∷ []))).1).at "d"
    ≡ some 3
unfolding publish_bundle os_replace rmtree
damaged = refl

publish_bundle-returned_example :
    let w = (run true []).1 in
    (◌≡◌ {A = String} "d" "d")
    × (w.at "c" ≡ none)
    × (w.at "b" ≡ none)
    × (validate_number (w.at "d") ≡ ok tt)
    × (w.at "d" ≡ some 20)
unfolding publish_bundle os_replace rmtree
publish_bundle-returned_example =
    publish_bundle-returned validate_number "c" "d" "b" paths disk refl true [] "d" (run true []).1
      refl

publish_bundle-total_example : (run true []).0 ≡ ok "d"
publish_bundle-total_example =
    publish_bundle-total validate_number "c" "d" "b" paths disk refl true 20 refl refl (λ h. refl)

publish_bundle-restores_example :
    let w = (run true (done ∷ done ∷ failed ∷ [])).1 in (w.at "d" ≡ some 15) × (w.at "b" ≡ none)
unfolding publish_bundle os_replace rmtree one_failure
publish_bundle-restores_example =
    publish_bundle-restores validate_number "c" "d" "b" paths disk refl true 2 20 os_error
      (run true (done ∷ done ∷ failed ∷ [])).1 refl refl

publish_bundle-frame_example :
    ((publish_bundle validate_number "c" "d" "b" true (start (done ∷ failed ∷ []))).1).at "e" ≡ none
publish_bundle-frame_example =
    publish_bundle-frame validate_number "c" "d" "b" "e" (apart "e" "c" refl) (apart "e" "d" refl)
      (apart "e" "b" refl) true (start (done ∷ failed ∷ []))
