-- ===== src/Benchmark/Runner/Run/Calls.antt =====
-- Calls of the system that do not fail.
use text.Mathlib.TextPositions.{eq_refl}
use fingerprint_full_matcher.Prelude.{String, Bool, Option, none, some, [], ◌≡◌, ◌≢◌, refl}
use fingerprint_full_matcher.Prelude.Result.{ok}
use fingerprint_full_matcher.Benchmark.Bundle.{World, put}
use fingerprint_full_matcher.Benchmark.Bundle.Publication.{differ}
use fingerprint_full_matcher.Benchmark.Runner.Directory.{Directory}
use fingerprint_full_matcher.Benchmark.Runner.Run.{mkdir, write_atomic, nothing_there}

module _ {Tree : Type 0} where
  pub put_same :
      (path : String) (entry : Option Tree) (at : String → Option Tree)
      → put path entry at path ≡ entry
  put_same path entry at = rw (eq_refl path) refl

  pub put_other :
      (path other : String) (entry : Option Tree) (at : String → Option Tree)
      → other ≢ path
      → put path entry at other ≡ at other
  put_other path other entry at h = rw (differ other path h) refl

  -- The disk where only what is at its paths matters.
  abbrev pub disk_of : (String → Option Tree) → Bool → Bool → World Tree
  disk_of at moved published = record {
    at = at;
    faults = [];
    moved_old = moved;
    published_candidate = published;
  }

module _ {F P : Type 0} (path : String) (moved published : Bool) where
  pub mkdir-run :
      (at : String → Option (Directory F P))
      → at path ≡ none
      → mkdir path (disk_of at moved published)
        ≡ (ok tt, disk_of (put path (some nothing_there) at) moved published)
  unfolding mkdir
  mkdir-run at h = rw (h, mkdir) refl

  pub write_atomic-run :
      (f : Directory F P → Directory F P) (d : Directory F P) (at : String → Option (Directory F P))
      → at path ≡ some d
      → write_atomic path f (disk_of at moved published)
        ≡ (ok tt, disk_of (put path (some (f d)) at) moved published)
  unfolding write_atomic
  write_atomic-run f d at h = rw (h, write_atomic) refl
