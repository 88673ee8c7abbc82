-- ===== src/Supervisor/Report.antt =====
-- `validate_protocol` and `ValidationResult` of tools/validate_supervisor_50x10_v1.py: the checks that the
-- report holds, from the messages of the parts. The message about a root that is no directory and the
-- comparison with the stored report are left out.
mod Valid
mod Tests
use fingerprint_full_matcher.Prelude.{
  ℕ, ◌+◌, ◌*◌, String, Bool, true, false, not, ◌&&◌, ◌||◌, Option, none, some, List, [], ◌∷◌, ◌++◌,
  ◌==◌, length, if◌then◌else◌,
}
use fingerprint_full_matcher.Prelude.Text.{codes}
use fingerprint_full_matcher.Benchmark.Manifest.Paths.{lowered}
use fingerprint_full_matcher.Supervisor.Lock.{is_prefix}

-- What each part appended, in the order of the parts; `integrity` is `none` where it is not checked.
pub record Messages : Type 0 where
  pub selection : List String
  pub manifests : List String
  pub releases : List String
  pub sources : List String
  pub documents : List String
  pub integrity : Option (List String)

pub record Checks : Type 0 where
  pub subjects : ℕ
  pub finger_identities : ℕ
  pub manifests : ℕ
  pub rows_per_manifest : ℕ
  pub total_pairs : ℕ
  pub same_logical_structure_across_releases : Bool
  pub cyclic_impostor_pairing_valid : Bool
  pub self_pairs_valid : Bool
  pub nominal_ppi_valid : Bool
  pub relative_paths_valid : Bool
  pub source_hashes_valid : Bool
  pub package_lock_valid : Bool
  pub matcher_executed : Bool
  pub subjects_reselected : Bool

unfoldable pub is_part : List ℕ → List ℕ → Bool
unfolding is_prefix
is_part cs [] = is_prefix cs []
is_part cs (d ∷ ds) = is_prefix cs (d ∷ ds) || is_part cs ds

-- `any(word in message.lower() for message in messages)`
unfoldable pub any_mentions : String → List String → Bool
unfolding is_part
any_mentions word [] = false
any_mentions word (message ∷ messages) =
    is_part (codes word) (lowered (codes message)) || any_mentions word messages

unfoldable pub no_messages : List String → Bool
no_messages [] = true
no_messages (message ∷ messages) = false

unfoldable pub total : List ℕ → ℕ
total [] = 0
total (n ∷ ns) = n + total ns

unfoldable pub all_500 : List ℕ → Bool
all_500 [] = true
all_500 (n ∷ ns) = n == 500 && all_500 ns

unfoldable pub lock_is_valid : Option (List String) → Bool
unfolding no_messages
lock_is_valid none = false
lock_is_valid (some messages) = no_messages messages

-- `subjects` is how many were selected, `row_counts` the rows of the manifests that were read.
unfoldable pub checks_of : ℕ → List ℕ → Messages → Checks
unfolding any_mentions no_messages total all_500 lock_is_valid
checks_of subjects row_counts messages = record {
  subjects = subjects;
  finger_identities = if subjects == 50 then subjects * 10 else 0;
  manifests = length row_counts;
  rows_per_manifest = if all_500 row_counts && length row_counts == 8 then 500 else 0;
  total_pairs = total row_counts;
  same_logical_structure_across_releases = no_messages messages.releases;
  cyclic_impostor_pairing_valid = not (
      any_mentions "cyclic" messages.manifests
      || any_mentions "impostor subjects" messages.manifests);
  self_pairs_valid = not (
      any_mentions "self pair" messages.manifests
      || any_mentions "self/genuine" messages.manifests);
  nominal_ppi_valid = not (any_mentions "ppi" messages.manifests);
  relative_paths_valid = not (any_mentions "path" messages.manifests);
  source_hashes_valid = no_messages messages.sources;
  package_lock_valid = lock_is_valid messages.integrity;
  matcher_executed = false;
  subjects_reselected = false;
}

unfoldable pub integrity_errors : Option (List String) → List String
integrity_errors none = []
integrity_errors (some messages) = messages

unfoldable pub errors_of : Messages → List String
unfolding integrity_errors
errors_of messages =
    messages.selection
    ++ (messages.manifests
        ++ (messages.releases
            ++ (messages.sources ++ (messages.documents ++ integrity_errors messages.integrity))))

-- `ValidationResult.valid`, over the checks whose name ends with "_valid".
unfoldable pub is_valid : Checks → List String → Bool
unfolding no_messages
is_valid checks errors =
    no_messages errors
    && checks.cyclic_impostor_pairing_valid
    && checks.self_pairs_valid
    && checks.nominal_ppi_valid
    && checks.relative_paths_valid
    && checks.source_hashes_valid
    && checks.package_lock_valid
