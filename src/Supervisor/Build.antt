-- ===== src/Supervisor/Build.antt =====
-- `_build_manifests` of tools/build_supervisor_50x10_v1.py. `read_csv` of a source manifest is a
-- parameter; a manifest is the rows that are read from the file that `write_csv` writes. The
-- directories that are made for them, in a candidate that is new, are left out.
pub mod Manifest
pub mod Accepted
use fingerprint_full_matcher.Prelude.{
  Bool, true, false, ◌&&◌, Option, none, some, List, [], ◌∷◌, map,
}
use fingerprint_full_matcher.Prelude.{String, ◌<>◌}
use fingerprint_full_matcher.Prelude.Result.{
  Result, ok, err, ◌>>=◌, ◌>>◌, require, collect, Exception, value_error,
}
use fingerprint_full_matcher.Supervisor.{
  Release, sd300b, sd300c, Kind, plain_self, roll_self, plain_roll_genuine, plain_roll_next_subject,
  kind_name, Row, same,
}
use fingerprint_full_matcher.Supervisor.Columns.{logical_source_projection}
use fingerprint_full_matcher.Supervisor.Order.{validate_source_manifest_order}
use fingerprint_full_matcher.Supervisor.Paths.{Parts, Disk}
use fingerprint_full_matcher.Supervisor.Rows.{
  genuine_row, impostor_row, self_row, plain, roll, written,
}

-- The four manifests of a release.
pub record Manifests : Type 0 where
  pub of_plain_self : List Row
  pub of_roll_self : List Row
  pub of_genuine : List Row
  pub of_next_subject : List Row

unfoldable pub rows_of : Manifests → Kind → List Row
rows_of m plain_self = m.of_plain_self
rows_of m roll_self = m.of_roll_self
rows_of m plain_roll_genuine = m.of_genuine
rows_of m plain_roll_next_subject = m.of_next_subject

-- `==` between lists.
unfoldable pub same_values : List (Option String) → List (Option String) → Bool
unfolding same
same_values [] [] = true
same_values (a ∷ s) (b ∷ t) = same a b && same_values s t
same_values _ _ = false

unfoldable pub same_projections : List (List (Option String)) → List (List (Option String)) → Bool
unfolding same_values
same_projections [] [] = true
same_projections (a ∷ s) (b ∷ t) = same_values a b && same_projections s t
same_projections _ _ = false

-- Whether the releases have the same logical structure.
unfoldable pub require_same_structure : Kind → List Row → List Row → Result Exception (Unit {0})
unfolding logical_source_projection same_projections
require_same_structure kind rows_b rows_c = do
  left ← collect (λ row. logical_source_projection row kind) rows_b
  right ← collect (λ row. logical_source_projection row kind) rows_c
  require (same_projections left right)
      (value_error ("frozen " <> (kind_name kind <> " logical structure differs between releases")))

module _ (disk : Disk) (dataset_root : Parts) where
  unfoldable pub release_manifests : Release → List Row → List Row → Result Exception Manifests
  unfolding self_row genuine_row impostor_row written
  release_manifests release genuine_source impostor_source = do
    plain_rows ← collect (λ row. self_row disk dataset_root release row plain) genuine_source
    roll_rows ← collect (λ row. self_row disk dataset_root release row roll) genuine_source
    genuine_rows ← collect (genuine_row disk dataset_root release) genuine_source
    impostor_rows ← collect (impostor_row disk dataset_root release) impostor_source
    ok (record {
      of_plain_self = map written plain_rows;
      of_roll_self = map written roll_rows;
      of_genuine = map written genuine_rows;
      of_next_subject = map written impostor_rows;
    })

  module _ (read_source : Release → Kind → Result Exception (List Row))
      (selected : List String) where
    unfoldable pub checked_source : Release → Kind → Result Exception (List Row)
    unfolding validate_source_manifest_order
    checked_source release kind = do
      rows ← read_source release kind
      validate_source_manifest_order rows selected release kind
      ok rows

    unfoldable pub build_manifests : Result Exception (Manifests × Manifests)
    unfolding checked_source require_same_structure release_manifests
    build_manifests = do
      genuine_b ← checked_source sd300b plain_roll_genuine
      genuine_c ← checked_source sd300c plain_roll_genuine
      impostor_b ← checked_source sd300b plain_roll_next_subject
      impostor_c ← checked_source sd300c plain_roll_next_subject
      require_same_structure plain_roll_genuine genuine_b genuine_c
      require_same_structure plain_roll_next_subject impostor_b impostor_c
      manifests_b ← release_manifests sd300b genuine_b impostor_b
      manifests_c ← release_manifests sd300c genuine_c impostor_c
      ok (manifests_b, manifests_c)
