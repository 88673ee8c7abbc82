-- ===== src/Supervisor/Across.antt =====
-- What tools/validate_supervisor_50x10_v1.py checks across manifests: the logical structure of the two
-- releases, and the correspondence of the built rows with the frozen source rows.
pub mod Read
pub mod Alike
pub mod Projections
pub mod Releases
pub mod Sources
use fingerprint_full_matcher.Prelude.{
  ℕ, suc, ◌+◌, String, ◌<>◌, Bool, true, false, not, ◌&&◌, Option, none, some, List, [], ◌∷◌, ◌++◌,
  map, ◌==◌, length, if◌then◌else◌,
}
use fingerprint_full_matcher.Prelude.Result.{Result, ok, err, ◌>>=◌, Exception}
use fingerprint_full_matcher.Supervisor.{
  Release, sd300b, sd300c, release_name, Kind, plain_self, roll_self, plain_roll_genuine,
  plain_roll_next_subject, kind_name, is_next_subject, comparison_kinds, Row, item, get_cell, same,
  number, shown,
}
use fingerprint_full_matcher.Supervisor.Build.{Manifests, rows_of, same_values}
use fingerprint_full_matcher.Supervisor.Paths.{Parts, Disk, source_path_as_relative}
use fingerprint_full_matcher.Supervisor.Validate.{get_default}

-- `manifests[(release, kind)]`, where it was read.
abbrev pub Found : Type 0
Found = Release → Kind → Option (List Row)

-- `manifests.get((release, kind), [])`
unfoldable pub rows_or_none : Option (List Row) → List Row
rows_or_none none = []
rows_or_none (some rows) = rows

abbrev pub compared_fields : List String
compared_fields =
    "pair_id" ∷ "comparison_kind" ∷ "subject_index_a" ∷ "subject_id_a" ∷ "subject_index_b"
    ∷ "subject_id_b" ∷ "canonical_finger" ∷ "hand" ∷ "finger_name" ∷ "capture_type_a"
    ∷ "capture_type_b" ∷ "source_frgp_a" ∷ "source_frgp_b" ∷ "image_status_a" ∷ "image_status_b"
    ∷ "pair_status" ∷ "source_pair_id" ∷ []

-- `[row.get(field) for field in logical_fields]`
unfoldable pub logical_values : Row → List (Option String)
logical_values row = map (get_cell row) compared_fields

-- The loop over `enumerate(zip(left, right), start=2)`.
unfoldable pub structure_errors : Kind → ℕ → List Row → List Row → List String
unfolding same_values logical_values
structure_errors kind index (row_b ∷ left) (row_c ∷ right) =
    let rest = structure_errors kind (suc index) left right in
    if same_values (logical_values row_b) (logical_values row_c)
    then rest
    else (kind_name kind
        <> (" row " <> (number index <> ": logical structure differs across releases")))
      ∷ rest
structure_errors kind index [] right = []
structure_errors kind index left [] = []

unfoldable pub kind_errors : Kind → List Row → List Row → List String
unfolding structure_errors
kind_errors kind left right =
    if length left == length right
    then structure_errors kind 2 left right
    else (kind_name kind <> ": release row counts differ") ∷ []

cross_errors : Found → List Kind → List String
unfolding kind_errors rows_or_none
cross_errors manifests [] = []
cross_errors manifests (kind ∷ kinds) =
    kind_errors kind (rows_or_none (manifests sd300b kind)) (rows_or_none (manifests sd300c kind))
    ++ cross_errors manifests kinds

unfoldable pub validate_cross_release_structure : Found → List String
unfolding cross_errors
validate_cross_release_structure manifests = cross_errors manifests comparison_kinds

-- The manifests that were built for both releases.
unfoldable pub found : Manifests → Manifests → Found
unfolding rows_of
found manifests_b manifests_c sd300b kind = some (rows_of manifests_b kind)
found manifests_b manifests_c sd300c kind = some (rows_of manifests_c kind)
