-- ===== src/Supervisor/Columns.antt =====
-- The columns of the protocol's manifests, and those of the source manifests that must agree between
-- the releases (`_logical_source_projection` of tools/build_supervisor_50x10_v1.py).
use fingerprint_full_matcher.Prelude.{String, Option, List, [], ◌∷◌}
use fingerprint_full_matcher.Prelude.Result.{Result, ok, ◌>>=◌, Exception}
use fingerprint_full_matcher.Supervisor.{Kind, plain_roll_genuine, Row, item}

abbrev pub manifest_columns : List String
manifest_columns =
    "pair_id" ∷ "comparison_kind" ∷ "dataset_release" ∷ "subject_index_a" ∷ "subject_id_a"
    ∷ "subject_index_b" ∷ "subject_id_b" ∷ "canonical_finger" ∷ "hand" ∷ "finger_name"
    ∷ "capture_type_a" ∷ "capture_type_b" ∷ "nominal_ppi_a" ∷ "nominal_ppi_b" ∷ "relative_path_a"
    ∷ "relative_path_b" ∷ "sha256_a" ∷ "sha256_b" ∷ "source_frgp_a" ∷ "source_frgp_b"
    ∷ "image_status_a" ∷ "image_status_b" ∷ "pair_status" ∷ "source_pair_id" ∷ []

-- `_logical_source_projection`
unfoldable pub logical_fields : Kind → List String
logical_fields plain_roll_genuine =
    "pair_id" ∷ "subject_index" ∷ "subject_id" ∷ "canonical_finger" ∷ "hand" ∷ "finger_name"
    ∷ "plain_source_frgp" ∷ "roll_source_frgp" ∷ "plain_status" ∷ "roll_status" ∷ "pair_status" ∷ []
logical_fields kind =
    "pair_id" ∷ "plain_subject_index" ∷ "plain_subject_id" ∷ "roll_subject_index"
    ∷ "roll_subject_id" ∷ "cyclic_offset" ∷ "canonical_finger" ∷ "hand" ∷ "finger_name"
    ∷ "plain_source_frgp" ∷ "roll_source_frgp" ∷ "plain_status" ∷ "roll_status" ∷ "pair_status" ∷ []

-- `tuple(row[field] for field in fields)`
unfoldable pub items : Row → List String → Result Exception (List (Option String))
items row [] = ok []
items row (field ∷ fields) = do
  value ← item row field
  values ← items row fields
  ok (value ∷ values)

unfoldable pub logical_source_projection : Row → Kind → Result Exception (List (Option String))
unfolding items logical_fields
logical_source_projection row kind = items row (logical_fields kind)
