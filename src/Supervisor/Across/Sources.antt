-- ===== src/Supervisor/Across/Sources.antt =====
-- `_validate_source_correspondence` of tools/validate_supervisor_50x10_v1.py: each built row against the
-- frozen source row that it names. A source manifest is `none` where its file is missing.
pub mod Fields
pub mod Accepted
use fingerprint_full_matcher.Prelude.{
  String, ◌<>◌, Bool, true, false, not, ◌&&◌, Option, none, some, List, [], ◌∷◌, ◌++◌,
  if◌then◌else◌,
}
use fingerprint_full_matcher.Prelude.Result.{Result, ok, err, ◌>>=◌, collect, Exception, type_error}
use fingerprint_full_matcher.Supervisor.{
  Release, release_name, releases, Kind, plain_self, roll_self, plain_roll_genuine,
  plain_roll_next_subject, kind_name, is_next_subject, comparison_kinds, Row, item, get_cell, same,
  shown,
}
use fingerprint_full_matcher.Supervisor.Across.{Found, rows_or_none}
use fingerprint_full_matcher.Supervisor.Paths.{Parts, Disk, source_path_as_relative}
use fingerprint_full_matcher.Supervisor.Rows.{SubjectKeys, subject_keys}
use fingerprint_full_matcher.Supervisor.Validate.{get_default, fails, messages}

-- A dictionary of expected fields.
abbrev pub Fields : Type 0
Fields = List (String × Option String)

-- A dictionary from ids to rows: of two rows with one id the later counts.
abbrev pub ById : Type 0
ById = List (Option String × Row)

found_id : Option String → ById → Option Row → Option Row
found_id id [] last = last
found_id id ((other, row) ∷ rows) last = found_id id rows (if same id other then some row else last)

-- `by_id.get(id)`
unfoldable pub get_by_id : ById → Option String → Option Row
unfolding found_id
get_by_id rows id = found_id id rows none

-- `{row["pair_id"]: row for row in source}`
unfoldable pub by_id : List Row → Result Exception ById
by_id source = collect (λ row. do id ← item row "pair_id"; ok (id, row)) source

-- The columns of the source's images that the two sides come from.
pub record SideKeys : Type 0 where
  pub path : String
  pub sha256 : String
  pub frgp : String
  pub status : String

abbrev pub plain_side : SideKeys
plain_side = record {
  path = "plain_path";
  sha256 = "plain_sha256";
  frgp = "plain_source_frgp";
  status = "plain_status";
}

abbrev pub roll_side : SideKeys
roll_side = record {
  path = "roll_path";
  sha256 = "roll_sha256";
  frgp = "roll_source_frgp";
  status = "roll_status";
}

unfoldable pub side_keys : Kind → SideKeys × SideKeys
side_keys plain_self = (plain_side, plain_side)
side_keys roll_self = (roll_side, roll_side)
side_keys kind = (plain_side, roll_side)

module _ (disk : Disk) (dataset_root : Parts) (release : Release) (kind : Kind) where
  subject_fields : Row → Result Exception Fields
  unfolding subject_keys
  subject_fields source = do
    index_a ← item source (subject_keys kind).index_a
    id_a ← item source (subject_keys kind).id_a
    index_b ← item source (subject_keys kind).index_b
    id_b ← item source (subject_keys kind).id_b
    ok (
        ("subject_index_a", index_a)
        ∷ ("subject_id_a", id_a)
        ∷ ("subject_index_b", index_b)
        ∷ ("subject_id_b", id_b)
        ∷ [])

  side_fields : Row → Result Exception Fields
  unfolding side_keys source_path_as_relative
  side_fields source = do
    path_a ← item source (side_keys kind).0.path
    relative_a ← source_path_as_relative disk dataset_root release path_a
    path_b ← item source (side_keys kind).1.path
    relative_b ← source_path_as_relative disk dataset_root release path_b
    sha256_a ← item source (side_keys kind).0.sha256
    sha256_b ← item source (side_keys kind).1.sha256
    frgp_a ← item source (side_keys kind).0.frgp
    frgp_b ← item source (side_keys kind).1.frgp
    status_a ← item source (side_keys kind).0.status
    status_b ← item source (side_keys kind).1.status
    ok (
        ("relative_path_a", some relative_a)
        ∷ ("relative_path_b", some relative_b)
        ∷ ("sha256_a", sha256_a)
        ∷ ("sha256_b", sha256_b)
        ∷ ("source_frgp_a", frgp_a)
        ∷ ("source_frgp_b", frgp_b)
        ∷ ("image_status_a", status_a)
        ∷ ("image_status_b", status_b)
        ∷ [])

  name_fields : Row → Result Exception Fields
  name_fields source = do
    canonical_finger ← item source "canonical_finger"
    hand ← item source "hand"
    finger_name ← item source "finger_name"
    ok (("canonical_finger", canonical_finger) ∷ ("hand", hand) ∷ ("finger_name", finger_name) ∷ [])

  -- The fields that a row must have, in the order of the dictionary.
  unfoldable pub expected_fields : Row → Result Exception Fields
  unfolding subject_fields side_fields name_fields
  expected_fields source = do
    subjects ← subject_fields source
    middle ←
        if is_next_subject kind
        then (do
          sides ← side_fields source
          pair_status ← item source "pair_status"
          ok (sides ++ (("pair_status", pair_status) ∷ [])))
        else (do
          pair_status ← item source "pair_status"
          sides ← side_fields source
          ok (("pair_status", pair_status) ∷ sides))
    names ← name_fields source
    ok (subjects ++ (middle ++ names))

  field_errors : String → Row → Fields → List String
  field_errors context row [] = []
  field_errors context row ((field, expected) ∷ fields) =
      let rest = field_errors context row fields in
      if same (get_cell row field) expected
      then rest
      else (context <> (": " <> (field <> " differs from frozen source"))) ∷ rest

  named_errors : String → Row → Option Row → Result Exception (List String)
  unfolding field_errors expected_fields
  named_errors context row none =
      ok ((context <> ": source_pair_id not found in frozen base manifest") ∷ [])
  named_errors context row (some source) = do
    expected ← expected_fields source
    ok (field_errors context row expected)

  unfoldable pub source_row_errors : ById → Row → Result Exception (List String)
  unfolding named_errors get_by_id get_default
  source_row_errors sources row =
      named_errors
        (release_name release
          <> ("/" <> (kind_name kind <> ("/" <> shown (get_default row "pair_id")))))
        row (get_by_id sources (get_default row "source_pair_id"))

  unfoldable pub source_rows_errors : ById → List Row → Result Exception (List String)
  unfolding source_row_errors
  source_rows_errors sources [] = ok []
  source_rows_errors sources (row ∷ rows) = do
    errors ← source_row_errors sources row
    rest ← source_rows_errors sources rows
    ok (errors ++ rest)

module _ (disk : Disk) (dataset_root : Parts) (manifests : Found) where
  kinds_errors : Release → ById → ById → List Kind → Result Exception (List String)
  unfolding rows_or_none source_rows_errors
  kinds_errors release genuine impostor [] = ok []
  kinds_errors release genuine impostor (kind ∷ kinds) = do
    errors ←
        source_rows_errors disk dataset_root release kind
          (if is_next_subject kind then impostor else genuine)
          (rows_or_none (manifests release kind))
    rest ← kinds_errors release genuine impostor kinds
    ok (errors ++ rest)

  release_errors : Release → Option (List Row) → Option (List Row) → Result Exception (List String)
  unfolding kinds_errors by_id
  release_errors release (some genuine_source) (some impostor_source) = do
    genuine ← by_id genuine_source
    impostor ← by_id impostor_source
    kinds_errors release genuine impostor comparison_kinds
  release_errors release genuine impostor =
      ok ((release_name release <> ": external base manifests are missing") ∷ [])

  releases_errors :
      (Release → Kind → Option (List Row)) → List Release → Result Exception (List String)
  unfolding release_errors
  releases_errors frozen [] = ok []
  releases_errors frozen (release ∷ rest) = do
    errors ←
        release_errors release (frozen release plain_roll_genuine)
          (frozen release plain_roll_next_subject)
    others ← releases_errors frozen rest
    ok (errors ++ others)

  unfoldable pub validate_source_correspondence :
      (Release → Kind → Option (List Row)) → Result Exception (List String)
  unfolding releases_errors
  validate_source_correspondence frozen = releases_errors frozen releases
