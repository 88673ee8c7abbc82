-- ===== src/Supervisor/Rows.antt =====
-- The rows of the four manifests, as tools/build_supervisor_50x10_v1.py makes them of source rows, and
-- as they are read from the files that `write_csv` writes.
pub mod Fields
pub mod Made
use fingerprint_full_matcher.Prelude.{
  String, ◌<>◌, Bool, true, false, Option, none, some, List, [], ◌∷◌, ◌++◌, map, if◌then◌else◌,
}
use fingerprint_full_matcher.Prelude.Int.{ℤ}
use fingerprint_full_matcher.Prelude.Dict.{lookup}
use fingerprint_full_matcher.Prelude.Result.{Result, ok, err, ◌>>=◌, Exception}
use fingerprint_full_matcher.Supervisor.{
  Release, release_name, ppi_text, Kind, plain_self, roll_self, plain_roll_genuine,
  plain_roll_next_subject, kind_name, is_next_subject, Row, item, get_cell, shown, two_digits,
  int_of_cell,
}
use fingerprint_full_matcher.Supervisor.Columns.{manifest_columns}
use fingerprint_full_matcher.Supervisor.Paths.{Parts, Disk, image_relative}

-- The columns of a source row that name the two subjects.
pub record SubjectKeys : Type 0 where
  pub index_a : String
  pub id_a : String
  pub index_b : String
  pub id_b : String

unfoldable pub subject_keys : Kind → SubjectKeys
subject_keys plain_roll_next_subject = record {
  index_a = "plain_subject_index";
  id_a = "plain_subject_id";
  index_b = "roll_subject_index";
  id_b = "roll_subject_id";
}
subject_keys kind = record {
  index_a = "subject_index";
  id_a = "subject_id";
  index_b = "subject_index";
  id_b = "subject_id";
}

-- The values that `_common_output_fields` reads.
pub record Common : Type 0 where
  pub subject_index_a : Option String
  pub subject_id_a : Option String
  pub subject_index_b : Option String
  pub subject_id_b : Option String
  pub canonical_finger : Option String
  pub hand : Option String
  pub finger_name : Option String
  pub pair_status : Option String
  pub source_pair_id : Option String

unfoldable pub common_row : Kind → Release → Common → Row
common_row kind release c =
    ("comparison_kind", some (kind_name kind))
    ∷ ("dataset_release", some (release_name release))
    ∷ ("subject_index_a", c.subject_index_a)
    ∷ ("subject_id_a", c.subject_id_a)
    ∷ ("subject_index_b", c.subject_index_b)
    ∷ ("subject_id_b", c.subject_id_b)
    ∷ ("canonical_finger", c.canonical_finger)
    ∷ ("hand", c.hand)
    ∷ ("finger_name", c.finger_name)
    ∷ ("nominal_ppi_a", some (ppi_text release))
    ∷ ("nominal_ppi_b", some (ppi_text release))
    ∷ ("pair_status", c.pair_status)
    ∷ ("source_pair_id", c.source_pair_id)
    ∷ []

unfoldable pub common_output_fields : Row → Kind → Release → Result Exception Row
unfolding subject_keys common_row
common_output_fields source kind release = do
  subject_index_a ← item source (subject_keys kind).index_a
  subject_id_a ← item source (subject_keys kind).id_a
  subject_index_b ← item source (subject_keys kind).index_b
  subject_id_b ← item source (subject_keys kind).id_b
  canonical_finger ← item source "canonical_finger"
  hand ← item source "hand"
  finger_name ← item source "finger_name"
  pair_status ← item source "pair_status"
  source_pair_id ← item source "pair_id"
  ok (
      common_row kind release (record {
        subject_index_a = subject_index_a;
        subject_id_a = subject_id_a;
        subject_index_b = subject_index_b;
        subject_id_b = subject_id_b;
        canonical_finger = canonical_finger;
        hand = hand;
        finger_name = finger_name;
        pair_status = pair_status;
        source_pair_id = source_pair_id;
      }))

-- What `row.update(…)` adds: none of these keys is in the common fields.
pub record Sides : Type 0 where
  pub pair_id : String
  pub capture_type_a : String
  pub capture_type_b : String
  pub relative_path_a : String
  pub relative_path_b : String
  pub sha256_a : Option String
  pub sha256_b : Option String
  pub source_frgp_a : Option String
  pub source_frgp_b : Option String
  pub image_status_a : Option String
  pub image_status_b : Option String

unfoldable pub update : Row → Sides → Row
update row sides =
    row
    ++ (("pair_id", some sides.pair_id)
        ∷ ("capture_type_a", some sides.capture_type_a)
        ∷ ("capture_type_b", some sides.capture_type_b)
        ∷ ("relative_path_a", some sides.relative_path_a)
        ∷ ("relative_path_b", some sides.relative_path_b)
        ∷ ("sha256_a", sides.sha256_a)
        ∷ ("sha256_b", sides.sha256_b)
        ∷ ("source_frgp_a", sides.source_frgp_a)
        ∷ ("source_frgp_b", sides.source_frgp_b)
        ∷ ("image_status_a", sides.image_status_a)
        ∷ ("image_status_b", sides.image_status_b)
        ∷ [])

module _ (disk : Disk) (dataset_root : Parts) (release : Release) (source : Row) where
  -- The sides of a pair of a plain and a rolled image.
  unfoldable pub plain_roll_sides : String → Result Exception Sides
  plain_roll_sides pair_id = do
    plain_path ← item source "plain_path"
    relative_path_a ← image_relative disk dataset_root release plain_path
    roll_path ← item source "roll_path"
    relative_path_b ← image_relative disk dataset_root release roll_path
    sha256_a ← item source "plain_sha256"
    sha256_b ← item source "roll_sha256"
    source_frgp_a ← item source "plain_source_frgp"
    source_frgp_b ← item source "roll_source_frgp"
    image_status_a ← item source "plain_status"
    image_status_b ← item source "roll_status"
    ok (record {
      pair_id = pair_id;
      capture_type_a = "PLAIN";
      capture_type_b = "ROLL";
      relative_path_a = relative_path_a;
      relative_path_b = relative_path_b;
      sha256_a = sha256_a;
      sha256_b = sha256_b;
      source_frgp_a = source_frgp_a;
      source_frgp_b = source_frgp_b;
      image_status_a = image_status_a;
      image_status_b = image_status_b;
    })

  unfoldable pub genuine_row : Result Exception Row
  unfolding plain_roll_sides common_output_fields update
  genuine_row = do
    row ← common_output_fields source plain_roll_genuine release
    canonical_finger ← item source "canonical_finger"
    finger ← int_of_cell canonical_finger
    subject_id ← item source "subject_id"
    sides ← plain_roll_sides ("GEN_" <> (shown subject_id <> ("_F" <> two_digits finger)))
    ok (update row sides)

  unfoldable pub impostor_row : Result Exception Row
  unfolding plain_roll_sides common_output_fields update
  impostor_row = do
    row ← common_output_fields source plain_roll_next_subject release
    canonical_finger ← item source "canonical_finger"
    finger ← int_of_cell canonical_finger
    plain_id ← item source "plain_subject_id"
    roll_id ← item source "roll_subject_id"
    sides ←
        plain_roll_sides
          ("IMP_" <> (shown plain_id <> ("_" <> (shown roll_id <> ("_F" <> two_digits finger)))))
    ok (update row sides)

-- What `_self_row` makes of `capture`.
pub record Capture : Type 0 where
  pub kind : Kind
  pub prefix : String
  pub name : String
  pub path_key : String
  pub sha256_key : String
  pub frgp_key : String
  pub status_key : String

abbrev pub plain : Capture
plain = record {
  kind = plain_self;
  prefix = "PSELF";
  name = "PLAIN";
  path_key = "plain_path";
  sha256_key = "plain_sha256";
  frgp_key = "plain_source_frgp";
  status_key = "plain_status";
}

abbrev pub roll : Capture
roll = record {
  kind = roll_self;
  prefix = "RSELF";
  name = "ROLL";
  path_key = "roll_path";
  sha256_key = "roll_sha256";
  frgp_key = "roll_source_frgp";
  status_key = "roll_status";
}

module _ (disk : Disk) (dataset_root : Parts) (release : Release) where
  unfoldable pub self_row : Row → Capture → Result Exception Row
  unfolding common_output_fields update
  self_row source capture = do
    row ← common_output_fields source capture.kind release
    canonical_finger ← item source "canonical_finger"
    finger ← int_of_cell canonical_finger
    path ← item source capture.path_key
    relative ← image_relative disk dataset_root release path
    digest ← item source capture.sha256_key
    frgp ← item source capture.frgp_key
    status ← item source capture.status_key
    subject_id ← item source "subject_id"
    ok (
        update row (record {
          pair_id = capture.prefix <> ("_" <> (shown subject_id <> ("_F" <> two_digits finger)));
          capture_type_a = capture.name;
          capture_type_b = capture.name;
          relative_path_a = relative;
          relative_path_b = relative;
          sha256_a = digest;
          sha256_b = digest;
          source_frgp_a = frgp;
          source_frgp_b = frgp;
          image_status_a = status;
          image_status_b = status;
        }))

-- `write_csv` writes `None` as the empty text; the row is what is read from the file.
written_cell : Option String → Option String
written_cell none = some ""
written_cell (some s) = some s

unfoldable pub written : Row → Row
unfolding written_cell
written row = map (λ column. (column, written_cell (get_cell row column))) manifest_columns
