-- ===== src/Supervisor/Rows/Made.antt =====
-- What the builder makes of a source row that passed the order check and has what it needs.
use fingerprint_full_matcher.Prelude.{ℕ, String, ◌<>◌, true, false, some, List, ◌≡◌}
use text.Mathlib.TextLemmas.{append_assoc}
use fingerprint_full_matcher.Prelude.Int.{pos}
use fingerprint_full_matcher.Prelude.Digits.{int_of_text-int_text}
use fingerprint_full_matcher.Prelude.Result.{ok}
use fingerprint_full_matcher.Supervisor.{
  Release, plain_self, roll_self, plain_roll_genuine, plain_roll_next_subject, is_next_subject, Row,
  item, number, finger_at, shown, int_of_cell, two_digits,
}
use fingerprint_full_matcher.Supervisor.Order.Accepted.{Has, IsPlaced, IsPairedNext}
use fingerprint_full_matcher.Supervisor.Paths.{Parts, Disk, image_relative}
use fingerprint_full_matcher.Supervisor.Rows.{
  subject_keys, common_output_fields, plain_roll_sides, genuine_row, impostor_row, self_row, plain,
  roll,
}
use fingerprint_full_matcher.Supervisor.Rows.Fields.{Texts, built, common, sides}
use fingerprint_full_matcher.Supervisor.Validate.{
  is_falsy, is_lower_sha256, expected_hand_and_name, expected_types, expected_pair_id, index_b_of,
}

-- The columns of one of the source's two images.
pub record ImageKeys : Type 0 where
  pub path : String
  pub sha256 : String
  pub frgp : String
  pub status : String

abbrev pub plain_keys : ImageKeys
plain_keys = record {
  path = "plain_path";
  sha256 = "plain_sha256";
  frgp = "plain_source_frgp";
  status = "plain_status";
}

abbrev pub roll_keys : ImageKeys
roll_keys = record {
  path = "roll_path";
  sha256 = "roll_sha256";
  frgp = "roll_source_frgp";
  status = "roll_status";
}

-- What a source row says besides what the order check looks at.
pub record HasNames (position : ℕ) (source : Row) : Type 0 where
  pub pair_status : String
  pub pair_id : String
  pub has_hand : Has source "hand" (expected_hand_and_name (finger_at position)).0
  pub has_finger_name : Has source "finger_name" (expected_hand_and_name (finger_at position)).1
  pub has_pair_status : Has source "pair_status" pair_status
  pub has_pair_id : Has source "pair_id" pair_id
  pub filled : is_falsy (some pair_id) ≡ false

-- An image whose path the builder accepts, with a hash and a status.
pub record HasImage (disk : Disk) (dataset_root : Parts) (release : Release) (keys : ImageKeys)
    (source : Row) : Type 0 where
  pub path : String
  pub relative : String
  pub sha256 : String
  pub frgp : String
  pub status : String
  pub has_path : Has source keys.path path
  pub accepted : image_relative disk dataset_root release (some path) ≡ ok relative
  pub has_sha256 : Has source keys.sha256 sha256
  pub lower : is_lower_sha256 (some sha256) ≡ ok true
  pub has_frgp : Has source keys.frgp frgp
  pub has_status : Has source keys.status status
  pub filled : is_falsy (some status) ≡ false

item-Has : (row : Row) (key text : String) → Has row key text → item row key ≡ ok (some text)
item-Has row key text h = rw h

int_of_number : (n : ℕ) → int_of_cell (some (number n)) ≡ ok (pos n)
unfolding int_of_cell
int_of_number n = rw (int_of_text-int_text (pos n))

module _ (disk : Disk) (dataset_root : Parts) (release : Release) (position : ℕ) (source : Row)
    (names : HasNames position source) where
  unfoldable pub texts :
      {keys_a keys_b : ImageKeys}
      → String
      → String
      → HasImage disk dataset_root release keys_a source
      → HasImage disk dataset_root release keys_b source
      → Texts
  texts subject_a subject_b a b = record {
    subject_a = subject_a;
    subject_b = subject_b;
    pair_status = names.pair_status;
    source_pair_id = names.pair_id;
    relative_a = a.relative;
    relative_b = b.relative;
    sha256_a = a.sha256;
    sha256_b = b.sha256;
    frgp_a = a.frgp;
    frgp_b = b.frgp;
    status_a = a.status;
    status_b = b.status;
  }

  module _ (selected : List String) (subject : String)
      (placed : IsPlaced selected release "subject_index" "subject_id" subject position source)
      (a : HasImage disk dataset_root release plain_keys source)
      (b : HasImage disk dataset_root release roll_keys source) where
    pub genuine_row-built :
        genuine_row disk dataset_root release source
        ≡ ok (built release plain_roll_genuine position (texts subject subject a b))
    unfolding genuine_row common_output_fields subject_keys plain_roll_sides built common sides
        texts expected_types expected_pair_id index_b_of shown is_next_subject
    genuine_row-built = rw (
      placed.index,
      placed.id,
      placed.finger,
      names.has_hand,
      names.has_finger_name,
      names.has_pair_status,
      names.has_pair_id,
      int_of_number (finger_at position),
      a.has_path,
      a.accepted,
      b.has_path,
      b.accepted,
      a.has_sha256,
      b.has_sha256,
      a.has_frgp,
      b.has_frgp,
      a.has_status,
      b.has_status,
    )

    pub plain_self-built :
        self_row disk dataset_root release source plain
        ≡ ok (built release plain_self position (texts subject subject a a))
    unfolding self_row common_output_fields subject_keys built common sides texts expected_types
        expected_pair_id index_b_of shown is_next_subject
    plain_self-built = rw (
      placed.index,
      placed.id,
      placed.finger,
      names.has_hand,
      names.has_finger_name,
      names.has_pair_status,
      names.has_pair_id,
      int_of_number (finger_at position),
      a.has_path,
      a.accepted,
      a.has_sha256,
      a.has_frgp,
      a.has_status,
      append_assoc "PSELF" "_" (subject <> ("_F" <> two_digits (pos (finger_at position)))),
    )

    pub roll_self-built :
        self_row disk dataset_root release source roll
        ≡ ok (built release roll_self position (texts subject subject b b))
    unfolding self_row common_output_fields subject_keys built common sides texts expected_types
        expected_pair_id index_b_of shown is_next_subject
    roll_self-built = rw (
      placed.index,
      placed.id,
      placed.finger,
      names.has_hand,
      names.has_finger_name,
      names.has_pair_status,
      names.has_pair_id,
      int_of_number (finger_at position),
      b.has_path,
      b.accepted,
      b.has_sha256,
      b.has_frgp,
      b.has_status,
      append_assoc "RSELF" "_" (subject <> ("_F" <> two_digits (pos (finger_at position)))),
    )

  module _ (selected : List String) (subject next : String)
      (placed : IsPlaced selected release "plain_subject_index" "plain_subject_id" subject position
        source)
      (paired : IsPairedNext selected subject next position source)
      (a : HasImage disk dataset_root release plain_keys source)
      (b : HasImage disk dataset_root release roll_keys source) where
    pub impostor_row-built :
        impostor_row disk dataset_root release source
        ≡ ok (built release plain_roll_next_subject position (texts subject next a b))
    unfolding impostor_row common_output_fields subject_keys plain_roll_sides built common sides
        texts expected_types expected_pair_id index_b_of shown is_next_subject
    impostor_row-built = rw (
      placed.index,
      placed.id,
      paired.index,
      paired.id,
      placed.finger,
      names.has_hand,
      names.has_finger_name,
      names.has_pair_status,
      names.has_pair_id,
      int_of_number (finger_at position),
      a.has_path,
      a.accepted,
      b.has_path,
      b.accepted,
      a.has_sha256,
      b.has_sha256,
      a.has_frgp,
      b.has_frgp,
      a.has_status,
      b.has_status,
    )
