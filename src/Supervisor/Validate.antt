-- ===== src/Supervisor/Validate.antt =====
-- `_validate_manifest_rows` of tools/validate_supervisor_50x10_v1.py. The list of errors that the code
-- appends to is what each function returns, in the order of the appends.
pub mod Checks
pub mod Accepted
pub mod OneRow
pub mod Rows
use fingerprint_full_matcher.Prelude.{
  ℕ, suc, ◌+◌, ◌-◌, String, ◌<>◌, Bool, true, false, not, ◌&&◌, ◌||◌, Option, none, some, List, [],
  ◌∷◌, ◌++◌, map, ◌==◌, leb, ltb, length, get_elem?, str_eq, if◌then◌else◌,
}
use fingerprint_full_matcher.Prelude.Int.{ℤ, pos}
use fingerprint_full_matcher.Prelude.Text.{codes, in_range}
use fingerprint_full_matcher.Prelude.Dict.{lookup}
use fingerprint_full_matcher.Prelude.Result.{
  Result, ok, err, ◌>>=◌, Exception, type_error, subscript,
}
use fingerprint_full_matcher.Supervisor.{
  Release, release_name, ppi_text, Kind, plain_self, roll_self, plain_roll_genuine,
  plain_roll_next_subject, kind_name, is_next_subject, Row, get_cell, same, number, subject_at,
  finger_at, next_subject, shown, two_digits,
}
use fingerprint_full_matcher.Supervisor.Order.{differs, selected_at}
use fingerprint_full_matcher.Supervisor.Paths.{Parts, Disk, validate_dataset_path}

-- `if test: errors.append(message)`
abbrev pub fails : Bool → String → Option String
fails test message = if test then some message else none

-- The messages of the checks that fail, in their order.
unfoldable pub messages : List (Option String) → List String
messages [] = []
messages (none ∷ checks) = messages checks
messages (some message ∷ checks) = message ∷ messages checks

default : Option (Option String) → Option String
default none = some ""
default (some value) = value

-- `row.get(key, "")`
unfoldable pub get_default : Row → String → Option String
unfolding default
get_default row key = default (lookup key row)

-- `not value`
unfoldable pub is_falsy : Option String → Bool
is_falsy none = true
is_falsy (some s) = str_eq s ""

all_hex : List ℕ → Bool
all_hex [] = true
all_hex (c ∷ cs) = (in_range 48 57 c || in_range 97 102 c) && all_hex cs

unfoldable pub is_lower_sha256 : Option String → Result Exception Bool
unfolding all_hex
is_lower_sha256 none = err (type_error "object of type 'NoneType' has no len()")
is_lower_sha256 (some value) = ok (length (codes value) == 64 && all_hex (codes value))

unfoldable pub finger_names : ℕ → String
finger_names n =
    if n == 0
    then "thumb"
    else if n == 1
    then "index"
    else if n == 2
    then "middle"
    else if n == 3
    then "ring"
    else "little"

-- `_expected_hand_and_name`, for a finger from 1 to 10.
unfoldable pub expected_hand_and_name : ℕ → String × String
unfolding finger_names
expected_hand_and_name finger =
    if leb 1 finger && leb finger 5
    then ("right", finger_names (finger - 1))
    else ("left", finger_names (finger - 6))

-- `subject_a` and `subject_b` are what `f"{…}"` makes of them.
unfoldable pub expected_pair_id : Kind → String → String → ℤ → String
expected_pair_id plain_self subject_a subject_b finger =
    "PSELF_" <> (subject_a <> ("_F" <> two_digits finger))
expected_pair_id roll_self subject_a subject_b finger =
    "RSELF_" <> (subject_a <> ("_F" <> two_digits finger))
expected_pair_id plain_roll_genuine subject_a subject_b finger =
    "GEN_" <> (subject_a <> ("_F" <> two_digits finger))
expected_pair_id plain_roll_next_subject subject_a subject_b finger =
    "IMP_" <> (subject_a <> ("_" <> (subject_b <> ("_F" <> two_digits finger))))

unfoldable pub manifest_filename : Kind → String
unfolding kind_name
manifest_filename kind = kind_name kind <> ".csv"

unfoldable pub expected_types : Kind → String × String
expected_types plain_self = ("PLAIN", "PLAIN")
expected_types roll_self = ("ROLL", "ROLL")
expected_types kind = ("PLAIN", "ROLL")

unfoldable pub is_self : Kind → Bool
is_self plain_self = true
is_self roll_self = true
is_self kind = false

-- Whether `pair_id` is in the set of those that were seen.
unfoldable pub is_seen : Option String → List (Option String) → Bool
unfolding same
is_seen pair_id [] = false
is_seen pair_id (other ∷ seen) = same pair_id other || is_seen pair_id seen

unfoldable pub context_of : Release → Kind → ℕ → String
unfolding release_name manifest_filename
context_of release kind position =
    release_name release <> ("/" <> (manifest_filename kind <> (" row " <> number (position + 2))))

-- `subject_index_b`
unfoldable pub index_b_of : Kind → ℕ → ℕ
unfolding next_subject
index_b_of kind index = if is_next_subject kind then next_subject index else index

-- `selected and …`, where a missing subject raises.
unfoldable pub is_other_subject : List String → ℕ → Option String → Result Exception Bool
is_other_subject [] index value = ok false
is_other_subject (s ∷ selected) index value = do
  expected ← selected_at (s ∷ selected) index
  ok (differs value expected)

abbrev pub self_suffixes : List String
self_suffixes =
    "subject_index" ∷ "subject_id" ∷ "relative_path" ∷ "sha256" ∷ "source_frgp" ∷ "image_status"
    ∷ []

module _ (disk : Disk) (dataset_root : Parts) (release : Release) (kind : Kind)
    (selected : List String) where
  -- The checks up to the pairing; `wrong_a` is that of the first subject.
  pub identity_checks : ℕ → Row → Bool → List (Option String)
  unfolding expected_hand_and_name
  identity_checks position row wrong_a =
      let context = context_of release kind position in
      let expected = expected_hand_and_name (finger_at position) in
      fails (differs (get_cell row "comparison_kind") (kind_name kind))
        (context <> ": comparison_kind mismatch")
      ∷ fails (differs (get_cell row "dataset_release") (release_name release))
          (context <> ": dataset_release mismatch")
      ∷ fails (differs (get_cell row "subject_index_a") (number (subject_at position)))
          (context <> ": subject_index_a/order mismatch")
      ∷ fails wrong_a (context <> ": subject_id_a/order mismatch")
      ∷ fails (differs (get_cell row "canonical_finger") (number (finger_at position)))
          (context <> ": canonical finger/order mismatch")
      ∷ fails
          (differs (get_cell row "hand") expected.0
            || differs (get_cell row "finger_name") expected.1)
          (context <> ": hand/finger_name mismatch")
      ∷ []

  pub pairing_checks : ℕ → Row → Bool → List (Option String)
  unfolding expected_types index_b_of
  pairing_checks position row wrong_b =
      let context = context_of release kind position in
      let equal = same (get_cell row "subject_id_a") (get_cell row "subject_id_b") in
      let types = expected_types kind in
      fails (is_next_subject kind && equal) (context <> ": impostor subjects are equal")
      ∷ fails (not (is_next_subject kind) && not equal)
          (context <> ": self/genuine subjects differ")
      ∷ fails
          (differs (get_cell row "subject_index_b")
            (number (index_b_of kind (subject_at position))))
          (context <> ": subject_index_b/cyclic mapping mismatch")
      ∷ fails wrong_b (context <> ": subject_id_b/cyclic mapping mismatch")
      ∷ fails
          (differs (get_cell row "capture_type_a") types.0
            || differs (get_cell row "capture_type_b") types.1)
          (context <> ": capture types mismatch")
      ∷ []

  pub content_checks : ℕ → Row → List (Option String) → List (Option String)
  unfolding expected_pair_id is_seen is_falsy get_default
  content_checks position row seen =
      let context = context_of release kind position in
      let expected_id =
        expected_pair_id kind (shown (get_default row "subject_id_a"))
          (shown (get_default row "subject_id_b")) (pos (finger_at position)) in
      fails
        (differs (get_cell row "nominal_ppi_a") (ppi_text release)
          || differs (get_cell row "nominal_ppi_b") (ppi_text release))
        (context <> ": nominal PPI mismatch")
      ∷ fails
          (same (some "5080") (get_default row "nominal_ppi_a")
            || same (some "5080") (get_default row "nominal_ppi_b"))
          (context <> ": forbidden PNG metadata PPI appears")
      ∷ fails (differs (get_cell row "pair_id") expected_id) (context <> ": pair_id mismatch")
      ∷ fails (is_seen (get_default row "pair_id") seen) (context <> ": duplicate pair_id")
      ∷ fails (is_falsy (get_cell row "source_pair_id")) (context <> ": source_pair_id is empty")
      ∷ []

  -- The checks of one side; `digest` tells whether its hash is a lowercase SHA-256.
  pub side_checks : ℕ → Row → String → Bool → List (Option String)
  unfolding is_falsy get_default
  side_checks position row side digest =
      let context = context_of release kind position in
      fails (not digest) (context <> (": sha256_" <> (side <> " is invalid")))
      ∷ fails (is_falsy (get_cell row ("image_status_" <> side)))
          (context <> (": image_status_" <> (side <> " is empty")))
      ∷ validate_dataset_path disk dataset_root release (get_default row ("relative_path_" <> side))
          (context <> (" side " <> side))
      ∷ []

  pub self_check : ℕ → Row → String → Option String
  unfolding is_self
  self_check position row suffix =
      fails
        (is_self kind && not (same (get_cell row (suffix <> "_a")) (get_cell row (suffix <> "_b"))))
        (context_of release kind position <> (": self pair differs in " <> suffix))

  pub self_checks : ℕ → Row → List (Option String)
  unfolding self_check
  self_checks position row = map (self_check position row) self_suffixes

  pub row_errors : ℕ → List (Option String) → Row → Bool → Bool → Bool → Bool → List String
  unfolding identity_checks pairing_checks content_checks side_checks self_checks messages
  row_errors position seen row wrong_a wrong_b digest_a digest_b =
      messages (identity_checks position row wrong_a)
      ++ (messages (pairing_checks position row wrong_b)
          ++ (messages (content_checks position row seen)
              ++ (messages (side_checks position row "a" digest_a)
                  ++ (messages (side_checks position row "b" digest_b)
                      ++ messages (self_checks position row)))))

  -- The body of the loop.
  unfoldable pub validate_row : ℕ → List (Option String) → Row → Result Exception (List String)
  unfolding row_errors is_other_subject is_lower_sha256 get_default index_b_of
  validate_row position seen row = do
    wrong_a ← is_other_subject selected (subject_at position) (get_cell row "subject_id_a")
    wrong_b ←
        is_other_subject selected (index_b_of kind (subject_at position))
          (get_cell row "subject_id_b")
    digest_a ← is_lower_sha256 (get_default row "sha256_a")
    digest_b ← is_lower_sha256 (get_default row "sha256_b")
    ok (row_errors position seen row wrong_a wrong_b digest_a digest_b)

  pub rows_from : ℕ → List (Option String) → List Row → Result Exception (List String)
  unfolding validate_row
  rows_from position seen [] = ok []
  rows_from position seen (row ∷ rows) = do
    errors ← validate_row position seen row
    rest ← rows_from (suc position) (get_default row "pair_id" ∷ seen) rows
    ok (errors ++ rest)

  unfoldable pub validate_manifest_rows : List Row → Result Exception (List String)
  unfolding rows_from
  validate_manifest_rows rows = rows_from 0 [] rows
