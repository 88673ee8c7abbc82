-- ===== src/Supervisor/Across/Read.antt =====
-- What a built row takes from its source row.
use fingerprint_full_matcher.Prelude.{String, ◌<>◌, Option, ◌≡◌, ap, ◌∙◌, All, arith}
use fingerprint_full_matcher.Prelude.Result.{
  Result, ok, ◌>>=◌, bind_returned, ok-injective, Exception,
}
use fingerprint_full_matcher.Supervisor.{
  Release, Kind, plain_roll_genuine, plain_roll_next_subject, Row, item, get_cell, cell,
  int_of_cell, shown, two_digits,
}
use fingerprint_full_matcher.Prelude.Int.{ℤ}
use fingerprint_full_matcher.Supervisor.Paths.{Parts, Disk, image_relative}
use fingerprint_full_matcher.Supervisor.Columns.{logical_fields}
use fingerprint_full_matcher.Supervisor.Rows.{
  Common, common_row, subject_keys, common_output_fields, Sides, update, genuine_row, impostor_row,
  self_row, plain_roll_sides, Capture,
}

-- What a read item was, for the rest of the computation.
pub item_bind :
    {B : Type 0} {result : B} (row : Row) (key : String) (next : Option String → Result Exception B)
    → ◌≡◌ {A = Result Exception B} (item row key >>= next) (ok result)
    → next (get_cell row key) ≡ ok result
unfolding get_cell cell
item_bind row key next h = ground arith

-- The common fields of a source row.
unfoldable pub common_of : Kind → Row → Common
common_of kind source = record {
  subject_index_a = get_cell source (subject_keys kind).index_a;
  subject_id_a = get_cell source (subject_keys kind).id_a;
  subject_index_b = get_cell source (subject_keys kind).index_b;
  subject_id_b = get_cell source (subject_keys kind).id_b;
  canonical_finger = get_cell source "canonical_finger";
  hand = get_cell source "hand";
  finger_name = get_cell source "finger_name";
  pair_status = get_cell source "pair_status";
  source_pair_id = get_cell source "pair_id";
}

common_output_fields-read :
    (source : Row) (kind : Kind) (release : Release) {row : Row}
    → common_output_fields source kind release ≡ ok row
    → common_row kind release (common_of kind source) ≡ row
unfolding common_output_fields common_of
common_output_fields-read source kind release h = ok-injective (
    item_bind source "pair_id" _ (
      item_bind source "pair_status" _ (
        item_bind source "finger_name" _ (
          item_bind source "hand" _ (
            item_bind source "canonical_finger" _ (
              item_bind source (subject_keys kind).id_b _ (
                item_bind source (subject_keys kind).index_b _ (
                  item_bind source (subject_keys kind).id_a _
                    (item_bind source (subject_keys kind).index_a _ h)))))))))

-- The cells that the projection of a source row reads agree.
abbrev pub Same : Kind → Row → Row → Type 0
Same kind b c = All (λ key. get_cell b key ≡ get_cell c key) (logical_fields kind)

module _ (disk : Disk) (dataset_root : Parts) where
  self_sides : Capture → Row → ℤ → String → Sides
  self_sides capture source finger relative = record {
    pair_id =
        capture.prefix
        <> ("_" <> (shown (get_cell source "subject_id") <> ("_F" <> two_digits finger)));
    capture_type_a = capture.name;
    capture_type_b = capture.name;
    relative_path_a = relative;
    relative_path_b = relative;
    sha256_a = get_cell source capture.sha256_key;
    sha256_b = get_cell source capture.sha256_key;
    source_frgp_a = get_cell source capture.frgp_key;
    source_frgp_b = get_cell source capture.frgp_key;
    image_status_a = get_cell source capture.status_key;
    image_status_b = get_cell source capture.status_key;
  }

  unfoldable pub self_made : Capture → Release → Row → ℤ → String → String → Row
  unfolding self_sides
  self_made capture release source finger relative _ =
      update (common_row capture.kind release (common_of capture.kind source))
        (self_sides capture source finger relative)

  self_row-read :
      (release : Release) (source : Row) (capture : Capture) {row : Row}
      → self_row disk dataset_root release source capture ≡ ok row
      → (finger : ℤ) × (relative other : String) × (int_of_cell (get_cell source "canonical_finger")
          ≡ ok finger)
        × (self_made capture release source finger relative other ≡ row)
  unfolding self_row self_sides self_made
  self_row-read release source capture h =
      let (common, common_is, h1) =
        bind_returned (common_output_fields source capture.kind release) _ h in
      let h2 = item_bind source "canonical_finger" _ h1 in
      let (finger, finger_is, h3) =
        bind_returned (int_of_cell (get_cell source "canonical_finger")) _ h2 in
      let h4 = item_bind source capture.path_key _ h3 in
      let (relative, _, h5) =
        bind_returned (image_relative disk dataset_root release (get_cell source capture.path_key))
          _ h4 in
      let last = ok-injective (
        item_bind source "subject_id" _ (
          item_bind source capture.status_key _
            (item_bind source capture.frgp_key _ (item_bind source capture.sha256_key _ h5)))) in
      (
        finger,
        relative,
        relative,
        finger_is,
        ap (λ row. update row (self_sides capture source finger relative))
              (common_output_fields-read source capture.kind release common_is)
            ∙ last,
      )

  unfoldable pub plain_roll_made :
      Kind → (Row → ℤ → String) → Release → Row → ℤ → String → String → Row
  plain_roll_made kind id release source finger relative_a relative_b =
      update (common_row kind release (common_of kind source)) (record {
        pair_id = id source finger;
        capture_type_a = "PLAIN";
        capture_type_b = "ROLL";
        relative_path_a = relative_a;
        relative_path_b = relative_b;
        sha256_a = get_cell source "plain_sha256";
        sha256_b = get_cell source "roll_sha256";
        source_frgp_a = get_cell source "plain_source_frgp";
        source_frgp_b = get_cell source "roll_source_frgp";
        image_status_a = get_cell source "plain_status";
        image_status_b = get_cell source "roll_status";
      })

  plain_roll_sides-read :
      (release : Release) (source : Row) (kind : Kind) (id : Row → ℤ → String) (finger : ℤ)
      {sides : Sides}
      → plain_roll_sides disk dataset_root release source (id source finger) ≡ ok sides
      → (relative_a relative_b : String) × (plain_roll_made kind id release source finger relative_a
            relative_b
          ≡ update (common_row kind release (common_of kind source)) sides)
  unfolding plain_roll_sides plain_roll_made
  plain_roll_sides-read release source kind id finger h =
      let h1 = item_bind source "plain_path" _ h in
      let (relative_a, _, h2) =
        bind_returned (image_relative disk dataset_root release (get_cell source "plain_path")) _
          h1 in
      let h3 = item_bind source "roll_path" _ h2 in
      let (relative_b, _, h4) =
        bind_returned (image_relative disk dataset_root release (get_cell source "roll_path")) _
          h3 in
      let last = ok-injective (
        item_bind source "roll_status" _ (
          item_bind source "plain_status" _ (
            item_bind source "roll_source_frgp" _ (
              item_bind source "plain_source_frgp" _
                (item_bind source "roll_sha256" _ (item_bind source "plain_sha256" _ h4)))))) in
      (relative_a, relative_b, ap (update (common_row kind release (common_of kind source))) last)

  unfoldable pub genuine_id : Row → ℤ → String
  genuine_id source finger =
      "GEN_" <> (shown (get_cell source "subject_id") <> ("_F" <> two_digits finger))

  unfoldable pub impostor_id : Row → ℤ → String
  impostor_id source finger =
      "IMP_"
      <> (shown (get_cell source "plain_subject_id")
          <> ("_" <> (shown (get_cell source "roll_subject_id") <> ("_F" <> two_digits finger))))

  -- A row is read as its source's cells, the finger and the images' paths.
  unfoldable pub Reads :
      (Release → Row → Result Exception Row) → (Release → Row → ℤ → String → String → Row) → Type 0
  Reads make made =
      (release : Release) (source row : Row)
      → make release source ≡ ok row
      → (finger : ℤ) × (relative_a relative_b : String) × (int_of_cell
            (get_cell source "canonical_finger")
          ≡ ok finger)
        × (made release source finger relative_a relative_b ≡ row)

  pub genuine_row-Reads :
      Reads (genuine_row disk dataset_root) (plain_roll_made plain_roll_genuine genuine_id)
  unfolding genuine_row Reads genuine_id
  genuine_row-Reads release source row h =
      let (common, common_is, h1) =
        bind_returned (common_output_fields source plain_roll_genuine release) _ h in
      let h2 = item_bind source "canonical_finger" _ h1 in
      let (finger, finger_is, h3) =
        bind_returned (int_of_cell (get_cell source "canonical_finger")) _ h2 in
      let h4 = item_bind source "subject_id" _ h3 in
      let (sides, sides_is, h5) =
        bind_returned (plain_roll_sides disk dataset_root release source (genuine_id source finger))
          _ h4 in
      let (relative_a, relative_b, made) =
        plain_roll_sides-read release source plain_roll_genuine genuine_id finger sides_is in
      (
        finger,
        relative_a,
        relative_b,
        finger_is,
        made
            ∙ ap (λ row. update row sides)
                (common_output_fields-read source plain_roll_genuine release common_is)
            ∙ ok-injective h5,
      )

  pub impostor_row-Reads :
      Reads (impostor_row disk dataset_root) (plain_roll_made plain_roll_next_subject impostor_id)
  unfolding impostor_row Reads impostor_id
  impostor_row-Reads release source row h =
      let (common, common_is, h1) =
        bind_returned (common_output_fields source plain_roll_next_subject release) _ h in
      let h2 = item_bind source "canonical_finger" _ h1 in
      let (finger, finger_is, h3) =
        bind_returned (int_of_cell (get_cell source "canonical_finger")) _ h2 in
      let h4 = item_bind source "plain_subject_id" _ h3 in
      let h5 = item_bind source "roll_subject_id" _ h4 in
      let (sides, sides_is, h6) =
        bind_returned
          (plain_roll_sides disk dataset_root release source (impostor_id source finger)) _ h5 in
      let (relative_a, relative_b, made) =
        plain_roll_sides-read release source plain_roll_next_subject impostor_id finger sides_is in
      (
        finger,
        relative_a,
        relative_b,
        finger_is,
        made
            ∙ ap (λ row. update row sides)
                (common_output_fields-read source plain_roll_next_subject release common_is)
            ∙ ok-injective h6,
      )

  pub self_row-Reads :
      (capture : Capture)
      → Reads
          (λ release source. self_row disk dataset_root release source capture)
          (self_made capture)
  unfolding Reads
  self_row-Reads capture release source row h = self_row-read release source capture h
