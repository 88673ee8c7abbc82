-- ===== src/Supervisor/Across/Sources/Accepted.antt =====
-- A built row corresponds to the source row that it was built from.
use fingerprint_full_matcher.Prelude.{ℕ, String, some, List, [], ◌≡◌, refl, ap, sym, ◌∙◌}
use fingerprint_full_matcher.Prelude.Result.{ok, ok-injective}
use fingerprint_full_matcher.Supervisor.{
  Release, Kind, plain_self, roll_self, plain_roll_genuine, plain_roll_next_subject,
  is_next_subject, Row,
}
use fingerprint_full_matcher.Supervisor.Across.Sources.{
  ById, get_by_id, side_keys, subject_fields, side_fields, name_fields, expected_fields,
  source_row_errors,
}
use fingerprint_full_matcher.Supervisor.Build.Accepted.{IsTidy, IsComplete}
use fingerprint_full_matcher.Supervisor.Order.Accepted.{
  IsPlaced, IsPairedNext, IsGenuineAt, IsImpostorAt,
}
use fingerprint_full_matcher.Supervisor.Paths.{Parts, Disk, source_path_as_relative}
use fingerprint_full_matcher.Supervisor.Paths.Images.{image_relative-accepted}
use fingerprint_full_matcher.Supervisor.Rows.{
  subject_keys, written, genuine_row, impostor_row, self_row, plain, roll,
}
use fingerprint_full_matcher.Supervisor.Rows.Fields.{Texts, built}
use fingerprint_full_matcher.Supervisor.Across.Sources.Fields.{fields_of, built-corresponds}
use fingerprint_full_matcher.Supervisor.Rows.Made.{
  HasImage, ImageKeys, texts, genuine_row-built, plain_self-built, roll_self-built,
  impostor_row-built,
}
use fingerprint_full_matcher.Supervisor.Validate.{index_b_of}

module _ (disk : Disk) (dataset_root : Parts) (tidy : IsTidy disk dataset_root) (release : Release)
    (selected : List String) (position : ℕ) (source : Row)
    (complete : IsComplete disk dataset_root tidy release selected position source) (sources : ById)
    (named : get_by_id sources (some complete.names.pair_id) ≡ some source) where
  relative :
      {keys : ImageKeys} (image : HasImage disk dataset_root release keys source)
      → source_path_as_relative disk dataset_root release (some image.path) ≡ ok image.relative
  relative image =
      (image_relative-accepted disk dataset_root release tidy.stable tidy.names (some image.path)
        image.relative "" image.accepted).1

  abbrev texts_of :
      {a b : ImageKeys}
      → String
      → String
      → HasImage disk dataset_root release a source
      → HasImage disk dataset_root release b source
      → Texts
  texts_of s t a b = texts disk dataset_root release position source complete.names s t a b

  module _ (subject : String)
      (placed : IsPlaced selected release "subject_index" "subject_id" subject position
        source) where
    genuine-expected :
        expected_fields disk dataset_root release plain_roll_genuine source
        ≡ ok
            (fields_of plain_roll_genuine position (texts_of subject subject complete.a complete.b))
    unfolding texts expected_fields subject_fields side_fields name_fields subject_keys side_keys
        is_next_subject index_b_of fields_of
    genuine-expected = rw (
      placed.index,
      placed.id,
      complete.names.has_pair_status,
      complete.a.has_path,
      relative complete.a,
      complete.b.has_path,
      relative complete.b,
      complete.a.has_sha256,
      complete.b.has_sha256,
      complete.a.has_frgp,
      complete.b.has_frgp,
      complete.a.has_status,
      complete.b.has_status,
      placed.finger,
      complete.names.has_hand,
      complete.names.has_finger_name,
    )

    plain-expected :
        expected_fields disk dataset_root release plain_self source
        ≡ ok (fields_of plain_self position (texts_of subject subject complete.a complete.a))
    unfolding texts expected_fields subject_fields side_fields name_fields subject_keys side_keys
        is_next_subject index_b_of fields_of
    plain-expected = rw (
      placed.index,
      placed.id,
      complete.names.has_pair_status,
      complete.a.has_path,
      relative complete.a,
      complete.a.has_sha256,
      complete.a.has_frgp,
      complete.a.has_status,
      placed.finger,
      complete.names.has_hand,
      complete.names.has_finger_name,
    )

    roll-expected :
        expected_fields disk dataset_root release roll_self source
        ≡ ok (fields_of roll_self position (texts_of subject subject complete.b complete.b))
    unfolding texts expected_fields subject_fields side_fields name_fields subject_keys side_keys
        is_next_subject index_b_of fields_of
    roll-expected = rw (
      placed.index,
      placed.id,
      complete.names.has_pair_status,
      complete.b.has_path,
      relative complete.b,
      complete.b.has_sha256,
      complete.b.has_frgp,
      complete.b.has_status,
      placed.finger,
      complete.names.has_hand,
      complete.names.has_finger_name,
    )

  impostor-expected :
      (subject next : String)
      → IsPlaced selected release "plain_subject_index" "plain_subject_id" subject position source
      → IsPairedNext selected subject next position source
      → expected_fields disk dataset_root release plain_roll_next_subject source
        ≡ ok (
            fields_of plain_roll_next_subject position
              (texts_of subject next complete.a complete.b))
  unfolding texts expected_fields subject_fields side_fields name_fields subject_keys side_keys
      is_next_subject index_b_of fields_of
  impostor-expected subject next placed paired = rw (
    placed.index,
    placed.id,
    paired.index,
    paired.id,
    complete.a.has_path,
    relative complete.a,
    complete.b.has_path,
    relative complete.b,
    complete.a.has_sha256,
    complete.b.has_sha256,
    complete.a.has_frgp,
    complete.b.has_frgp,
    complete.a.has_status,
    complete.b.has_status,
    complete.names.has_pair_status,
    placed.finger,
    complete.names.has_hand,
    complete.names.has_finger_name,
  )

  corresponds :
      (kind : Kind) (t : Texts) (made row : Row)
      → t.source_pair_id ≡ complete.names.pair_id
      → expected_fields disk dataset_root release kind source ≡ ok (fields_of kind position t)
      → made ≡ built release kind position t
      → made ≡ row
      → source_row_errors disk dataset_root release kind sources (written row) ≡ ok []
  corresponds kind t made row same_id expected is_built is_row =
      ap (λ r. source_row_errors disk dataset_root release kind sources (written r))
        (sym is_row ∙ is_built)
      ∙ built-corresponds disk dataset_root release kind sources source position t
          (ap (λ id. get_by_id sources (some id)) same_id ∙ named) expected

  -- Where `resolve` is stable and tidy: what the builder makes of a genuine source row at its place,
  -- complete and found under its id, has every field that the validator expects of it.
  pub genuine_source-corresponds :
      IsGenuineAt selected release position source
      → (row : Row)
      → (self_row disk dataset_root release source plain ≡ ok row
          → source_row_errors disk dataset_root release plain_self sources (written row) ≡ ok [])
        × (self_row disk dataset_root release source roll ≡ ok row
            → source_row_errors disk dataset_root release roll_self sources (written row) ≡ ok [])
        × (genuine_row disk dataset_root release source ≡ ok row
            → source_row_errors disk dataset_root release plain_roll_genuine sources (written row)
              ≡ ok [])
  unfolding texts
  genuine_source-corresponds (subject, placed) row = (
    λ h. corresponds plain_self _ _ row refl (plain-expected subject placed) refl (
        ok-injective (
          sym (
            plain_self-built disk dataset_root release position source complete.names selected
              subject placed complete.a complete.b)
          ∙ h)),
    λ h. corresponds roll_self _ _ row refl (roll-expected subject placed) refl (
        ok-injective (
          sym (
            roll_self-built disk dataset_root release position source complete.names selected
              subject placed complete.a complete.b)
          ∙ h)),
    λ h. corresponds plain_roll_genuine _ _ row refl (genuine-expected subject placed) refl (
        ok-injective (
          sym (
            genuine_row-built disk dataset_root release position source complete.names selected
              subject placed complete.a complete.b)
          ∙ h)),
  )

  -- The same of an impostor source row and what is made of it.
  pub impostor_source-corresponds :
      IsImpostorAt selected release position source
      → (row : Row) → impostor_row disk dataset_root release source ≡ ok row
      → source_row_errors disk dataset_root release plain_roll_next_subject sources (written row)
        ≡ ok []
  unfolding texts
  impostor_source-corresponds (subject, next, placed, paired) row h =
      corresponds plain_roll_next_subject _ _ row refl
        (impostor-expected subject next placed paired) refl
        (ok-injective (
          sym (
            impostor_row-built disk dataset_root release position source complete.names selected
              subject next placed paired complete.a complete.b)
          ∙ h))
