-- ===== src/Supervisor/Across/Sources/Fields.antt =====
-- The fields of a built row are those that the validator expects.
use fingerprint_full_matcher.Prelude.{
  ℕ, String, Bool, true, false, Option, some, [], ◌∷◌, ◌++◌, ◌≡◌, refl, ap, ◌∙◌, All, if◌then◌else◌,
}
use fingerprint_full_matcher.Prelude.Result.{ok}
use fingerprint_full_matcher.Supervisor.{
  Release, Kind, is_next_subject, Row, get_cell, cell, same_iff, number, subject_at, finger_at,
}
use fingerprint_full_matcher.Supervisor.Across.Sources.{
  Fields, ById, get_by_id, expected_fields, field_errors, named_errors, source_row_errors,
}
use fingerprint_full_matcher.Supervisor.Paths.{Parts, Disk}
use fingerprint_full_matcher.Supervisor.Rows.{update, common_row, written}
use fingerprint_full_matcher.Supervisor.Rows.Fields.{Texts, built, common, sides}
use fingerprint_full_matcher.Supervisor.Validate.{get_default, index_b_of, expected_hand_and_name}

module _ (disk : Disk) (dataset_root : Parts) (release : Release) (kind : Kind) where
  field_errors-nil :
      (context : String) (row : Row) (fields : Fields)
      → All (λ (f : String × Option String). get_cell row f.0 ≡ f.1) fields
      → field_errors disk dataset_root release kind context row fields ≡ []
  unfolding field_errors
  field_errors-nil context row [] h = refl
  field_errors-nil context row ((field, expected) ∷ fields) h =
      rw ((same_iff (get_cell row field) expected).1 h.0) (field_errors-nil context row fields h.1)

  -- A row whose fields are those that its source asks for.
  source_row_errors-nil :
      (sources : ById) (row source : Row) (fields : Fields)
      → get_by_id sources (get_default row "source_pair_id") ≡ some source
      → expected_fields disk dataset_root release kind source ≡ ok fields
      → All (λ (f : String × Option String). get_cell row f.0 ≡ f.1) fields
      → source_row_errors disk dataset_root release kind sources row ≡ ok []
  unfolding source_row_errors named_errors
  source_row_errors-nil sources row source fields named expected h =
      rw (named, expected) (ap ok (field_errors-nil _ row fields h))

-- The fields of a built row.
module _ (kind : Kind) (position : ℕ) (t : Texts) where
  subject_part : Fields
  subject_part =
      ("subject_index_a", some (number (subject_at position)))
      ∷ ("subject_id_a", some t.subject_a)
      ∷ ("subject_index_b", some (number (index_b_of kind (subject_at position))))
      ∷ ("subject_id_b", some t.subject_b)
      ∷ []

  side_part : Fields
  side_part =
      ("relative_path_a", some t.relative_a)
      ∷ ("relative_path_b", some t.relative_b)
      ∷ ("sha256_a", some t.sha256_a)
      ∷ ("sha256_b", some t.sha256_b)
      ∷ ("source_frgp_a", some t.frgp_a)
      ∷ ("source_frgp_b", some t.frgp_b)
      ∷ ("image_status_a", some t.status_a)
      ∷ ("image_status_b", some t.status_b)
      ∷ []

  name_part : Fields
  name_part =
      ("canonical_finger", some (number (finger_at position)))
      ∷ ("hand", some (expected_hand_and_name (finger_at position)).0)
      ∷ ("finger_name", some (expected_hand_and_name (finger_at position)).1)
      ∷ []

  unfoldable pub fields_of : Fields
  unfolding subject_part side_part name_part
  fields_of =
      subject_part
      ++ ((if is_next_subject kind
            then side_part ++ (("pair_status", some t.pair_status) ∷ [])
            else ("pair_status", some t.pair_status) ∷ side_part)
          ++ name_part)

  module _ (release : Release) where
    Holds : Fields → Type 0
    Holds = All (λ (f : String × Option String).
        get_cell (written (built release kind position t)) f.0 ≡ f.1)

    Holds-append : (f g : Fields) → Holds f → Holds g → Holds (f ++ g)
    unfolding Holds
    Holds-append [] g h k = k
    Holds-append (x ∷ f) g h k = (h.0, Holds-append f g h.1 k)

    side_part-Holds : Holds side_part
    unfolding Holds side_part built common sides update common_row written get_cell cell
    side_part-Holds = (refl, (refl, (refl, (refl, (refl, (refl, (refl, (refl, tt))))))))

    pair_status-Holds :
        get_cell (written (built release kind position t)) "pair_status" ≡ some t.pair_status
    unfolding built common sides update common_row written get_cell cell
    pair_status-Holds = refl

    middle-Holds :
        (next : Bool)
        → Holds (
            if next
            then side_part ++ (("pair_status", some t.pair_status) ∷ [])
            else ("pair_status", some t.pair_status) ∷ side_part)
    unfolding Holds
    middle-Holds true = Holds-append side_part _ side_part-Holds (pair_status-Holds, tt)
    middle-Holds false = (pair_status-Holds, side_part-Holds)

    outer-Holds : Holds subject_part × Holds name_part
    unfolding Holds subject_part name_part built common sides update common_row written get_cell
        cell
    outer-Holds = ((refl, (refl, (refl, (refl, tt)))), (refl, (refl, (refl, tt))))

    fields_of-Holds : Holds fields_of
    unfolding fields_of
    fields_of-Holds =
        Holds-append subject_part _ outer-Holds.0
          (Holds-append _ name_part (middle-Holds (is_next_subject kind)) outer-Holds.1)

source_pair_id-built :
    (release : Release) (kind : Kind) (position : ℕ) (t : Texts)
    → get_default (written (built release kind position t)) "source_pair_id" ≡ some t.source_pair_id
unfolding built common sides update common_row written get_default get_cell cell
source_pair_id-built release kind position t = refl

module _ (disk : Disk) (dataset_root : Parts) (release : Release) (kind : Kind) where
  pub built-corresponds :
      (sources : ById) (source : Row) (position : ℕ) (t : Texts)
      → get_by_id sources (some t.source_pair_id) ≡ some source
      → expected_fields disk dataset_root release kind source ≡ ok (fields_of kind position t)
      → source_row_errors disk dataset_root release kind sources
          (written (built release kind position t))
        ≡ ok []
  unfolding Holds
  built-corresponds sources source position t named expected =
      source_row_errors-nil disk dataset_root release kind sources _ source
        (fields_of kind position t)
        (ap (get_by_id sources) (source_pair_id-built release kind position t) ∙ named) expected
        (fields_of-Holds kind position t release)
