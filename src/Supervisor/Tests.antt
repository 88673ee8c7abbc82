-- ===== src/Supervisor/Tests.antt =====
-- The protocol's builder and validator at small inputs.
use fingerprint_full_matcher.Prelude.{none, some, List, [], ◌∷◌, ◌≡◌, ◌↔◌, refl, AllFrom}
use fingerprint_full_matcher.Prelude.Result.{Result, ok, Exception}
use fingerprint_full_matcher.Prelude.Digits.{int_text, int_of_text}
use fingerprint_full_matcher.Prelude.Result.{subscript}
use fingerprint_full_matcher.Benchmark.Manifest.Paths.{lowered, same_codes}
use fingerprint_full_matcher.Supervisor.Columns.{logical_source_projection}
use fingerprint_full_matcher.Supervisor.{
  release_name, same, subject_at, finger_at, upper_name, ppi_text, next_subject, get_cell,
  is_next_subject, int_of_cell, Release, sd300b, sd300c, Kind, plain_self, plain_roll_genuine,
  plain_roll_next_subject, Row,
}
use fingerprint_full_matcher.Supervisor.Sample.{
  cohort, root, disk, plain_disk, genuine_of, impostor_of, genuine_source, impostor_source,
  cohort-IsCohort, disk-IsTidy, genuine-IsComplete, impostor-IsComplete,
}
use fingerprint_full_matcher.Supervisor.Order.{validate_source_manifest_order}
use fingerprint_full_matcher.Supervisor.Order.Accepted.{
  IsGenuineAt, IsImpostorAt, validate_source_manifest_order-genuine,
  validate_source_manifest_order-impostor,
}
use fingerprint_full_matcher.Supervisor.Paths.{
  relative_to, has_parent, is_under, split_slash, prepend, as_posix, join_slash, image_relative,
  source_path_as_relative, validate_dataset_path,
}
use fingerprint_full_matcher.Benchmark.Manifest.Paths
use fingerprint_full_matcher.Benchmark.Manifest.Paths.{resolve_dataset_path}
use fingerprint_full_matcher.Supervisor.Paths.Resolved.{resolve_dataset_path-image_relative}
use fingerprint_full_matcher.Supervisor.Paths.Images.{image_relative-accepted}
use fingerprint_full_matcher.Prelude.Text.{codes}
use fingerprint_full_matcher.Prelude.{true, map, length, ◌≤◌, ◌≢◌, ◌*◌, String, false}
use fingerprint_full_matcher.Prelude.Result.{index_error, err}
use fingerprint_full_matcher.Supervisor.{roll_self}
use fingerprint_full_matcher.Supervisor.Rows.{
  genuine_row, impostor_row, self_row, plain, roll, written,
}
use fingerprint_full_matcher.Supervisor.Across.Sources.{ById, get_by_id, source_row_errors}
use fingerprint_full_matcher.Supervisor.Across.Sources.Accepted.{
  genuine_source-corresponds, impostor_source-corresponds,
}
use fingerprint_full_matcher.Supervisor.Paths.{
  Parts, is_unsafe, any_dotted, source_path, safe_relative_source_path,
}
use fingerprint_full_matcher.Supervisor.Paths.Sources.{source_path-safe}
use fingerprint_full_matcher.Supervisor.Validate.{validate_row, get_default}
use fingerprint_full_matcher.Supervisor.Validate.Rows.{validate_manifest_rows-within}
use fingerprint_full_matcher.Supervisor.Build.{
  Manifests, rows_of, release_manifests, build_manifests, same_projections,
}
use fingerprint_full_matcher.Supervisor.Build.Accepted.{release_manifests-accepted}
use fingerprint_full_matcher.Supervisor.Across.{validate_cross_release_structure, found}
use fingerprint_full_matcher.Supervisor.Across.Releases.{build_manifests-same_structure}
use fingerprint_full_matcher.Supervisor.Validate.{validate_manifest_rows}
use fingerprint_full_matcher.Supervisor.Validate.Rows.{AreRows, validate_manifest_rows_iff}

genuine_ordered :
    validate_source_manifest_order (genuine_source ∷ []) cohort sd300b plain_roll_genuine ≡ ok tt
unfolding validate_source_manifest_order same int_text subject_at subscript finger_at upper_name
    ppi_text
genuine_ordered = refl

impostor_ordered :
    validate_source_manifest_order (impostor_source ∷ []) cohort sd300b plain_roll_next_subject
    ≡ ok tt
unfolding validate_source_manifest_order same int_text subject_at subscript finger_at upper_name
    ppi_text next_subject get_cell is_next_subject
impostor_ordered = refl

validate_source_manifest_order-genuine_example :
    AllFrom (IsGenuineAt cohort sd300b) 0 (genuine_source ∷ [])
validate_source_manifest_order-genuine_example =
    validate_source_manifest_order-genuine cohort sd300b (genuine_source ∷ []) genuine_ordered

validate_source_manifest_order-impostor_example :
    AllFrom (IsImpostorAt cohort sd300b) 0 (impostor_source ∷ [])
validate_source_manifest_order-impostor_example =
    validate_source_manifest_order-impostor cohort sd300b (impostor_source ∷ []) impostor_ordered

image_ok : image_relative disk root sd300b (some "SD300B") ≡ ok "SD300B/thumb.png"
unfolding image_relative relative_to has_parent is_under split_slash prepend as_posix join_slash
    lowered same_codes release_name
image_ok = refl

image_relative-accepted_example :
    (validate_dataset_path disk root sd300b (some "SD300B/thumb.png") "row 2" ≡ none)
    × (source_path_as_relative disk root sd300b (some "SD300B") ≡ ok "SD300B/thumb.png")
image_relative-accepted_example =
    image_relative-accepted disk root sd300b disk-IsTidy.stable disk-IsTidy.names (some "SD300B")
      "SD300B/thumb.png" "row 2" image_ok

-- The same disk, whose paths are codes.
abbrev reader_resolved : Paths.Parts → Paths.Parts
reader_resolved (a ∷ []) = codes "data" ∷ []
reader_resolved path = codes "data" ∷ codes "SD300B" ∷ codes "thumb.png" ∷ []

abbrev reader : Paths.Disk
reader = record { resolve = reader_resolved; is_file = λ path. true; path_text = λ path. "image" }

resolves : (path : Parts) → reader.resolve (map codes path) ≡ map codes (disk.resolve path)
resolves [] = refl
resolves (a ∷ []) = refl
resolves (a ∷ b ∷ path) = refl

resolve_dataset_path-image_relative_example :
    resolve_dataset_path reader (codes "data" ∷ []) "SD300B/thumb.png" "sd300b"
    ≡ ok (codes "data" ∷ codes "SD300B" ∷ codes "thumb.png" ∷ [])
unfolding release_name
resolve_dataset_path-image_relative_example =
    resolve_dataset_path-image_relative disk reader root sd300b resolves (λ path. refl)
      disk-IsTidy.stable disk-IsTidy.names "SD300B" "SD300B/thumb.png" image_ok

release_manifests-accepted_example :
    (m : Manifests) × (release_manifests disk root sd300b
        (genuine_source ∷ [])
        (impostor_source ∷ [])
      ≡ ok m)
    × ((kind : Kind) → validate_manifest_rows disk root sd300b kind cohort (rows_of m kind) ≡ ok [])
release_manifests-accepted_example =
    release_manifests-accepted disk root disk-IsTidy sd300b cohort cohort-IsCohort
      (genuine_source ∷ []) (impostor_source ∷ []) genuine_ordered impostor_ordered
      (genuine-IsComplete, tt) (impostor-IsComplete, tt)

-- The manifest of one row that is no row of a manifest.
validate_manifest_rows_iff_example :
    (validate_manifest_rows disk root sd300b plain_self cohort (genuine_source ∷ []) ≡ ok [])
    ↔ AreRows disk root sd300b plain_self cohort 0 [] (genuine_source ∷ [])
validate_manifest_rows_iff_example =
    validate_manifest_rows_iff disk root sd300b plain_self cohort (genuine_source ∷ []) (λ e. cc)

sources : Release → Kind → Result Exception (List Row)
sources sd300b plain_roll_genuine = ok (genuine_of "SD300B" "1000" "SD300B" ∷ [])
sources sd300c plain_roll_genuine = ok (genuine_of "SD300C" "2000" "SD300C" ∷ [])
sources sd300b kind = ok (impostor_of "SD300B" "1000" "SD300B" ∷ [])
sources sd300c kind = ok (impostor_of "SD300C" "2000" "SD300C" ∷ [])

built_both :
    (both : Manifests × Manifests) × (build_manifests plain_disk root sources cohort ≡ ok both)
unfolding build_manifests sources validate_source_manifest_order same int_text subject_at subscript
    finger_at upper_name ppi_text next_subject get_cell is_next_subject relative_to has_parent
    is_under split_slash prepend as_posix join_slash lowered same_codes release_name int_of_cell
    int_of_text image_relative logical_source_projection same_projections
built_both = (_, refl)

build_manifests-same_structure_example :
    validate_cross_release_structure (found built_both.0.0 built_both.0.1) ≡ []
build_manifests-same_structure_example =
    build_manifests-same_structure plain_disk root sources cohort built_both.0.0 built_both.0.1
      built_both.1

-- A manifest of one row that is no row of a manifest gets messages.
some_messages :
    (errors : List String) × (validate_manifest_rows disk root sd300b plain_self cohort
        (genuine_source ∷ [])
      ≡ ok errors)
unfolding validate_manifest_rows same int_text subject_at subscript finger_at get_cell get_default
    is_next_subject
some_messages = (_, refl)

validate_manifest_rows-within_example : length (genuine_source ∷ []) ≤ length cohort * 10
validate_manifest_rows-within_example =
    validate_manifest_rows-within disk root sd300b plain_self cohort (genuine_source ∷ [])
      some_messages.0 (λ e. cc) some_messages.1

-- The twenty-first row of a cohort of two raises; no message tells of it.
one_row_more :
    validate_row disk root sd300b plain_self cohort 20 [] genuine_source ≡ err index_error
unfolding validate_row same int_text subject_at subscript finger_at get_cell get_default
one_row_more = refl

inside : (path : Parts) × (source_path plain_disk root "outputs/a.csv" ≡ ok path)
unfolding source_path split_slash prepend relative_to is_unsafe any_dotted
inside = (_, refl)

source_path-safe_example :
    (source_path plain_disk root "outputs/a.csv" ≡ ok inside.0
      ↔ safe_relative_source_path plain_disk root "outputs/a.csv" ≡ ok inside.0)
    × (source_path plain_disk root "outputs/a.csv" ≡ ok inside.0
        → (relative_to (plain_disk.resolve root) inside.0 ≢ none)
          × (is_unsafe "outputs/a.csv" ≡ false)
          × (any_dotted (split_slash "outputs/a.csv") ≡ false))
source_path-safe_example = source_path-safe plain_disk root "outputs/a.csv" inside.0

abbrev genuine_dictionary : ById
genuine_dictionary = (some "G1", genuine_source) ∷ []

named_genuine :
    get_by_id genuine_dictionary (some genuine-IsComplete.names.pair_id) ≡ some genuine_source
unfolding get_by_id same genuine-IsComplete
named_genuine = refl

placed_genuine : IsGenuineAt cohort sd300b 0 genuine_source
placed_genuine =
    (validate_source_manifest_order-genuine cohort sd300b (genuine_source ∷ []) genuine_ordered).0

placed_impostor : IsImpostorAt cohort sd300b 0 impostor_source
placed_impostor =
    (validate_source_manifest_order-impostor cohort sd300b (impostor_source ∷ [])
      impostor_ordered).0

made_genuine : (row : Row) × (genuine_row disk root sd300b genuine_source ≡ ok row)
unfolding genuine_row get_cell int_of_cell int_of_text int_text image_relative relative_to
    has_parent is_under split_slash prepend as_posix join_slash lowered same_codes release_name
made_genuine = (_, refl)

made_impostor : (row : Row) × (impostor_row disk root sd300b impostor_source ≡ ok row)
unfolding impostor_row get_cell int_of_cell int_of_text int_text image_relative relative_to
    has_parent is_under split_slash prepend as_posix join_slash lowered same_codes release_name
made_impostor = (_, refl)

genuine_source-corresponds_example :
    (self_row disk root sd300b genuine_source plain ≡ ok made_genuine.0
      → source_row_errors disk root sd300b plain_self genuine_dictionary (written made_genuine.0)
        ≡ ok [])
    × (self_row disk root sd300b genuine_source roll ≡ ok made_genuine.0
        → source_row_errors disk root sd300b roll_self genuine_dictionary (written made_genuine.0)
          ≡ ok [])
    × (genuine_row disk root sd300b genuine_source ≡ ok made_genuine.0
        → source_row_errors disk root sd300b plain_roll_genuine genuine_dictionary
            (written made_genuine.0)
          ≡ ok [])
genuine_source-corresponds_example =
    genuine_source-corresponds disk root disk-IsTidy sd300b cohort 0 genuine_source
      genuine-IsComplete genuine_dictionary named_genuine placed_genuine made_genuine.0

abbrev impostor_dictionary : ById
impostor_dictionary = (some "G1", impostor_source) ∷ []

named_impostor :
    get_by_id impostor_dictionary (some impostor-IsComplete.names.pair_id) ≡ some impostor_source
unfolding get_by_id same impostor-IsComplete
named_impostor = refl

impostor_source-corresponds_example :
    source_row_errors disk root sd300b plain_roll_next_subject impostor_dictionary
      (written made_impostor.0)
    ≡ ok []
impostor_source-corresponds_example =
    impostor_source-corresponds disk root disk-IsTidy sd300b cohort 0 impostor_source
      impostor-IsComplete impostor_dictionary named_impostor placed_impostor made_impostor.0
      made_impostor.1
