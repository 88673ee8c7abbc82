-- ===== src/Benchmark/Manifest/Reader.antt =====
-- `read_protocol_manifest` of src/fingerprint_benchmark/manifest.py: the loop over the manifest's
-- rows, as `csv.DictReader` reads them, and the count at its end.
pub mod Records
mod Tests
use fingerprint_full_matcher.Prelude.{
  ℕ, suc, String, ◌<>◌, Bool, true, false, not, ◌&&◌, ◌||◌, Option, none, some, List, [], ◌∷◌, ◌==◌,
  length, str_eq, if◌then◌else◌,
}
use fingerprint_full_matcher.Prelude.Int.{ℤ, pos, negsuc}
use fingerprint_full_matcher.Prelude.Text.{codes, in_range}
use fingerprint_full_matcher.Prelude.Digits.{int_text, int_of_text}
use fingerprint_full_matcher.Prelude.Dict.{Dict, lookup}
use fingerprint_full_matcher.Prelude.Result.{
  Result, ok, err, ◌>>=◌, ◌>>◌, require, of_option, Exception, key_error, value_error,
}
use fingerprint_full_matcher.Benchmark.Adapter.{message_of}
use fingerprint_full_matcher.Benchmark.Manifest.{PairRecord}
use fingerprint_full_matcher.Benchmark.Manifest.Paths.{
  Parts, ManifestError, manifest_error, raised, Disk, resolve_dataset_path,
}

-- What the protocol's metadata says: the comparison kinds, and for each release what
-- `int(datasets[release]["nominal_ppi"])` returns or raises.
pub record Allowed : Type 0 where
  pub kinds : List String
  pub datasets : Dict (Result Exception ℤ)

unfoldable pub contains : List String → String → Bool
contains [] s = false
contains (t ∷ ts) s = str_eq s t || contains ts s

unfoldable pub is_ppi : ℤ → Bool
is_ppi (pos n) = n == 1000 || n == 2000
is_ppi (negsuc n) = false

unfoldable pub same_ℤ : ℤ → ℤ → Bool
same_ℤ (pos a) (pos b) = a == b
same_ℤ (negsuc a) (negsuc b) = a == b
same_ℤ _ _ = false

unfoldable pub all_hex : List ℕ → Bool
all_hex [] = true
all_hex (c ∷ cs) = (in_range 48 57 c || in_range 97 102 c) && all_hex cs

-- `_SHA256.fullmatch`
unfoldable pub is_sha256 : String → Bool
unfolding all_hex
is_sha256 s = length (codes s) == 64 && all_hex (codes s)

module _ (disk : Disk) (dataset_root : Parts) (allowed : Allowed) where
  message : ℕ → String → ManifestError
  message row_index what = manifest_error ("row " <> int_text (pos row_index) <> ": " <> what)

  field : Dict String → String → Result ManifestError String
  field row key = of_option (raised (key_error key)) (lookup key row)

  whole : String → Result ManifestError ℤ
  whole s = of_option (raised (value_error "invalid literal for int()")) (int_of_text s)

  int_field : Dict String → String → Result ManifestError ℤ
  int_field row key = do s ← field row key; whole s

  expected_ppi : Result Exception ℤ → Result ManifestError ℤ
  expected_ppi (ok ppi) = ok ppi
  expected_ppi (err e) = err (raised e)

  -- The body of the `try`.
  pub row_body : ℕ → List String → Dict String → Result ManifestError PairRecord
  row_body row_index seen row = do
    kind ← field row "comparison_kind"
    release ← field row "dataset_release"
    pair_id ← field row "pair_id"
    require (contains allowed.kinds kind) (message row_index "unknown comparison kind")
    dataset ←
        of_option (message row_index "unknown dataset release") (lookup release allowed.datasets)
    require (not (contains seen pair_id)) (message row_index "duplicate pair ID")
    ppi_a ← int_field row "nominal_ppi_a"
    ppi_b ← int_field row "nominal_ppi_b"
    ppi ← expected_ppi dataset
    require (is_ppi ppi_a && is_ppi ppi_b && same_ℤ ppi_a ppi && same_ℤ ppi_b ppi)
        (message row_index "invalid nominal PPI")
    sha256_a ← field row "sha256_a"
    require (is_sha256 sha256_a) (message row_index "invalid lowercase image SHA-256")
    sha256_b ← field row "sha256_b"
    require (is_sha256 sha256_b) (message row_index "invalid lowercase image SHA-256")
    relative_path_a ← field row "relative_path_a"
    path_a ← resolve_dataset_path disk dataset_root relative_path_a release
    relative_path_b ← field row "relative_path_b"
    path_b ← resolve_dataset_path disk dataset_root relative_path_b release
    subject_index_a ← int_field row "subject_index_a"
    subject_id_a ← field row "subject_id_a"
    subject_index_b ← int_field row "subject_index_b"
    subject_id_b ← field row "subject_id_b"
    canonical_finger ← int_field row "canonical_finger"
    hand ← field row "hand"
    finger_name ← field row "finger_name"
    capture_type_a ← field row "capture_type_a"
    capture_type_b ← field row "capture_type_b"
    source_frgp_a ← field row "source_frgp_a"
    source_frgp_b ← field row "source_frgp_b"
    image_status_a ← field row "image_status_a"
    image_status_b ← field row "image_status_b"
    pair_status ← field row "pair_status"
    source_pair_id ← field row "source_pair_id"
    ok (record {
      pair_id = pair_id;
      comparison_kind = kind;
      dataset_release = release;
      subject_index_a = subject_index_a;
      subject_id_a = subject_id_a;
      subject_index_b = subject_index_b;
      subject_id_b = subject_id_b;
      canonical_finger = canonical_finger;
      hand = hand;
      finger_name = finger_name;
      capture_type_a = capture_type_a;
      capture_type_b = capture_type_b;
      nominal_ppi_a = ppi_a;
      nominal_ppi_b = ppi_b;
      relative_path_a = relative_path_a;
      relative_path_b = relative_path_b;
      sha256_a = sha256_a;
      sha256_b = sha256_b;
      source_frgp_a = source_frgp_a;
      source_frgp_b = source_frgp_b;
      image_status_a = image_status_a;
      image_status_b = image_status_b;
      pair_status = pair_status;
      source_pair_id = source_pair_id;
      path_a = disk.path_text path_a;
      path_b = disk.path_text path_b;
    })

  -- Other exceptions become `ManifestValidationError`; a missing key, a wrong type and a wrong value
  -- are all that the body raises.
  pub converted : ℕ → Result ManifestError PairRecord → Result ManifestError PairRecord
  converted row_index (ok r) = ok r
  converted row_index (err (manifest_error m)) = err (manifest_error m)
  converted row_index (err (raised e)) =
      err (message row_index ("malformed field: " <> message_of e))

  pub read_rows : ℕ → List String → List (Dict String) → Result ManifestError (List PairRecord)
  read_rows row_index seen [] = ok []
  read_rows row_index seen (row ∷ rows) = do
    r ← converted row_index (row_body row_index seen row)
    rest ← read_rows (suc row_index) (r.pair_id ∷ seen) rows
    ok (r ∷ rest)

  -- The rows' part of `read_protocol_manifest`; `none` is a lock without the count.
  pub read_records : Option ℕ → List (Dict String) → Result ManifestError (List PairRecord)
  read_records row_count rows = do
    records ← read_rows 1 [] rows
    require (elim row_count [ none ↦ false | some n ↦ length records == n ])
        (manifest_error "manifest row count differs from protocol lock")
    ok records
