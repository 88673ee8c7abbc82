-- ===== src/Benchmark/Manifest/Reader/Tests.antt =====
-- The reader on one row.
use fingerprint_full_matcher.Prelude.{String, true, some, [], ◌∷◌, ◌≡◌, refl, length}
use fingerprint_full_matcher.Prelude.Int.{pos}
use fingerprint_full_matcher.Prelude.Text.{codes}
use fingerprint_full_matcher.Prelude.Digits.{int_of_text, int_text}
use fingerprint_full_matcher.Prelude.Dict.{Dict}
use fingerprint_full_matcher.Prelude.Result.{ok, err}
use fingerprint_full_matcher.Benchmark.Manifest.{PairRecord}
use fingerprint_full_matcher.Benchmark.Manifest.Paths.{
  Parts, manifest_error, Disk, resolve_dataset_path, is_below, posix_parts, has_part, is_absolute,
  is_empty_parts,
}
use fingerprint_full_matcher.Benchmark.Manifest.Reader.{
  Allowed, read_records, read_rows, row_body, converted, field, int_field, whole, expected_ppi,
  contains, is_ppi, same_ℤ, is_sha256, message,
}
use fingerprint_full_matcher.Benchmark.Manifest.Reader.Records.{AreRecords, read_records-AreRecords}

abbrev disk : Disk
disk = record { resolve = λ p. p; is_file = λ p. true; path_text = λ p. "image" }

abbrev root : Parts
root = codes "data" ∷ []

abbrev allowed : Allowed
allowed = record { kinds = "plain_self" ∷ []; datasets = ("sd302b", ok (pos 1000)) ∷ [] }

abbrev digest : String
digest = "0123456789abcdef0123456789abcdef0123456789abcdef0123456789abcdef"

abbrev row : Dict String
row =
    ("pair_id", "p1")
    ∷ ("comparison_kind", "plain_self")
    ∷ ("dataset_release", "sd302b")
    ∷ ("subject_index_a", "1")
    ∷ ("subject_id_a", "s1")
    ∷ ("subject_index_b", "1")
    ∷ ("subject_id_b", "s1")
    ∷ ("canonical_finger", "2")
    ∷ ("hand", "right")
    ∷ ("finger_name", "index")
    ∷ ("capture_type_a", "plain")
    ∷ ("capture_type_b", "plain")
    ∷ ("nominal_ppi_a", "1000")
    ∷ ("nominal_ppi_b", " 1000")
    ∷ ("relative_path_a", "SD302B/./a.png")
    ∷ ("relative_path_b", "sd302b//b.png")
    ∷ ("sha256_a", digest)
    ∷ ("sha256_b", digest)
    ∷ ("source_frgp_a", "2")
    ∷ ("source_frgp_b", "2")
    ∷ ("image_status_a", "ok")
    ∷ ("image_status_b", "ok")
    ∷ ("pair_status", "ok")
    ∷ ("source_pair_id", "")
    ∷ []

abbrev expected : PairRecord
expected = record {
  pair_id = "p1";
  comparison_kind = "plain_self";
  dataset_release = "sd302b";
  subject_index_a = pos 1;
  subject_id_a = "s1";
  subject_index_b = pos 1;
  subject_id_b = "s1";
  canonical_finger = pos 2;
  hand = "right";
  finger_name = "index";
  capture_type_a = "plain";
  capture_type_b = "plain";
  nominal_ppi_a = pos 1000;
  nominal_ppi_b = pos 1000;
  relative_path_a = "SD302B/./a.png";
  relative_path_b = "sd302b//b.png";
  sha256_a = digest;
  sha256_b = digest;
  source_frgp_a = "2";
  source_frgp_b = "2";
  image_status_a = "ok";
  image_status_b = "ok";
  pair_status = "ok";
  source_pair_id = "";
  path_a = "image";
  path_b = "image";
}

read : read_records disk root allowed (some 1) (row ∷ []) ≡ ok (expected ∷ [])
unfolding read_records read_rows row_body converted field int_field whole expected_ppi contains
    is_ppi same_ℤ is_sha256 resolve_dataset_path posix_parts has_part is_absolute is_empty_parts
    is_below int_of_text
read = refl

-- The same row twice has one id twice.
twice :
    read_records disk root allowed (some 2) (row ∷ row ∷ [])
    ≡ err (manifest_error "row 2: duplicate pair ID")
unfolding read_records read_rows row_body converted field int_field whole expected_ppi contains
    is_ppi same_ℤ is_sha256 resolve_dataset_path posix_parts has_part is_absolute is_empty_parts
    is_below int_of_text int_text message
twice = refl

read_records-AreRecords_example :
    AreRecords disk root allowed [] (expected ∷ [])
    × (length (expected ∷ []) ≡ length (row ∷ []))
    × (some 1 ≡ some (length (expected ∷ [])))
read_records-AreRecords_example =
    read_records-AreRecords disk root allowed (some 1) (row ∷ []) (expected ∷ []) read
