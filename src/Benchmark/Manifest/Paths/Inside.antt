-- ===== src/Benchmark/Manifest/Paths/Inside.antt =====
-- Where a resolved image path lies.
use fingerprint_full_matcher.Prelude.{String, true, false, ◌≡◌, arith}
use fingerprint_full_matcher.Prelude.Result.{ok}
use fingerprint_full_matcher.Benchmark.Manifest.Paths.{
  Parts, Disk, resolve_dataset_path, is_below, posix_parts, has_part, parent, is_absolute,
}

module _ (disk : Disk) (dataset_root : Parts) where
  -- Whatever links and dots the path has, and whatever the disk resolves them to: the path that is
  -- returned lies in the dataset's directory and is a file's, and the relative path has no `..` and
  -- is not absolute.
  pub resolve_dataset_path-is_below :
      (relative release : String) (parts : Parts)
      → resolve_dataset_path disk dataset_root relative release ≡ ok parts
      → (is_below (disk.resolve dataset_root) parts ≡ true)
        × (disk.is_file parts ≡ true)
        × (has_part parent (posix_parts relative) ≡ false)
        × (is_absolute relative ≡ false)
  unfolding resolve_dataset_path
  resolve_dataset_path-is_below relative release parts h = ground arith
