-- ===== src/Benchmark/Manifest/Lock/Found.antt =====
-- The loops over the sums and over the lock, where each file is found under its name.
use fingerprint_full_matcher.Prelude.{String, some, [], ◌∷◌, ◌≡◌, refl, All}
use text.Mathlib.TextPositions.{eq_refl}
use fingerprint_full_matcher.Prelude.Dict.{Dict, lookup}
use fingerprint_full_matcher.Prelude.Result.{ok}
use fingerprint_full_matcher.Benchmark.Manifest.Lock.{
  file_at, has_digest, check_digests, check_locked, check_files,
}
use fingerprint_full_matcher.Benchmark.Manifest.Lock.Readable.{IsReadable}
use fingerprint_full_matcher.Benchmark.Manifest.Lock.Reading.{digests}
use fingerprint_full_matcher.Supervisor.Lock.{Content, Readings, rows_if_manifest, package_records}
use fingerprint_full_matcher.Supervisor.Lock.Locked.{unchanged}

module _ (readings : Readings) (sealed : Dict Content) where
  -- A file that is found under its name.
  pub record IsFound (file : String × Content) : Type 0 where
    pub readable : IsReadable file.0
    pub there : lookup file.0 sealed ≡ some file.1

  file_at-IsFound : (file : String × Content) → IsFound file → file_at sealed file.0 ≡ some file.1
  unfolding file_at
  file_at-IsFound file found = rw (found.readable.kept) (found.there)

  pub check_digests-digests :
      (files : Dict Content)
      → All IsFound files
      → check_digests readings sealed (digests readings files) ≡ ok tt
  unfolding check_digests has_digest
  check_digests-digests [] h = refl
  check_digests-digests ((name, content) ∷ files) (here, later) =
      rw
        (
          file_at-IsFound (name, content) here,
          has_digest,
          eq_refl (readings.sha256_file content),
          check_digests-digests files later,
        )
        refl

  pub check_files-package_records :
      (files : Dict Content)
      → All IsFound files
      → check_files readings sealed (package_records readings files) ≡ ok tt
  unfolding check_files package_records check_locked
  check_files-package_records [] h = refl
  check_files-package_records ((name, content) ∷ files) (here, later) =
      rw
        (
          file_at-IsFound (name, content) here,
          check_locked,
          unchanged readings content (rows_if_manifest readings name content),
          check_files-package_records files later,
        )
        refl
