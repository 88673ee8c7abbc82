-- ===== src/Supervisor/Lock/Locked.antt =====
-- A package that the builder locks, as the validator sees it.
use fingerprint_full_matcher.Prelude.{
  ℕ, String, true, false, Option, some, [], ◌∷◌, ◌++◌, ◌==◌, ◌≡◌, ◌∙◌, refl, ap, str_eq, eq_iff,
  Bool-cases, inl, inr, ==_iff,
}
use text.Mathlib.TextPositions.{eq_refl}
use fingerprint_full_matcher.Prelude.Dict.{Dict, lookup}
use fingerprint_full_matcher.Prelude.Result.{ok}
use fingerprint_full_matcher.Supervisor.{same, same_iff}
use fingerprint_full_matcher.Supervisor.Paths.{
  Parts, Disk, split_slash, as_posix, relative_to, is_unsafe, any_dotted, safe_relative_source_path,
}
use fingerprint_full_matcher.Supervisor.Validate.{messages}
use fingerprint_full_matcher.Supervisor.Lock.{
  FileRecord, Content, Readings, lock_name, sums_name, write_file, file_record, rows_if_manifest,
  is_manifest,
}
use fingerprint_full_matcher.Supervisor.Lock.Check.{
  is_seal, is_changed, same_number, content_at, content_errors, path_errors, file_errors,
}
use fingerprint_full_matcher.Supervisor.Lock.Sealed.{lookup-write_file_other}

-- A file of a package that is listed once, by a normalized relative path without links, a colon or a
-- backslash, and is neither the lock nor the sums.
pub record IsPackaged (disk : Disk) (root : Parts) (files : Dict Content) (file : String × Content)
    : Type 0 where
  pub ordinary : is_seal file.0 ≡ false
  pub once : lookup file.0 files ≡ some file.1
  pub safe : is_unsafe file.0 ≡ false
  pub undotted : any_dotted (split_slash file.0) ≡ false
  pub unlinked :
      disk.resolve (disk.resolve root ++ split_slash file.0)
      ≡ disk.resolve root ++ split_slash file.0
  pub whole : as_posix (split_slash file.0) ≡ file.0

relative_to-below : (root path : Parts) → relative_to root (root ++ path) ≡ some path
unfolding relative_to
relative_to-below [] path = refl
relative_to-below (a ∷ root) path = rw (eq_refl a) (relative_to-below root path)

pub not_seal :
    (name seal : String) → is_seal seal ≡ true → is_seal name ≡ false → str_eq name seal ≡ false
not_seal name seal h k = elim (Bool-cases (str_eq name seal)) [
  | inr apart ↦ apart
  | inl equal ↦ let e = (eq_iff name seal).0 equal in cc
]

pub same_refl : (a : Option String) → same a a ≡ true
same_refl a = (same_iff a a).1 refl

equal_refl : (n : ℕ) → (n == n) ≡ true
equal_refl n = (==_iff n n).1 refl

module _ (readings : Readings) where
  pub unchanged :
      (content : Content) (rows : Option ℕ)
      → is_changed readings content (file_record readings content rows) ≡ false
  unfolding is_changed same_number file_record
  unchanged content rows =
      rw (equal_refl (readings.size_of content), same_refl (some (readings.sha256_file content)))

  module _ (disk : Disk) (root : Parts) where
    content_errors-locked :
        (files : Dict Content) (relative : String) (content : Content)
        → content_errors readings disk root files relative
            (file_record readings content (rows_if_manifest readings relative content))
            (some content)
          ≡ []
    unfolding content_errors messages same_number file_record rows_if_manifest
    content_errors-locked files relative content =
        let size = equal_refl (readings.size_of content) in
        let hash = same_refl (some (readings.sha256_file content)) in
        let rows = equal_refl (readings.count_rows content) in
        elim (Bool-cases (is_manifest relative)) [
          | inl manifest ↦ rw (size, hash, manifest, rows)
          | inr other ↦ rw (size, hash, other)
        ]

    module _ (files : Dict Content) (relative : String) (content : Content)
        (packaged : IsPackaged disk root files (relative, content)) where
      content_at-lookup :
          (now : Dict Content)
          → lookup relative now ≡ some content
          → content_at readings disk root now (disk.resolve root ++ split_slash relative)
            ≡ some content
      unfolding content_at
      content_at-lookup now there =
          rw
            (
              relative_to-below (disk.resolve root) (split_slash relative),
              packaged.whole,
              content_at,
            )
            there

      safe_path :
          safe_relative_source_path disk root relative
          ≡ ok (disk.resolve root ++ split_slash relative)
      unfolding safe_relative_source_path
      safe_path = rw (
        packaged.safe,
        packaged.undotted,
        packaged.unlinked,
        relative_to-below (disk.resolve root) (split_slash relative),
      )

      -- The check of an entry reads the file of that name.
      pub file_errors-found :
          (now : Dict Content) (item : FileRecord)
          → lookup relative now ≡ some content
          → file_errors readings disk root now (relative, item)
            ≡ ok (content_errors readings disk root now relative item (some content))
      unfolding file_errors path_errors
      file_errors-found now item there = rw (safe_path, content_at-lookup now there) refl

      -- A file that was there before the lock and the sums is found, whatever those hold.
      module _ (lock sums : Content) where
        abbrev sealed : Dict Content
        sealed = write_file sums_name sums (write_file lock_name lock files)

        pub lookup-sealed : lookup relative sealed ≡ some content
        unfolding is_seal
        lookup-sealed =
            lookup-write_file_other relative sums_name sums (write_file lock_name lock files)
              (not_seal relative sums_name refl packaged.ordinary)
            ∙ lookup-write_file_other relative lock_name lock files
                (not_seal relative lock_name refl packaged.ordinary)
            ∙ packaged.once

        pub file_errors-locked :
            file_errors readings disk root sealed
              (relative, file_record readings content (rows_if_manifest readings relative content))
            ≡ ok []
        file_errors-locked =
            file_errors-found sealed _ lookup-sealed
            ∙ ap ok (content_errors-locked sealed relative content)
