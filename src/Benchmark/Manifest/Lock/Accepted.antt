-- ===== src/Benchmark/Manifest/Lock/Accepted.antt =====
-- The reader's check of the lock, at the lock and the sums that the builder writes.
use fingerprint_full_matcher.Prelude.{
  String, true, false, Option, some, [], ◌∷◌, ◌++◌, ◌≡◌, ◌∙◌, refl, ap, sym, eq_iff, arith, All,
}
use fingerprint_full_matcher.Prelude.Dict.{Dict, lookup}
use fingerprint_full_matcher.Prelude.Result.{
  ok, of_option, collect, bind_returned, ok-injective, os_error,
}
use fingerprint_full_matcher.Benchmark.Manifest.Reader.{is_sha256}
use fingerprint_full_matcher.Benchmark.Manifest.Lock.{
  names, is_sorted, read_lock, verify_lock, has_values, locked_entry,
}
use fingerprint_full_matcher.Benchmark.Manifest.Lock.Sums.{is_line}
use fingerprint_full_matcher.Benchmark.Manifest.Lock.Listed.{
  is_distinct, is_distinct-write_file, is_sorted-write_file, same_set-write_file, All-write_file,
  names-package_records, lookup-package_records,
}
use fingerprint_full_matcher.Benchmark.Manifest.Lock.Readable.{
  IsReadable, IsPackaged-IsReadable, lock_name-IsReadable,
}
use fingerprint_full_matcher.Benchmark.Manifest.Lock.Reading.{names-digests, read_sums-sums_text}
use fingerprint_full_matcher.Benchmark.Manifest.Lock.Found.{
  IsFound, check_digests-digests, check_files-package_records,
}
use fingerprint_full_matcher.Supervisor.Paths.{Parts, Disk, split_slash}
use fingerprint_full_matcher.Supervisor.Lock.{
  Lock, Content, plain_text, json_lock, Readings, lock_name, sums_name, manual_name, protocol_tools,
  external_sources, write_file, file_record, rows_if_manifest, package_records, sums_text,
  tool_record, source_record, write_lock_and_sums, made_lock,
}
use fingerprint_full_matcher.Supervisor.Lock.Check.{is_named, is_seal, text_of, entries_of}
use fingerprint_full_matcher.Supervisor.Lock.Sealed.{lookup-write_file, lookup-write_file_other}
use fingerprint_full_matcher.Supervisor.Lock.Locked.{IsPackaged, unchanged, lookup-sealed, not_seal}

module _ (readings : Readings)
    (hashed : (content : Content) → is_sha256 (readings.sha256_file content) ≡ true) where
  module _ (disk : Disk) (read : Parts → Option Content)
      (protocol_root curation_root repository_root : Parts) (files : Dict Content)
      (packaged : All (IsPackaged disk protocol_root files) files)
      (lines : All (λ file. is_line file.0 ≡ true) files)
      (distinct : is_distinct (names files) ≡ true) (sorted : is_sorted (names files) ≡ true) where
    module _ (lock : Lock) (locked_files : lock.files ≡ some (package_records readings files)) where
      abbrev written : Dict Content
      written = write_file lock_name (json_lock lock) files

      entries_there : entries_of lock.files ≡ package_records readings files
      unfolding entries_of
      entries_there = ap entries_of locked_files

      abbrev sums : Content
      sums = plain_text (sums_text readings written)

      abbrev both : Dict Content
      both = write_file sums_name sums written

      files-IsFound :
          (rest : Dict Content)
          → All (IsPackaged disk protocol_root files) rest
          → All (λ file. is_line file.0 ≡ true) rest
          → All (IsFound readings both) rest
      files-IsFound [] h k = tt
      files-IsFound ((name, content) ∷ rest) (here, later) (line, more) = (
        record {
          readable = IsPackaged-IsReadable disk protocol_root files (name, content) here line;
          there =
              lookup-sealed readings disk protocol_root files name content here (json_lock lock)
                sums;
        },
        files-IsFound rest later more,
      )

      lock-IsFound : IsFound readings both (lock_name, json_lock lock)
      lock-IsFound = record {
        readable = lock_name-IsReadable;
        there =
            lookup-write_file_other lock_name sums_name sums written refl
            ∙ lookup-write_file lock_name (json_lock lock) files;
      }

      written-IsFound : All (IsFound readings both) written
      written-IsFound =
          All-write_file (IsFound readings both) lock_name (json_lock lock) files lock-IsFound
            (files-IsFound files packaged lines)

      lock_new :
          (rest : Dict Content)
          → All (IsPackaged disk protocol_root files) rest
          → is_named lock_name (names rest) ≡ false
      unfolding is_named names is_seal
      lock_new [] h = refl
      lock_new ((name, content) ∷ rest) (here, later) =
          let other = not_seal name lock_name refl here.ordinary in
          ground (arith, eq_iff name lock_name, eq_iff lock_name name, lock_new rest later)

      IsReadable-IsFound :
          (rest : Dict Content)
          → All (IsFound readings both) rest
          → All (λ file. IsReadable file.0) rest
      IsReadable-IsFound [] h = tt
      IsReadable-IsFound (file ∷ rest) (here, later) =
          (here.readable, IsReadable-IsFound rest later)

      verify_lock-both :
          verify_lock readings both ≡ ok (lock, readings.sha256_file (json_lock lock))
      unfolding verify_lock read_lock text_of
      verify_lock-both =
          rw
            (
              lock-IsFound.there,
              read_lock,
              lookup-write_file sums_name sums written,
              text_of,
              read_sums-sums_text readings hashed written
                  (IsReadable-IsFound written written-IsFound)
                  (is_distinct-write_file lock_name (json_lock lock) files distinct
                    (lock_new files packaged)),
              names-digests readings written,
              entries_there,
              names-package_records readings files,
              same_set-write_file lock_name (json_lock lock) files,
              is_sorted-write_file lock_name (json_lock lock) files sorted,
              check_digests-digests readings both written written-IsFound,
              check_files-package_records readings both files (files-IsFound files packaged lines),
            )
            refl

      locked_entry-file :
          (name : String) (content : Content)
          → lookup name files ≡ some content
          → locked_entry readings name content lock
            ≡ ok (
              file_record readings content (rows_if_manifest readings name content),
              readings.sha256_file content,
            )
      unfolding locked_entry has_values file_record
      locked_entry-file name content there =
          rw
            (
              entries_there,
              lookup-package_records readings name content files there,
              unchanged readings content (rows_if_manifest readings name content),
            )
            refl

      locked_entry-files :
          (rest : Dict Content)
          → All (IsPackaged disk protocol_root files) rest
          → All
              (λ file.
                locked_entry readings file.0 file.1 lock
                ≡ ok (
                  file_record readings file.1 (rows_if_manifest readings file.0 file.1),
                  readings.sha256_file file.1,
                ))
              rest
      locked_entry-files [] h = tt
      locked_entry-files ((name, content) ∷ rest) (here, later) =
          (locked_entry-file name content here.once, locked_entry-files rest later)

    -- For a package without links whose files are listed once each by normalized relative paths without a
    -- colon or a backslash, in the order of the paths, none of them named like the lock or the sums, none
    -- with a line break in its path, and for hashes of 64 lower-case hex digits: where the builder writes the lock and the sums, the reader accepts them, it
    -- returns the lock with the hash of its text, and finds each file, unchanged, in the lock.
    pub verify_lock-write_lock_and_sums :
        (sealed : Dict Content)
        → write_lock_and_sums readings disk read curation_root repository_root files ≡ ok sealed
        → (lock : Lock) × (verify_lock readings sealed
            ≡ ok (lock, readings.sha256_file (json_lock lock)))
          × All
              (λ file.
                locked_entry readings file.0 file.1 lock
                ≡ ok (
                  file_record readings file.1 (rows_if_manifest readings file.0 file.1),
                  readings.sha256_file file.1,
                ))
              files
    unfolding write_lock_and_sums
    verify_lock-write_lock_and_sums sealed written_both =
        let (tools, tools_made, h1) =
          bind_returned
            (collect (tool_record readings disk read curation_root repository_root) protocol_tools)
            _ written_both in
        let (sources, sources_made, h2) =
          bind_returned
            (collect (source_record readings disk read curation_root repository_root)
              external_sources)
            _ h1 in
        let (manual, found, h3) =
          bind_returned
            (of_option (os_error "No such file or directory")
              (read (curation_root ++ split_slash manual_name)))
            _ h2 in
        let lock =
          made_lock readings disk read curation_root repository_root files tools sources manual in
        (
          lock,
          ap (verify_lock readings) (sym (ok-injective h3)) ∙ verify_lock-both lock refl,
          locked_entry-files lock refl files packaged,
        )
