-- ===== src/Supervisor/Lock/RoundTrip.antt =====
-- The lock and the sums that the builder writes are those that the validator expects.
use fingerprint_full_matcher.Prelude.{Option, none, some, [], ◌∷◌, ◌++◌, ◌≡◌, refl, ap, sym, All}
use text.Mathlib.TextPositions.{eq_refl}
use fingerprint_full_matcher.Prelude.Dict.{Dict}
use fingerprint_full_matcher.Prelude.Result.{
  ok, of_option, of_option_iff, collect, bind_returned, ok-injective, os_error,
}
use fingerprint_full_matcher.Supervisor.{same}
use fingerprint_full_matcher.Supervisor.Paths.{Parts, Disk, split_slash}
use fingerprint_full_matcher.Supervisor.Validate.{messages}
use fingerprint_full_matcher.Supervisor.Lock.{
  FileRecord, Lock, Content, plain_text, json_lock, Readings, lock_name, sums_name, manual_name,
  protocol_tools, external_sources, write_file, package_records, sums_text, tool_record,
  source_record, write_lock_and_sums, made_lock,
}
use fingerprint_full_matcher.Supervisor.Lock.Check.{
  opening_errors, keys, entries_of, is_seal, expected_file_paths, each_item, same_number,
  file_errors, outside_errors, manual_error, lock_errors, validate_lock, text_of, validate_sums,
}
use fingerprint_full_matcher.Supervisor.Lock.Sealed.{
  lookup-write_file, lookup-write_file_other, sums_lines-write_file, expected_file_paths-write_file,
  same_set_refl,
}
use fingerprint_full_matcher.Supervisor.Lock.Locked.{IsPackaged, file_errors-locked}
use fingerprint_full_matcher.Supervisor.Lock.Outside.{
  each_item-collect, outside_errors-tool, outside_errors-source,
}

module _ (readings : Readings) where
  expected_file_paths-packaged :
      (disk : Disk) (root : Parts) (files rest : Dict Content)
      → All (IsPackaged disk root files) rest
      → expected_file_paths rest ≡ keys (package_records readings rest)
  unfolding expected_file_paths keys package_records
  expected_file_paths-packaged disk root files [] packaged = refl
  expected_file_paths-packaged disk root files ((relative, content) ∷ rest) (first, others) =
      rw (first.ordinary)
        (ap (λ names. relative ∷ names) (expected_file_paths-packaged disk root files rest others))

  file_errors-packaged :
      (disk : Disk) (root : Parts) (files : Dict Content) (lock sums : Content)
      (rest : Dict Content)
      → All (IsPackaged disk root files) rest
      → each_item
          (file_errors readings disk root
            (write_file sums_name sums (write_file lock_name lock files)))
          (package_records readings rest)
        ≡ ok []
  unfolding each_item package_records
  file_errors-packaged disk root files lock sums [] packaged = refl
  file_errors-packaged disk root files lock sums ((relative, content) ∷ rest) (first, others) = rw (
    file_errors-locked readings disk root files relative content first lock sums,
    file_errors-packaged disk root files lock sums rest others,
  )

  validate_sums-written :
      (files : Dict Content)
      → validate_sums readings (write_file sums_name (plain_text (sums_text readings files)) files)
        ≡ []
  unfolding validate_sums text_of sums_text
  validate_sums-written files =
      rw
        (
          validate_sums,
          lookup-write_file sums_name (plain_text (sums_text readings files)) files,
          sums_lines-write_file readings (plain_text (sums_text readings files)) files,
          eq_refl (sums_text readings files),
        )
        refl

  module _ (disk : Disk) (read : Parts → Option Content)
      (protocol_root curation_root repository_root : Parts) (files : Dict Content)
      (packaged : All (IsPackaged disk protocol_root files) files)
      (follows : (path : Parts) → read (disk.resolve path) ≡ read path)
      (resolved : disk.resolve curation_root ≡ curation_root) where
    module _ (tools sources : Dict FileRecord) (manual sums : Content)
        (tools_made : collect
            (tool_record readings disk read curation_root repository_root)
            protocol_tools
          ≡ ok tools)
        (sources_made : collect
            (source_record readings disk read curation_root repository_root)
            external_sources
          ≡ ok sources)
        (manual_there : read (curation_root ++ split_slash manual_name) ≡ some manual) where
      abbrev lock : Lock
      lock = made_lock readings disk read curation_root repository_root files tools sources manual

      manual_right : manual_error readings read curation_root lock ≡ none
      unfolding manual_error same
      manual_right = rw (manual_there, eq_refl (readings.sha256_file manual), manual_error) refl

      lock_errors-made :
          lock_errors readings read disk protocol_root curation_root repository_root
            (write_file sums_name sums (write_file lock_name (json_lock lock) files))
            lock
          ≡ ok []
      unfolding lock_errors opening_errors is_seal entries_of messages same same_number
      lock_errors-made =
          let (tool_names, tools_right) =
            each_item-collect (tool_record readings disk read curation_root repository_root)
              (outside_errors readings read repository_root "locked tool changed: ")
              (outside_errors-tool readings disk read repository_root curation_root
                "locked tool changed: ")
              protocol_tools tools tools_made in
          let (source_names, sources_right) =
            each_item-collect (source_record readings disk read curation_root repository_root)
              (outside_errors readings read curation_root "locked external source changed: ")
              (outside_errors-source readings disk read curation_root repository_root follows
                resolved "locked external source changed: ")
              external_sources sources sources_made in
          rw
            (
              file_errors-packaged disk protocol_root files (json_lock lock) sums files packaged,
              tools_right,
              sources_right,
              tool_names,
              source_names,
              expected_file_paths-write_file sums_name sums
                  (write_file lock_name (json_lock lock) files) refl,
              expected_file_paths-write_file lock_name (json_lock lock) files refl,
              expected_file_paths-packaged disk protocol_root files files packaged,
              same_set_refl (keys (package_records readings files)),
              manual_right,
            )
            refl

      validate_lock-made :
          validate_lock readings read disk protocol_root curation_root repository_root
            (write_file sums_name sums (write_file lock_name (json_lock lock) files))
          ≡ ok []
      unfolding validate_lock
      validate_lock-made =
          rw
            (
              lookup-write_file_other lock_name sums_name sums
                  (write_file lock_name (json_lock lock) files) refl,
              lookup-write_file lock_name (json_lock lock) files,
              validate_lock,
            )
            lock_errors-made

    -- For a package without links whose files are listed once each by normalized relative paths without a
    -- colon or a backslash, none of them named like the lock or the sums, and a resolved curation root below
    -- which files are read through links: where the builder writes the lock and the sums, the validator has
    -- no message about either.
    pub write_lock_and_sums-validated :
        (sealed : Dict Content)
        → write_lock_and_sums readings disk read curation_root repository_root files ≡ ok sealed
        → (validate_lock readings read disk protocol_root curation_root repository_root sealed
            ≡ ok [])
          × (validate_sums readings sealed ≡ [])
    unfolding write_lock_and_sums
    write_lock_and_sums-validated sealed written =
        let (tools, tools_made, h1) =
          bind_returned
            (collect (tool_record readings disk read curation_root repository_root) protocol_tools)
            _ written in
        let (sources, sources_made, h2) =
          bind_returned
            (collect (source_record readings disk read curation_root repository_root)
              external_sources)
            _ h1 in
        let (manual, found, h3) =
          bind_returned
            (of_option (os_error "No such file or directory")
              (read (curation_root ++ split_slash manual_name)))
            _ h2 in
        let there =
          (of_option_iff _ (read (curation_root ++ split_slash manual_name)) manual).0 found in
        let locked =
          write_file lock_name
            (json_lock (lock tools sources manual (plain_text "") tools_made sources_made there))
            files in
        rw (sym (ok-injective h3)) (
          validate_lock-made tools sources manual (plain_text (sums_text readings locked))
              tools_made sources_made there,
          validate_sums-written locked,
        )
