-- ===== src/Supervisor/Lock/Tampering.antt =====
-- What it means that the validator has no message about a lock.
use fingerprint_full_matcher.Prelude.{
  append_empty, String, ◌<>◌, Bool, true, false, Option, some, List, [], ◌∷◌, ◌≡◌, ◌∙◌, refl, ap,
  sym, str_eq, eq_iff, Bool-cases, ◌⊎◌, inl, inr, All, arith,
}
use fingerprint_full_matcher.Prelude.Dict.{Dict, lookup}
use fingerprint_full_matcher.Prelude.Result.{Result, ok, bind_returned, ok-injective, Exception}
use fingerprint_full_matcher.Supervisor.Paths.{Parts, Disk}
use fingerprint_full_matcher.Supervisor.Validate.{fails, messages}
use fingerprint_full_matcher.Supervisor.Lock.{
  FileRecord, Lock, Content, json_lock, Readings, lock_name,
}
use fingerprint_full_matcher.Supervisor.Lock.Check.{
  opening_errors, all_in, is_named, keys, entries_of, is_seal, expected_file_paths, each_item,
  is_changed, content_errors, file_errors, outside_errors, lock_errors, validate_lock,
}
use fingerprint_full_matcher.Supervisor.Lock.Locked.{IsPackaged, file_errors-found}

-- No message, so the test of none.
messages-fails :
    (test : Bool) (message : String) (rest : List (Option String))
    → messages (fails test message ∷ rest) ≡ []
    → (test ≡ false) × (messages rest ≡ [])
unfolding messages
messages-fails false message rest h = (refl, h)
messages-fails true message rest h = cc

opening_errors-none :
    (files : Dict Content) (lock : Lock)
    → opening_errors files lock ≡ []
    → all_in (expected_file_paths files) (keys (entries_of lock.files)) ≡ true
unfolding opening_errors messages
opening_errors-none files lock h = ground arith

-- A key that is there has an entry.
lookup-keys :
    (key : String) (entries : Dict FileRecord)
    → is_named key (keys entries) ≡ true
    → (item : FileRecord) × (lookup key entries ≡ some item)
unfolding is_named keys
lookup-keys key [] h = cc
lookup-keys key ((other, item) ∷ entries) h = elim (Bool-cases (str_eq key other)) [
  | inl equal ↦ (item, rw (equal) refl)
  | inr apart ↦
      let (found, there) = lookup-keys key entries (ground arith) in (found, rw (apart) there)
]

-- A loop that has no message has none about the entry of a key.
each_item-lookup :
    (check : String × FileRecord → Result Exception (List String)) (key : String)
    (item : FileRecord) (entries : Dict FileRecord)
    → each_item check entries ≡ ok []
    → lookup key entries ≡ some item
    → check (key, item) ≡ ok []
unfolding each_item
each_item-lookup check key item [] h there = cc
each_item-lookup check key item ((other, first) ∷ entries) h there =
    let (messages_here, here, h1) = bind_returned (check (other, first)) _ h in
    let (messages_after, after, h2) = bind_returned (each_item check entries) _ h1 in
    let (none_here, none_after) = append_empty messages_here messages_after (ok-injective h2) in
    elim (Bool-cases (str_eq key other)) [
      | inl equal ↦
          let first_is : first ≡ item = ground arith in
          rw ((eq_iff key other).0 equal, sym first_is) (here ∙ ap ok none_here)
      | inr apart ↦
          each_item-lookup check key item entries (after ∙ ap ok none_after) (ground arith)
    ]

-- Where the expected paths are all among the names, each file is, but the lock and the sums.
expected_file_paths-is_named :
    (names : List String) (files : Dict Content)
    → all_in (expected_file_paths files) names ≡ true
    → All (λ file. (is_seal file.0 ≡ true) ⊎ (is_named file.0 names ≡ true)) files
unfolding expected_file_paths all_in
expected_file_paths-is_named names [] h = tt
expected_file_paths-is_named names ((relative, content) ∷ files) h =
    elim (Bool-cases (is_seal relative)) [
      | inl seal ↦ (inl seal, expected_file_paths-is_named names files (ground arith))
      | inr other ↦ (inr (ground arith), expected_file_paths-is_named names files (ground arith))
    ]

-- The lock has an entry for the file, and the file has the size and the hash of it.
unfoldable pub IsLocked : Readings → Lock → String × Content → Type 0
IsLocked readings lock (relative, content) =
    (item : FileRecord) × (lookup relative (entries_of lock.files) ≡ some item)
    × (is_changed readings content item ≡ false)

module _ (readings : Readings) (read : Parts → Option Content) (disk : Disk)
    (protocol_root curation_root repository_root : Parts) (files : Dict Content) (lock : Lock) where
  content_errors-none :
      (relative : String) (item : FileRecord) (content : Content)
      → content_errors readings disk protocol_root files relative item (some content) ≡ []
      → is_changed readings content item ≡ false
  unfolding content_errors
  content_errors-none relative item content h =
      (messages-fails (is_changed readings content item)
        ("locked package file changed: " <> relative) _ h).0

  lock_errors-none :
      lock_errors readings read disk protocol_root curation_root repository_root files lock ≡ ok []
      → (each_item (file_errors readings disk protocol_root files) (entries_of lock.files) ≡ ok [])
        × (all_in (expected_file_paths files) (keys (entries_of lock.files)) ≡ true)
  unfolding lock_errors
  lock_errors-none h =
      let (in_package, package_ok, h1) =
        bind_returned
          (each_item (file_errors readings disk protocol_root files) (entries_of lock.files)) _ h in
      let (in_repository, _, h2) =
        bind_returned
          (each_item (outside_errors readings read repository_root "locked tool changed: ")
            (entries_of lock.tools))
          _ h1 in
      let (in_curation, _, h3) =
        bind_returned
          (each_item (outside_errors readings read curation_root "locked external source changed: ")
            (entries_of lock.external_source_artifacts))
          _ h2 in
      let (opening, after) = append_empty (opening_errors files lock) _ (ok-injective h3) in
      let (package_none, _) = append_empty in_package _ after in
      (package_ok ∙ ap ok package_none, opening_errors-none files lock opening)

  validate_lock-held :
      lookup lock_name files ≡ some (json_lock lock)
      → validate_lock readings read disk protocol_root curation_root repository_root files
        ≡ lock_errors readings read disk protocol_root curation_root repository_root files lock
  unfolding validate_lock
  validate_lock-held held = rw (held, validate_lock) refl

  module _
      (none_found : each_item
          (file_errors readings disk protocol_root files)
          (entries_of lock.files)
        ≡ ok []) where
    file-IsLocked :
        (relative : String) (content : Content)
        → IsPackaged disk protocol_root files (relative, content)
        → is_named relative (keys (entries_of lock.files)) ≡ true
        → IsLocked readings lock (relative, content)
    unfolding IsLocked
    file-IsLocked relative content packaged named =
        let (item, there) = lookup-keys relative (entries_of lock.files) named in
        let checked =
          each_item-lookup (file_errors readings disk protocol_root files) relative item
            (entries_of lock.files) none_found there in
        (
          item,
          there,
          content_errors-none relative item content (
              ok-injective (
                sym (
                  file_errors-found readings disk protocol_root files relative content packaged
                    files item packaged.once)
                ∙ checked)),
        )

    files-IsLocked :
        (rest : Dict Content)
        → All (λ file. (is_seal file.0 ≡ true) ⊎ IsPackaged disk protocol_root files file) rest
        → All
            (λ file.
              (is_seal file.0 ≡ true) ⊎ (is_named file.0 (keys (entries_of lock.files)) ≡ true))
            rest
        → All (λ file. (is_seal file.0 ≡ true) ⊎ IsLocked readings lock file) rest
    files-IsLocked [] packaged named = tt
    files-IsLocked (file ∷ rest) (first, packaged) (first_named, named) = (
      elim first [
        | inl seal ↦ inl seal
        | inr is_file ↦ elim first_named [
          | inl seal ↦ inl seal
          | inr there ↦ inr (file-IsLocked file.0 file.1 is_file there)
        ]
      ],
      files-IsLocked rest packaged named,
    )

  -- For a package without links whose files are listed once each by normalized relative paths without a
  -- colon or a backslash: where the validator has no message about the lock that the package holds, each of
  -- the files that is not named like the lock or the sums has an entry in it, with the size and the hash
  -- that the file has.
  pub validate_lock-IsLocked :
      All (λ file. (is_seal file.0 ≡ true) ⊎ IsPackaged disk protocol_root files file) files
      → lookup lock_name files ≡ some (json_lock lock)
      → validate_lock readings read disk protocol_root curation_root repository_root files ≡ ok []
      → All (λ file. (is_seal file.0 ≡ true) ⊎ IsLocked readings lock file) files
  validate_lock-IsLocked packaged held h =
      let (none_found, all_named) = lock_errors-none (sym (validate_lock-held held) ∙ h) in
      files-IsLocked none_found files packaged
        (expected_file_paths-is_named (keys (entries_of lock.files)) files all_named)
