-- ===== src/Supervisor/Lock/Check.antt =====
-- `_validate_lock` and `_validate_sums` of tools/validate_supervisor_50x10_v1.py. A path below the package
-- is that of its file.
use fingerprint_full_matcher.Prelude.{
  ℕ, String, ◌<>◌, Bool, true, false, not, ◌&&◌, ◌||◌, Option, none, some, List, [], ◌∷◌, ◌++◌,
  ◌==◌, str_eq, if◌then◌else◌,
}
use fingerprint_full_matcher.Prelude.Dict.{Dict, lookup}
use fingerprint_full_matcher.Prelude.Result.{Result, ok, err, ◌>>=◌, Exception, value_error}
use fingerprint_full_matcher.Supervisor.{same}
use fingerprint_full_matcher.Supervisor.Paths.{
  Parts, Disk, split_slash, as_posix, relative_to, safe_relative_source_path,
}
use fingerprint_full_matcher.Supervisor.Validate.{fails, messages}
use fingerprint_full_matcher.Supervisor.Lock.{
  FileRecord, Lock, Content, plain_text, json_lock, Readings, lock_name, sums_name, manual_name,
  protocol_tools, external_sources, lock_id, source_commit, audit_commit, is_manifest, sums_text,
}

unfoldable pub same_number : Option ℕ → Option ℕ → Bool
same_number (some m) (some n) = m == n
same_number none none = true
same_number m n = false

unfoldable pub is_named : String → List String → Bool
is_named x [] = false
is_named x (y ∷ ys) = str_eq x y || is_named x ys

unfoldable pub all_in : List String → List String → Bool
unfolding is_named
all_in [] ys = true
all_in (x ∷ xs) ys = is_named x ys && all_in xs ys

-- `set(xs) == set(ys)`
unfoldable pub same_set : List String → List String → Bool
unfolding all_in
same_set xs ys = all_in xs ys && all_in ys xs

unfoldable pub keys : Dict FileRecord → List String
keys [] = []
keys ((key, item) ∷ entries) = key ∷ keys entries

-- `lock.get(name, {})`
unfoldable pub entries_of : Option (Dict FileRecord) → Dict FileRecord
entries_of none = []
entries_of (some entries) = entries

-- `path.name`
unfoldable pub last_part : Parts → String
last_part [] = ""
last_part (p ∷ []) = p
last_part (p ∷ q ∷ ps) = last_part (q ∷ ps)

-- The lock or the sums, in whatever directory.
unfoldable pub is_seal : String → Bool
unfolding last_part split_slash
is_seal relative =
    let name = last_part (split_slash relative) in str_eq name lock_name || str_eq name sums_name

unfoldable pub expected_file_paths : Dict Content → List String
unfolding is_seal
expected_file_paths [] = []
expected_file_paths ((relative, content) ∷ files) =
    let rest = expected_file_paths files in if is_seal relative then rest else relative ∷ rest

-- The messages of a loop over the items, which stops at the first exception.
unfoldable pub each_item :
    (String × FileRecord → Result Exception (List String))
    → Dict FileRecord
    → Result Exception (List String)
each_item f [] = ok []
each_item f (item ∷ items) = do first ← f item; rest ← each_item f items; ok (first ++ rest)

-- The checks before the first loop.
unfoldable pub opening_errors : Dict Content → Lock → List String
unfolding messages same_number same_set keys entries_of expected_file_paths
opening_errors files lock = messages (
    fails
      (not (same lock.protocol_id (some lock_id))
        || not (same_number lock.protocol_version (some 1)))
      "manifest lock protocol identity mismatch"
    ∷ fails (not (same lock.source_repository_commit (some source_commit)))
        "manifest lock source repository commit mismatch"
    ∷ fails (not (same lock.audit_repository_commit (some audit_commit)))
        "manifest lock audit repository commit mismatch"
    ∷ fails (not (same_set (keys (entries_of lock.files)) (expected_file_paths files)))
        "manifest lock file set does not match protocol package"
    ∷ [])

module _ (readings : Readings) where
  -- `path.stat().st_size != item.get("size_bytes") or sha256_file(path) != item.get("sha256")`
  unfoldable pub is_changed : Content → FileRecord → Bool
  unfolding same_number
  is_changed content item =
      not (same_number (some (readings.size_of content)) item.size_bytes)
      || not (same (some (readings.sha256_file content)) item.sha256)

  module _ (disk : Disk) (protocol_root : Parts) (files : Dict Content) where
    unfoldable pub content_at : Parts → Option Content
    unfolding relative_to as_posix
    content_at path = elim (relative_to (disk.resolve protocol_root) path) [
      | none ↦ none
      | some inside ↦ lookup (as_posix inside) files
    ]

    unfoldable pub content_errors : String → FileRecord → Option Content → List String
    unfolding messages is_changed is_manifest same_number
    content_errors relative item none = ("locked package file is missing: " <> relative) ∷ []
    content_errors relative item (some content) = messages (
        fails (is_changed content item) ("locked package file changed: " <> relative)
        ∷ fails
            (is_manifest relative
              && not (same_number item.row_count (some (readings.count_rows content))))
            ("locked row count mismatch: " <> relative)
        ∷ [])

    -- `except ValueError as exc: errors.append(str(exc)); continue`
    unfoldable pub path_errors :
        String → FileRecord → Result Exception Parts → Result Exception (List String)
    unfolding content_errors content_at
    path_errors relative item (ok path) = ok (content_errors relative item (content_at path))
    path_errors relative item (err (value_error message)) = ok (message ∷ [])
    path_errors relative item (err raised) = err raised

    unfoldable pub file_errors : String × FileRecord → Result Exception (List String)
    unfolding path_errors safe_relative_source_path
    file_errors (relative, item) =
        path_errors relative item (safe_relative_source_path disk protocol_root relative)

  module _ (read : Parts → Option Content) where
    -- A tool or a source, which must be there and unchanged.
    unfoldable pub outside_errors :
        Parts → String → String × FileRecord → Result Exception (List String)
    unfolding is_changed split_slash
    outside_errors root message (relative, item) = elim (read (root ++ split_slash relative)) [
      | none ↦ ok ((message <> relative) ∷ [])
      | some content ↦ ok (if is_changed content item then (message <> relative) ∷ [] else [])
    ]

    unfoldable pub manual_error : Parts → Lock → Option String
    unfolding split_slash
    manual_error curation_root lock = elim (read (curation_root ++ split_slash manual_name)) [
      | none ↦ none
      | some manual ↦
          fails
            (not (same lock.manual_review_decisions_sha256 (some (readings.sha256_file manual))))
            "manual review SHA-256 is not independently locked"
    ]

    module _ (disk : Disk) (protocol_root curation_root repository_root : Parts) where
      unfoldable pub lock_errors : Dict Content → Lock → Result Exception (List String)
      unfolding messages same_set keys entries_of opening_errors each_item file_errors
          outside_errors manual_error
      lock_errors files lock =
          let file_entries = entries_of lock.files in
          let tool_entries = entries_of lock.tools in
          let external_entries = entries_of lock.external_source_artifacts in
          do
            in_package ← each_item (file_errors disk protocol_root files) file_entries
            in_repository ←
                each_item (outside_errors repository_root "locked tool changed: ") tool_entries
            in_curation ←
                each_item (outside_errors curation_root "locked external source changed: ")
                  external_entries
            ok (
                opening_errors files lock
                ++ (in_package
                    ++ (messages (
                          fails (not (same_set (keys tool_entries) protocol_tools))
                            "manifest lock tool set mismatch"
                          ∷ [])
                        ++ (in_repository
                            ++ (messages (
                                  fails (not (same_set (keys external_entries) external_sources))
                                    "manifest lock external source set mismatch"
                                  ∷ [])
                                ++ (in_curation
                                    ++ messages (manual_error curation_root lock ∷ [])))))))

      unfoldable pub validate_lock : Dict Content → Result Exception (List String)
      unfolding lock_errors
      validate_lock files = elim (lookup lock_name files) [
        | none ↦ ok ("manifest_lock.json is missing" ∷ [])
        | some (json_lock lock) ↦ lock_errors files lock
        | some (plain_text text) ↦ do lock ← readings.loads text; lock_errors files lock
      ]

  unfoldable pub text_of : Content → String
  text_of (plain_text text) = text
  text_of (json_lock lock) = readings.dumps lock

  unfoldable pub validate_sums : Dict Content → List String
  unfolding text_of sums_text
  validate_sums files = elim (lookup sums_name files) [
    | none ↦ "SHA256SUMS.txt is missing" ∷ []
    | some content ↦
        if str_eq (text_of content) (sums_text readings files)
        then []
        else "SHA256SUMS.txt content or ordering mismatch" ∷ []
  ]
