-- ===== src/Benchmark/Manifest/Lock.antt =====
-- `_verify_lock` of src/fingerprint_benchmark/manifest.py, and what `read_protocol_manifest` then asks
-- of the manifest's own entry. A package is its files by their paths, as the builder's lock has it.
pub mod Sums
pub mod Listed
pub mod Readable
pub mod Reading
pub mod Found
pub mod Accepted
pub mod Verified
mod Tests
use Prim.Native.Char.{Char, code}
use fingerprint_full_matcher.Prelude.{
  ℕ, String, ◌<>◌, Bool, true, false, not, ◌&&◌, ◌||◌, Option, none, some, List, [], ◌∷◌, ◌==◌,
  str_eq, if◌then◌else◌,
}
use fingerprint_full_matcher.Prelude.Text.{codes, in_range, is_empty}
use fingerprint_full_matcher.Prelude.Dict.{Dict, lookup}
use fingerprint_full_matcher.Prelude.Result.{
  Result, ok, err, ◌>>=◌, ◌>>◌, require, of_option, os_error, Exception,
}
use fingerprint_full_matcher.Benchmark.Adapter.{message_of}
use fingerprint_full_matcher.Benchmark.Manifest.Paths.{
  ManifestError, manifest_error, raised, is_absolute,
}
use fingerprint_full_matcher.Benchmark.Manifest.Reader.{is_sha256}
use fingerprint_full_matcher.Supervisor.Paths.{Parts, split_slash, as_posix, has_parent}
use fingerprint_full_matcher.Supervisor.Lock.{
  FileRecord, Lock, Content, plain_text, json_lock, Readings, lock_name, sums_name, precedes,
}
use fingerprint_full_matcher.Supervisor.Lock.Check.{
  is_named, same_set, entries_of, is_changed, text_of,
}

-- The characters at which `str.splitlines` ends a line.
unfoldable pub is_break : ℕ → Bool
is_break c = in_range 10 13 c || in_range 28 30 c || c == 0x85 || c == 0x2028 || c == 0x2029

-- The character before the first line.
unfoldable pub longer : Char → List String → List String
longer c [] = (String.◌∷◌ c "") ∷ []
longer c (l ∷ ls) = (String.◌∷◌ c l) ∷ ls

-- `text.splitlines()`, with an empty line more after a break at the end and within a CR LF; the loop
-- skips empty lines.
unfoldable pub split_lines : String → List String
unfolding is_break longer
split_lines String.[] = "" ∷ []
split_lines (String.◌∷◌ c s) =
    let rest = split_lines s in if is_break (code c) then "" ∷ rest else longer c rest

-- The text after a space that it starts with.
unfoldable pub after_space : String → Option String
after_space String.[] = none
after_space (String.◌∷◌ c s) = if code c == 32 then some s else none

-- The character before the part in front of the separator.
unfoldable pub before : Char → Option (String × String) → Option (String × String)
before c none = none
before c (some (head, tail)) = some (String.◌∷◌ c head, tail)

-- The test at a character: where two spaces start, the line is parted.
unfoldable pub part_at : Char → Option String → Option (String × String) → Option (String × String)
unfolding before
part_at c none later = before c later
part_at c (some tail) later = if code c == 32 then some ("", tail) else before c later

-- `line.partition("  ")`; `none` is a line without the separator.
unfoldable pub partition : String → Option (String × String)
unfolding after_space part_at
partition String.[] = none
partition (String.◌∷◌ c s) = let later = partition s in part_at c (after_space s) later

-- The parts that `PurePosixPath` keeps.
unfoldable pub kept_parts : Parts → Parts
kept_parts [] = []
kept_parts (p ∷ ps) =
    let rest = kept_parts ps in if is_empty p || str_eq p "." then rest else p ∷ rest

unfoldable pub names {ℓ} : {V : Type ℓ} → Dict V → List String
names [] = []
names ((name, v) ∷ d) = name ∷ names d

-- `order == sorted(order)`
unfoldable pub is_sorted : List String → Bool
unfolding precedes
is_sorted [] = true
is_sorted (x ∷ []) = true
is_sorted (x ∷ y ∷ ys) = not (precedes (codes y) (codes x)) && is_sorted (y ∷ ys)

-- `not separator or not _SHA256.fullmatch(digest) or not relative`
unfoldable pub is_entry : Option (String × String) → Bool
unfolding is_sha256
is_entry none = false
is_entry (some (digest, relative)) = is_sha256 digest && not (is_empty relative)

-- The entry of a line, and the paths of the entries before it.
unfoldable pub sums_entry : List String → String → Result ManifestError (String × String)
unfolding is_entry is_named split_slash has_parent is_absolute
sums_entry seen line = do
  require (is_entry (partition line)) (manifest_error "invalid SHA256SUMS entry")
  (digest, relative) ← of_option (manifest_error "invalid SHA256SUMS entry") (partition line)
  require
      (not (is_absolute relative || has_parent (split_slash relative) || is_named relative seen))
      (manifest_error "unsafe or duplicate SHA256SUMS entry")
  ok (relative, digest)

-- `expected_sums`, in the order of its lines.
unfoldable pub read_sums : List String → List String → Result ManifestError (Dict String)
read_sums seen [] = ok []
read_sums seen (line ∷ lines) = if is_empty line then read_sums seen lines else do
  (relative, digest) ← sums_entry seen line
  rest ← read_sums (relative ∷ seen) lines
  ok ((relative, digest) ∷ rest)

-- The file at `protocol_root / PurePosixPath(relative)`.
unfoldable pub file_at : Dict Content → String → Option Content
unfolding split_slash kept_parts as_posix
file_at files relative = lookup (as_posix (kept_parts (split_slash relative))) files

-- An entry with none of the values that are read is an empty dictionary.
unfoldable pub has_values : FileRecord → Bool
has_values item = elim item.sha256 [
  | some hash ↦ true
  | none ↦ elim item.size_bytes [
    | some size ↦ true
    | none ↦ elim item.row_count [ some rows ↦ true | none ↦ false ]
  ]
]

module _ (readings : Readings) where
  unfoldable pub read_lock : Option Content → Result ManifestError Lock
  read_lock none = err (manifest_error "invalid protocol lock: No such file or directory")
  read_lock (some (json_lock lock)) = ok lock
  read_lock (some (plain_text text)) = elim (readings.loads text) [
    | ok lock ↦ ok lock
    | err e ↦ err (manifest_error ("invalid protocol lock: " <> message_of e))
  ]

  unfoldable pub has_digest : String → Option Content → Bool
  has_digest digest none = false
  has_digest digest (some content) = str_eq (readings.sha256_file content) digest

  unfoldable pub check_locked :
      String → FileRecord → Option Content → Result ManifestError (Unit {0})
  unfolding is_changed
  check_locked relative item none = err (manifest_error ("locked file is missing: " <> relative))
  check_locked relative item (some content) =
      require (not (is_changed readings content item))
        (manifest_error ("protocol lock mismatch: " <> relative))

  -- The lock's entry for the manifest, and the manifest's own hash.
  unfoldable pub locked_entry : String → Content → Lock → Result ManifestError (FileRecord × String)
  unfolding has_values is_changed entries_of
  locked_entry relative content lock = do
    let missing = manifest_error ("manifest is not present in protocol lock: " <> relative)
    locked ← of_option missing (lookup relative (entries_of lock.files))
    require (has_values locked) missing
    require (not (is_changed readings content locked))
        (manifest_error "manifest hash or size differs from protocol lock")
    ok (locked, readings.sha256_file content)

  module _ (files : Dict Content) where
    -- The loop over `expected_sums`.
    unfoldable pub check_digests : Dict String → Result ManifestError (Unit {0})
    unfolding has_digest file_at
    check_digests [] = ok tt
    check_digests ((relative, digest) ∷ entries) = do
      require (has_digest digest (file_at files relative))
          (manifest_error ("protocol checksum mismatch: " <> relative))
      check_digests entries

    -- The loop over the lock's files.
    unfoldable pub check_files : Dict FileRecord → Result ManifestError (Unit {0})
    unfolding check_locked file_at
    check_files [] = ok tt
    check_files ((relative, item) ∷ entries) = do
      check_locked relative item (file_at files relative)
      check_files entries

    -- The lock, and the hash of its file.
    unfoldable pub verify_lock : Result ManifestError (Lock × String)
    verify_lock = do
      lock ← read_lock (lookup lock_name files)
      sums ← of_option (raised (os_error "No such file or directory")) (lookup sums_name files)
      expected_sums ← read_sums [] (split_lines (text_of readings sums))
      require
          (same_set (names expected_sums) (lock_name ∷ names (entries_of lock.files))
            && is_sorted (names expected_sums))
          (manifest_error "SHA256SUMS is incomplete, excessive, or unsorted")
      check_digests expected_sums
      check_files (entries_of lock.files)
      content ← of_option (raised (os_error "No such file or directory")) (lookup lock_name files)
      ok (lock, readings.sha256_file content)
