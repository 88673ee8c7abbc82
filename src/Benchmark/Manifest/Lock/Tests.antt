-- ===== src/Benchmark/Manifest/Lock/Tests.antt =====
-- A small package, locked by the builder and verified by the reader; hashes tell the lock from the rest.
use fingerprint_full_matcher.Prelude.{
  ℕ, String, true, Option, none, some, [], ◌∷◌, ◌≡◌, refl, All, length,
}
use fingerprint_full_matcher.Prelude.Text.{codes}
use fingerprint_full_matcher.Prelude.Dict.{Dict, lookup}
use fingerprint_full_matcher.Prelude.Result.{Result, ok, err, Exception, value_error}
use fingerprint_full_matcher.Benchmark.Manifest.Paths.{manifest_error}
use fingerprint_full_matcher.Benchmark.Manifest.Reader.{is_sha256}
use fingerprint_full_matcher.Benchmark.Manifest.Lock.{
  split_lines, partition, names, is_sorted, read_sums, read_lock, sums_entry, check_digests,
  check_files, verify_lock, locked_entry,
}
use fingerprint_full_matcher.Benchmark.Manifest.Lock.Sums.{is_line}
use fingerprint_full_matcher.Benchmark.Manifest.Lock.Listed.{is_distinct}
use fingerprint_full_matcher.Benchmark.Manifest.Lock.Accepted.{verify_lock-write_lock_and_sums}
use fingerprint_full_matcher.Benchmark.Manifest.Lock.Verified.{IsVerified, verify_lock-IsVerified}
use fingerprint_full_matcher.Supervisor.{same}
use fingerprint_full_matcher.Supervisor.Paths.{
  Parts, Disk, split_slash, relative_to, is_unsafe, any_dotted, as_posix,
}
use fingerprint_full_matcher.Supervisor.Lock.{
  lock_name, Lock, Content, plain_text, json_lock, Readings, write_file, write_lock_and_sums,
  file_record, rows_if_manifest, package_records,
}
use fingerprint_full_matcher.Supervisor.Lock.Check.{is_seal, text_of, same_set, entries_of}
use fingerprint_full_matcher.Supervisor.Lock.Locked.{IsPackaged}

abbrev hash : Content → String
hash (plain_text text) = "00000000000000000000000000000000000000000000000000000000000000aa"
hash (json_lock lock) = "00000000000000000000000000000000000000000000000000000000000000bb"

abbrev size : Content → ℕ
size (plain_text text) = length (codes text)
size (json_lock lock) = 4

abbrev readings : Readings
readings = record {
  sha256_file = hash;
  size_of = size;
  count_rows = λ content. 2;
  dumps = λ lock. "{}";
  loads = λ text. err (value_error "Expecting value");
}

hashed : (content : Content) → is_sha256 (readings.sha256_file content) ≡ true
unfolding is_sha256
hashed (plain_text text) = refl
hashed (json_lock lock) = refl

abbrev disk : Disk
disk = record {
  parse = split_slash;
  resolve = λ parts. parts;
  is_file = λ parts. true;
  quoted = λ text. "";
}

abbrev read : Parts → Option Content
read path = some (plain_text "source")

abbrev files : Dict Content
files = ("README.md", plain_text "about") ∷ ("sd300b/self.csv", plain_text "rows") ∷ []

abbrev protocol : Parts
protocol = "p" ∷ []

abbrev curation : Parts
curation = "c" ∷ []

abbrev repository : Parts
repository = "r" ∷ []

abbrev write : Dict Content → Result Exception (Dict Content)
write = write_lock_and_sums readings disk read curation repository

abbrev or_empty : Result Exception (Dict Content) → Dict Content
or_empty (ok files) = files
or_empty (err raised) = []

abbrev sealed : Dict Content
sealed = or_empty (write files)

written : write files ≡ ok sealed
unfolding write_lock_and_sums relative_to
written = refl

split : split_lines "a\nb\n" ≡ "a" ∷ "b" ∷ "" ∷ []
unfolding split_lines
split = refl

parted : partition "ab  c  d" ≡ some ("ab", "c  d")
unfolding partition
parted = refl

unseparated : read_sums [] ("ab c" ∷ []) ≡ err (manifest_error "invalid SHA256SUMS entry")
unfolding read_sums partition sums_entry
unseparated = refl

-- A file whose size changed while its hash did not.
changed :
    verify_lock readings (write_file "README.md" (plain_text "about it") sealed)
    ≡ err (manifest_error "protocol lock mismatch: README.md")
unfolding verify_lock write_lock_and_sums write_file read_lock relative_to read_sums split_lines
    text_of sums_entry partition same_set names entries_of package_records is_sorted check_digests
    check_files
changed = refl

packaged : All (IsPackaged disk protocol files) files
unfolding is_seal is_unsafe any_dotted as_posix
packaged = (
  record {
    ordinary = refl;
    once = refl;
    safe = refl;
    undotted = refl;
    unlinked = refl;
    whole = refl;
  },
  (
    record {
      ordinary = refl;
      once = refl;
      safe = refl;
      undotted = refl;
      unlinked = refl;
      whole = refl;
    },
    tt,
  ),
)

lines : All (λ file. is_line file.0 ≡ true) files
unfolding is_line
lines = (refl, (refl, tt))

distinct : is_distinct (names files) ≡ true
unfolding is_distinct names
distinct = refl

sorted : is_sorted (names files) ≡ true
unfolding is_sorted names
sorted = refl

verify_lock-write_lock_and_sums_example :
    (lock : Lock) × (verify_lock readings sealed ≡ ok (lock, hash (json_lock lock)))
    × All
        (λ file.
          locked_entry readings file.0 file.1 lock
          ≡ ok (
            file_record readings file.1 (rows_if_manifest readings file.0 file.1),
            readings.sha256_file file.1,
          ))
        files
verify_lock-write_lock_and_sums_example =
    verify_lock-write_lock_and_sums readings hashed disk read protocol curation repository files
      packaged lines distinct sorted sealed written

abbrev or_none : Option Content → Lock
or_none (some (json_lock lock)) = lock
or_none other = record {
  protocol_id = none;
  protocol_version = none;
  source_repository_commit = none;
  audit_repository_commit = none;
  stage0_config_used_as_protocol_input = none;
  stage0_locked_config_sha256 = none;
  stage0_current_config_sha256 = none;
  manual_review_decisions_sha256 = none;
  files = none;
  tools = none;
  external_source_artifacts = none;
}

abbrev lock : Lock
lock = or_none (lookup lock_name sealed)

verified : verify_lock readings sealed ≡ ok (lock, hash (json_lock lock))
unfolding verify_lock write_lock_and_sums write_file read_lock relative_to read_sums split_lines
    text_of sums_entry partition same_set names entries_of package_records is_sorted check_digests
    check_files same
verified = refl

verify_lock-IsVerified_example : IsVerified readings sealed lock (hash (json_lock lock))
verify_lock-IsVerified_example =
    verify_lock-IsVerified readings sealed lock (hash (json_lock lock)) verified
