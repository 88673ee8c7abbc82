-- ===== src/Supervisor/Lock/Tests.antt =====
-- A small package, locked and validated. The hash of a text is the text.
use fingerprint_full_matcher.Prelude.{
  ℕ, String, true, Option, none, some, List, [], ◌∷◌, ◌≡◌, ◌⊎◌, inl, inr, refl, All, length,
}
use fingerprint_full_matcher.Prelude.Text.{codes}
use fingerprint_full_matcher.Prelude.Dict.{Dict, lookup}
use fingerprint_full_matcher.Prelude.Result.{Result, ok, err, Exception, value_error}
use fingerprint_full_matcher.Supervisor.{same}
use fingerprint_full_matcher.Supervisor.Paths.{
  Parts, Disk, split_slash, relative_to, is_unsafe, any_dotted, as_posix,
}
use fingerprint_full_matcher.Supervisor.Lock.{
  lock_name, Lock, Content, plain_text, json_lock, Readings, write_file, write_lock_and_sums,
  package_records,
}
use fingerprint_full_matcher.Supervisor.Lock.Check.{validate_lock, validate_sums, is_seal}
use fingerprint_full_matcher.Supervisor.Lock.Locked.{IsPackaged}
use fingerprint_full_matcher.Supervisor.Lock.RoundTrip.{write_lock_and_sums-validated}
use fingerprint_full_matcher.Supervisor.Lock.Tampering.{IsLocked, validate_lock-IsLocked}

abbrev hash : Content → String
hash (plain_text text) = text
hash (json_lock lock) = "lock"

abbrev size : Content → ℕ
size (plain_text text) = length (codes text)
size (json_lock lock) = 4

abbrev readings : Readings
readings = record {
  sha256_file = hash;
  size_of = size;
  count_rows = λ content. 2;
  dumps = λ lock. "{}";
  loads = λ text. err (value_error "Expecting value");
}

abbrev disk : Disk
disk = record {
  parse = split_slash;
  resolve = λ parts. parts;
  is_file = λ parts. true;
  quoted = λ text. "";
}

abbrev read : Parts → Option Content
read path = some (plain_text "source")

abbrev files : Dict Content
files = ("README.md", plain_text "about") ∷ ("sd300b/self.csv", plain_text "rows") ∷ []

abbrev protocol : Parts
protocol = "p" ∷ []

abbrev curation : Parts
curation = "c" ∷ []

abbrev repository : Parts
repository = "r" ∷ []

abbrev write : Dict Content → Result Exception (Dict Content)
write = write_lock_and_sums readings disk read curation repository

abbrev check : Dict Content → Result Exception (List String)
check = validate_lock readings read disk protocol curation repository

abbrev or_empty : Result Exception (Dict Content) → Dict Content
or_empty (ok files) = files
or_empty (err raised) = []

abbrev sealed : Dict Content
sealed = or_empty (write files)

written : write files ≡ ok sealed
unfolding write_lock_and_sums relative_to
written = refl

-- A row more in a manifest, and a file that is not locked.
changed :
    check (write_file "sd300b/self.csv" (plain_text "rows, one more") sealed)
    ≡ ok ("locked package file changed: sd300b/self.csv" ∷ [])
unfolding validate_lock write_lock_and_sums package_records same
changed = refl

added :
    check (write_file "notes.txt" (plain_text "n") sealed)
    ≡ ok ("manifest lock file set does not match protocol package" ∷ [])
unfolding validate_lock write_lock_and_sums package_records same
added = refl

packaged : All (IsPackaged disk protocol files) files
unfolding is_seal is_unsafe any_dotted as_posix
packaged = (
  record {
    ordinary = refl;
    once = refl;
    safe = refl;
    undotted = refl;
    unlinked = refl;
    whole = refl;
  },
  (
    record {
      ordinary = refl;
      once = refl;
      safe = refl;
      undotted = refl;
      unlinked = refl;
      whole = refl;
    },
    tt,
  ),
)

write_lock_and_sums-validated_example :
    (check sealed ≡ ok []) × (validate_sums readings sealed ≡ [])
write_lock_and_sums-validated_example =
    write_lock_and_sums-validated readings disk read protocol curation repository files packaged
      (λ path. refl) refl sealed written

abbrev or_none : Option Content → Lock
or_none (some (json_lock lock)) = lock
or_none other = record {
  protocol_id = none;
  protocol_version = none;
  source_repository_commit = none;
  audit_repository_commit = none;
  stage0_config_used_as_protocol_input = none;
  stage0_locked_config_sha256 = none;
  stage0_current_config_sha256 = none;
  manual_review_decisions_sha256 = none;
  files = none;
  tools = none;
  external_source_artifacts = none;
}

abbrev lock : Lock
lock = or_none (lookup lock_name sealed)

held : lookup lock_name sealed ≡ some (json_lock lock)
unfolding write_lock_and_sums relative_to
held = refl

checked : check sealed ≡ ok []
unfolding validate_lock write_lock_and_sums package_records same
checked = refl

sealed-IsPackaged :
    All (λ file. (is_seal file.0 ≡ true) ⊎ IsPackaged disk protocol sealed file) sealed
unfolding is_seal is_unsafe any_dotted as_posix write_lock_and_sums relative_to
sealed-IsPackaged = (
  inr (record {
    ordinary = refl;
    once = refl;
    safe = refl;
    undotted = refl;
    unlinked = refl;
    whole = refl;
  }),
  (
    inl refl,
    (
      inl refl,
      (
        inr (record {
          ordinary = refl;
          once = refl;
          safe = refl;
          undotted = refl;
          unlinked = refl;
          whole = refl;
        }),
        tt,
      ),
    ),
  ),
)

validate_lock-IsLocked_example :
    All (λ file. (is_seal file.0 ≡ true) ⊎ IsLocked readings lock file) sealed
validate_lock-IsLocked_example =
    validate_lock-IsLocked readings read disk protocol curation repository sealed lock
      sealed-IsPackaged held checked
