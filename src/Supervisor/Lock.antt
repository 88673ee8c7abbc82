-- ===== src/Supervisor/Lock.antt =====
-- `_write_lock_and_sums` of tools/build_supervisor_50x10_v1.py. A package is its files in the order of
-- their paths, which is the order of `_all_files`. The JSON text of a lock is the lock itself.
pub mod Check
pub mod Sealed
pub mod Locked
pub mod Outside
pub mod RoundTrip
pub mod Tampering
mod Tests
use fingerprint_full_matcher.Prelude.{
  ℕ, String, ◌<>◌, Bool, true, false, not, ◌&&◌, ◌||◌, Option, none, some, List, [], ◌∷◌, ◌++◌, map,
  ◌==◌, ltb, str_eq, if◌then◌else◌,
}
use mathlib.Core.List.{reverse}
use fingerprint_full_matcher.Prelude.Text.{codes}
use fingerprint_full_matcher.Prelude.Dict.{Dict, lookup}
use fingerprint_full_matcher.Prelude.Result.{
  Result, ok, err, ◌>>=◌, of_option, collect, Exception, value_error, os_error,
}
use fingerprint_full_matcher.Supervisor.Paths.{Parts, Disk, split_slash, source_path}

-- A dictionary of `_file_record`; `none` is a key that is missing.
pub record FileRecord : Type 0 where
  pub sha256 : Option String
  pub size_bytes : Option ℕ
  pub row_count : Option ℕ

pub record Lock : Type 0 where
  pub protocol_id : Option String
  pub protocol_version : Option ℕ
  pub source_repository_commit : Option String
  pub audit_repository_commit : Option String
  pub stage0_config_used_as_protocol_input : Option Bool
  pub stage0_locked_config_sha256 : Option String
  pub stage0_current_config_sha256 : Option String
  pub manual_review_decisions_sha256 : Option String
  pub files : Option (Dict FileRecord)
  pub tools : Option (Dict FileRecord)
  pub external_source_artifacts : Option (Dict FileRecord)

pub data Content : Type 0 where
  plain_text : String → Content
  json_lock : Lock → Content

-- What is read of a file: its hash and size, and how many rows `read_csv` yields. `dumps` is the text
-- that `write_json` writes, and `loads` what `read_json` makes of another text.
pub record Readings : Type 0 where
  pub sha256_file : Content → String
  pub size_of : Content → ℕ
  pub count_rows : Content → ℕ
  pub dumps : Lock → String
  pub loads : String → Result Exception Lock

abbrev pub lock_name : String
lock_name = "manifest_lock.json"

abbrev pub sums_name : String
sums_name = "SHA256SUMS.txt"

abbrev pub manual_name : String
manual_name = "config/manual_review_decisions.csv"

abbrev pub protocol_tools : List String
protocol_tools =
    "tools/build_supervisor_50x10_v1.py" ∷ "tools/validate_supervisor_50x10_v1.py"
    ∷ "tests/test_supervisor_50x10_v1.py" ∷ []

-- `sorted(set(SOURCE_BASE_MANIFESTS.values()) | {"config/manual_review_decisions.csv"})`
abbrev pub external_sources : List String
external_sources =
    manual_name ∷ "outputs/base_500_genuine_sd300b.csv" ∷ "outputs/base_500_genuine_sd300c.csv"
    ∷ "outputs/base_500_impostor_sd300b.csv" ∷ "outputs/base_500_impostor_sd300c.csv" ∷ []

abbrev pub lock_id : String
lock_id = "supervisor_50x10_v1"

abbrev pub source_commit : String
source_commit = "0893d50d08972fc68337749332ecdaa0faef2a70"

abbrev pub audit_commit : String
audit_commit = "a72e97f35b2a66ec6171a6ece25013ae1c371aef"

-- The order of texts, by code points.
unfoldable pub precedes : List ℕ → List ℕ → Bool
precedes cs [] = false
precedes [] (d ∷ ds) = true
precedes (c ∷ cs) (d ∷ ds) = ltb c d || c == d && precedes cs ds

-- The package after a file was written.
unfoldable pub write_file : String → Content → Dict Content → Dict Content
unfolding precedes
write_file name content [] = (name, content) ∷ []
write_file name content ((other, old) ∷ files) =
    let rest = write_file name content files in
    if str_eq name other
    then (name, content) ∷ files
    else if precedes (codes name) (codes other)
    then (name, content) ∷ (other, old) ∷ files
    else (other, old) ∷ rest

unfoldable pub is_prefix : List ℕ → List ℕ → Bool
is_prefix [] ds = true
is_prefix (c ∷ cs) [] = false
is_prefix (c ∷ cs) (d ∷ ds) = c == d && is_prefix cs ds

unfoldable pub ends_with : String → String → Bool
unfolding is_prefix
ends_with ending text = is_prefix (reverse (codes ending)) (reverse (codes text))

-- `relative.split("/", 1)[0] in RELEASES`
unfoldable pub in_release : Parts → Bool
in_release [] = false
in_release (p ∷ ps) = str_eq p "sd300b" || str_eq p "sd300c"

-- The test whether a file's rows are counted.
unfoldable pub is_manifest : String → Bool
unfolding ends_with in_release split_slash
is_manifest relative = ends_with ".csv" relative && in_release (split_slash relative)

-- `"\n".join(lines)`
unfoldable pub join_lines : List String → String
join_lines [] = ""
join_lines (l ∷ []) = l
join_lines (l ∷ m ∷ ls) = l <> ("\n" <> join_lines (m ∷ ls))

module _ (readings : Readings) where
  unfoldable pub file_record : Content → Option ℕ → FileRecord
  file_record content rows = record {
    sha256 = some (readings.sha256_file content);
    size_bytes = some (readings.size_of content);
    row_count = rows;
  }

  unfoldable pub rows_if_manifest : String → Content → Option ℕ
  unfolding is_manifest
  rows_if_manifest relative content =
      if is_manifest relative then some (readings.count_rows content) else none

  unfoldable pub package_records : Dict Content → Dict FileRecord
  unfolding file_record rows_if_manifest
  package_records [] = []
  package_records ((relative, content) ∷ files) =
      (relative, file_record content (rows_if_manifest relative content)) ∷ package_records files

  unfoldable pub sums_lines : Dict Content → List String
  sums_lines [] = []
  sums_lines ((relative, content) ∷ files) =
      let rest = sums_lines files in
      if str_eq relative sums_name
      then rest
      else (readings.sha256_file content <> ("  " <> relative)) ∷ rest

  unfoldable pub sums_text : Dict Content → String
  unfolding sums_lines join_lines
  sums_text files = join_lines (sums_lines files) <> "\n"

  -- `read` is the file at a path outside the package, if there is one.
  module _ (disk : Disk) (read : Parts → Option Content)
      (curation_root repository_root : Parts) where
    unfoldable pub tool_record : String → Result Exception (String × FileRecord)
    unfolding file_record split_slash
    tool_record relative = do
      content ←
          of_option (value_error ("required protocol tool is missing: " <> relative))
            (read (repository_root ++ split_slash relative))
      ok (relative, file_record content none)

    unfoldable pub source_record : String → Result Exception (String × FileRecord)
    unfolding file_record source_path
    source_record relative = do
      path ← source_path disk curation_root relative
      content ← of_option (os_error "No such file or directory") (read path)
      ok (relative, file_record content none)

    abbrev pub made_lock : Dict Content → Dict FileRecord → Dict FileRecord → Content → Lock
    made_lock files tools sources manual = record {
      protocol_id = some lock_id;
      protocol_version = some 1;
      source_repository_commit = some source_commit;
      audit_repository_commit = some audit_commit;
      stage0_config_used_as_protocol_input = some false;
      stage0_locked_config_sha256 =
          some "4903c78b3d93218e05b834fc4d9a4308defda894b1a7e47d3169f5aa07bc7570";
      stage0_current_config_sha256 =
          some "3c0fbd38861da31b5bb015f62d7332a58863527529580e5a8a8a66406529e7f3";
      manual_review_decisions_sha256 = some (readings.sha256_file manual);
      files = some (package_records files);
      tools = some tools;
      external_source_artifacts = some sources;
    }

    unfoldable pub write_lock_and_sums : Dict Content → Result Exception (Dict Content)
    unfolding tool_record source_record split_slash write_file sums_text
    write_lock_and_sums files = do
      tools ← collect tool_record protocol_tools
      sources ← collect source_record external_sources
      manual ←
          of_option (os_error "No such file or directory")
            (read (curation_root ++ split_slash manual_name))
      let locked = write_file lock_name (json_lock (made_lock files tools sources manual)) files
      ok (write_file sums_name (plain_text (sums_text locked)) locked)
