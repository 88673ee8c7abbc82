-- ===== src/Supervisor/Lock/Outside.antt =====
-- The entries that the builder makes of files outside the package, as the validator reads them.
use fingerprint_full_matcher.Prelude.{
  String, ◌<>◌, Option, none, some, List, [], ◌∷◌, ◌++◌, ◌≡◌, ◌∙◌, refl, ap, sym, arith,
}
use fingerprint_full_matcher.Prelude.Dict.{Dict}
use fingerprint_full_matcher.Prelude.Result.{
  Result, ok, ◌>>=◌, of_option, of_option_iff, collect, collect-cons, bind_returned, ok-injective,
  Exception, value_error, os_error,
}
use fingerprint_full_matcher.Supervisor.Paths.{Parts, Disk, split_slash, source_path}
use fingerprint_full_matcher.Supervisor.Lock.{
  FileRecord, Content, Readings, file_record, tool_record, source_record,
}
use fingerprint_full_matcher.Supervisor.Lock.Check.{keys, each_item, outside_errors}
use fingerprint_full_matcher.Supervisor.Lock.Locked.{unchanged}

-- What holds of each entry that is made holds of the loops over the entries.
pub each_item-collect :
    (make : String → Result Exception (String × FileRecord))
    (check : String × FileRecord → Result Exception (List String))
    → ((name : String) (item : String × FileRecord)
        → make name ≡ ok item
        → (item.0 ≡ name) × (check item ≡ ok []))
    → (names : List String) (entries : Dict FileRecord) → collect make names ≡ ok entries
    → (keys entries ≡ names) × (each_item check entries ≡ ok [])
unfolding keys each_item
each_item-collect make check h [] entries made = rw (sym (ok-injective made)) (refl, refl)
each_item-collect make check h (name ∷ names) entries made =
    let (item, items, first, rest, whole) = collect-cons make name names entries made in
    let (named, right) = h name item first in
    let (all_named, all_right) = each_item-collect make check h names items rest in
    rw (sym whole) (rw (named, all_named) refl, rw (right, all_right) refl)

module _ (readings : Readings) (disk : Disk) (read : Parts → Option Content) (root : Parts) where
  -- The entry of a file that is read is the record of its content.
  outside_errors-unchanged :
      (message name : String) (content : Content)
      → read (root ++ split_slash name) ≡ some content
      → outside_errors readings read root message (name, file_record readings content none) ≡ ok []
  unfolding outside_errors
  outside_errors-unchanged message name content there =
      rw (there, unchanged readings content none, outside_errors) refl

  pub outside_errors-tool :
      (curation : Parts) (message name : String) (item : String × FileRecord)
      → tool_record readings disk read curation root name ≡ ok item
      → (item.0 ≡ name) × (outside_errors readings read root message item ≡ ok [])
  unfolding tool_record
  outside_errors-tool curation message name item made =
      let (content, found, whole) =
        bind_returned
          (of_option (value_error ("required protocol tool is missing: " <> name))
            (read (root ++ split_slash name)))
          (λ content. ok (name, file_record readings content none)) made in
      let there = (of_option_iff _ (read (root ++ split_slash name)) content).0 found in
      rw (sym (ok-injective whole)) (refl, outside_errors-unchanged message name content there)

  source_path-resolves :
      (relative : String) (path : Parts)
      → source_path disk root relative ≡ ok path
      → path ≡ disk.resolve (disk.resolve root ++ split_slash relative)
  unfolding source_path
  source_path-resolves relative path h = ground arith

  pub outside_errors-source :
      (repository : Parts)
      → ((path : Parts) → read (disk.resolve path) ≡ read path)
      → disk.resolve root ≡ root
      → (message name : String) (item : String × FileRecord)
      → source_record readings disk read root repository name ≡ ok item
      → (item.0 ≡ name) × (outside_errors readings read root message item ≡ ok [])
  unfolding source_record
  outside_errors-source repository follows resolved message name item made =
      let (path, path_made, rest) =
        bind_returned (source_path disk root name)
          (λ path. do
            content ← of_option (os_error "No such file or directory") (read path)
            ok (name, file_record readings content none))
          made in
      let (content, found, whole) =
        bind_returned (of_option (os_error "No such file or directory") (read path))
          (λ content. ok (name, file_record readings content none)) rest in
      let there = (of_option_iff _ (read path) content).0 found in
      let place =
        sym (follows (root ++ split_slash name))
        ∙ ap (λ base. read (disk.resolve (base ++ split_slash name))) (sym resolved)
        ∙ ap read (sym (source_path-resolves name path path_made))
        ∙ there in
      rw (sym (ok-injective whole)) (refl, outside_errors-unchanged message name content place)
