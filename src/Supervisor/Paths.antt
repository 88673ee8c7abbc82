-- ===== src/Supervisor/Paths.antt =====
-- The paths of tools/build_supervisor_50x10_v1.py and tools/validate_supervisor_50x10_v1.py: those
-- of source files under a root (`_source_path`, `_safe_relative_source_path`), and those of images
-- (`_image_relative`, `_source_path_as_relative`, `_validate_dataset_path`). A path is the list of its
-- parts; `lower` is that of ASCII.
pub mod Split
pub mod Images
pub mod Sources
pub mod Codes
pub mod Resolved
use fingerprint_full_matcher.Prelude.{
  ℕ, String, ◌<>◌, Bool, true, false, not, ◌&&◌, ◌||◌, Option, none, some, List, [], ◌∷◌, ◌++◌,
  ◌==◌, str_eq, if◌then◌else◌,
}
use Prim.Native.Char.{Char, code}
use fingerprint_full_matcher.Prelude.Text.{codes, is_empty}
use fingerprint_full_matcher.Prelude.Result.{
  Result, ok, err, ◌>>=◌, ◌>>◌, require, of_option, Exception, value_error, type_error,
}
use fingerprint_full_matcher.Benchmark.Manifest.Paths.{lowered, same_codes}
use fingerprint_full_matcher.Supervisor.{Release, release_name, shown}

abbrev pub Parts : Type 0
Parts = List String

-- The disk: `parse` is `Path(text)`, `resolve` follows links and removes what is not needed. `quoted`
-- is `!r` of a text.
pub record Disk : Type 0 where
  pub parse : String → Parts
  pub resolve : Parts → Parts
  pub is_file : Parts → Bool
  pub quoted : Option String → String

-- The character before the first piece.
unfoldable pub prepend : Char → Parts → Parts
prepend c [] = (String.◌∷◌ c "") ∷ []
prepend c (p ∷ ps) = (String.◌∷◌ c p) ∷ ps

-- `text.split("/")`
unfoldable pub split_slash : String → Parts
unfolding prepend
split_slash String.[] = "" ∷ []
split_slash (String.◌∷◌ c s) =
    let rest = split_slash s in if code c == 47 then "" ∷ rest else prepend c rest

-- `"/".join(parts)`
unfoldable pub join_slash : Parts → String
join_slash [] = ""
join_slash (p ∷ []) = p
join_slash (p ∷ q ∷ ps) = p <> ("/" <> join_slash (q ∷ ps))

-- `path.as_posix()` of a relative path.
unfoldable pub as_posix : Parts → String
unfolding join_slash
as_posix [] = "."
as_posix (p ∷ ps) = join_slash (p ∷ ps)

-- `path.relative_to(root)`; `none` is `ValueError`.
unfoldable pub relative_to : Parts → Parts → Option Parts
relative_to [] path = some path
relative_to (a ∷ root) (b ∷ path) = if str_eq a b then relative_to root path else none
relative_to (a ∷ root) [] = none

unfoldable pub has_code : ℕ → List ℕ → Bool
has_code n [] = false
has_code n (c ∷ cs) = c == n || has_code n cs

unfoldable pub starts_with : ℕ → List ℕ → Bool
starts_with n [] = false
starts_with n (c ∷ cs) = c == n

-- `not value or "\\" in value or ":" in value or value.startswith("/")`
unfoldable pub is_unsafe : String → Bool
unfolding has_code starts_with
is_unsafe value =
    is_empty value
    || has_code 92 (codes value)
    || has_code 58 (codes value)
    || starts_with 47 (codes value)

unfoldable pub is_dotted : String → Bool
is_dotted part = is_empty part || str_eq part "." || str_eq part ".."

-- `any(part in ("", ".", "..") for part in parts)`
unfoldable pub any_dotted : Parts → Bool
unfolding is_dotted
any_dotted [] = false
any_dotted (p ∷ ps) = is_dotted p || any_dotted ps

unfoldable pub has_parent : Parts → Bool
has_parent [] = false
has_parent (p ∷ ps) = str_eq p ".." || has_parent ps

-- `parts[0].lower() == release`
unfoldable pub is_under : Release → Parts → Bool
is_under release [] = false
is_under release (p ∷ ps) = same_codes (lowered (codes p)) (codes (release_name release))

module _ (disk : Disk) (root : Parts) where
  unfoldable pub source_path : String → Result Exception Parts
  unfolding is_unsafe any_dotted
  source_path relative =
      let message =
        value_error ("unsafe curation-relative path: " <> disk.quoted (some relative)) in
      let parts = split_slash relative in
      let resolved_root = disk.resolve root in
      let resolved = disk.resolve (resolved_root ++ parts) in
      do
        require (not (is_unsafe relative)) message
        require (not (any_dotted parts)) message
        inside ← of_option (value_error "not in the subpath") (relative_to resolved_root resolved)
        ok resolved

  unfoldable pub safe_relative_source_path : String → Result Exception Parts
  unfolding is_unsafe any_dotted
  safe_relative_source_path relative =
      let message = value_error ("unsafe source-relative path: " <> disk.quoted (some relative)) in
      let parts = split_slash relative in
      let resolved_root = disk.resolve root in
      let resolved = disk.resolve (resolved_root ++ parts) in
      do
        require (not (is_unsafe relative)) message
        require (not (any_dotted parts)) message
        inside ←
            of_option
              (value_error ("source path escapes curation root: " <> disk.quoted (some relative)))
              (relative_to resolved_root resolved)
        ok resolved

-- `dataset_root` as it is passed; each function resolves it again.
module _ (disk : Disk) (dataset_root : Parts) (release : Release) where
  relative_image : String → Result Exception String
  unfolding relative_to has_parent is_under as_posix split_slash
  relative_image source_path =
      let path = disk.resolve (disk.parse source_path) in
      do
        relative ←
            of_option (value_error ("image path escapes dataset root: " <> source_path))
              (relative_to (disk.resolve dataset_root) path)
        require
            (not (has_parent relative || not (is_under release (split_slash (as_posix relative)))))
            (value_error
              ("image path is not under " <> release_name release <> ": " <> source_path))
        require (disk.is_file path)
            (value_error ("referenced image does not exist: " <> source_path))
        ok (as_posix relative)

  unfoldable pub image_relative : Option String → Result Exception String
  unfolding relative_image
  image_relative none = err (type_error "Path(None)")
  image_relative (some source_path) = relative_image source_path

  relative_source : String → Result Exception String
  unfolding relative_to is_under as_posix split_slash
  relative_source source_path =
      let path = disk.resolve (disk.parse source_path) in
      do
        relative ←
            of_option (value_error "not in the subpath")
              (relative_to (disk.resolve dataset_root) path)
        require
            (not
              (not (disk.is_file path) || not (is_under release (split_slash (as_posix relative)))))
            (value_error
              ("source image path is invalid for " <> release_name release <> ": " <> source_path))
        ok (as_posix relative)

  unfoldable pub source_path_as_relative : Option String → Result Exception String
  unfolding relative_source
  source_path_as_relative none = err (type_error "Path(None)")
  source_path_as_relative (some source_path) = relative_source source_path

  -- The message that `_validate_dataset_path` appends, if any, about a path that is a text.
  path_message : String → String → Option String
  unfolding is_unsafe split_slash any_dotted is_under relative_to
  path_message value context =
      let says = λ (what : String). some (context <> what <> disk.quoted (some value)) in
      let parts = split_slash value in
      let root = disk.resolve dataset_root in
      let target = disk.resolve (root ++ parts) in
      if is_unsafe value
      then says ": path is not a normalized relative path: "
      else if any_dotted parts
      then says ": path contains an unsafe component: "
      else if not (is_under release parts)
      then says (": path is outside release " <> release_name release <> ": ")
      else elim (relative_to root target) [
        | none ↦ says ": path escapes dataset root: "
        | some inside ↦
            if disk.is_file target then none else says ": referenced image does not exist: "
      ]

  unfoldable pub validate_dataset_path : Option String → String → Option String
  unfolding path_message
  validate_dataset_path none context =
      some (context <> ": path is not a normalized relative path: " <> disk.quoted none)
  validate_dataset_path (some value) context = path_message value context
