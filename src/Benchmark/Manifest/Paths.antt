-- ===== src/Benchmark/Manifest/Paths.antt =====
-- `_resolve_dataset_path` of src/fingerprint_benchmark/manifest.py. A path is the list of its parts,
-- each the codes of its characters; `lower` is that of ASCII.
pub mod Inside
use fingerprint_full_matcher.Prelude.{
  ℕ, ◌+◌, String, ◌<>◌, Bool, true, false, not, ◌&&◌, ◌||◌, Option, none, some, List, [], ◌∷◌, ◌++◌,
  map, ◌==◌, if◌then◌else◌,
}
use fingerprint_full_matcher.Prelude.Text.{codes, in_range}
use fingerprint_full_matcher.Prelude.Result.{Result, ok, err, ◌>>=◌, ◌>>◌, require, Exception}

abbrev pub Parts : Type 0
Parts = List (List ℕ)

-- `ManifestValidationError`, and the other exceptions.
pub data ManifestError : Type 0 where
  manifest_error : String → ManifestError
  raised : Exception → ManifestError

unfoldable pub same_codes : List ℕ → List ℕ → Bool
same_codes [] [] = true
same_codes (a ∷ s) (b ∷ t) = a == b && same_codes s t
same_codes _ _ = false

unfoldable pub same_parts : Parts → Parts → Bool
unfolding same_codes
same_parts [] [] = true
same_parts (a ∷ s) (b ∷ t) = same_codes a b && same_parts s t
same_parts _ _ = false

-- Whether the second path is the first or lies below it.
unfoldable pub is_below : Parts → Parts → Bool
unfolding same_codes
is_below [] path = true
is_below (a ∷ s) (b ∷ t) = same_codes a b && is_below s t
is_below (a ∷ s) [] = false

unfoldable pub has_part : List ℕ → Parts → Bool
unfolding same_codes
has_part part [] = false
has_part part (p ∷ ps) = same_codes part p || has_part part ps

-- The pieces between the slashes.
unfoldable pub pieces : List ℕ → List ℕ → Parts
pieces current [] = current ∷ []
pieces current (c ∷ cs) =
    let ended = pieces [] cs in
    let longer = pieces (current ++ (c ∷ [])) cs in if c == 47 then current ∷ ended else longer

-- `PurePosixPath` drops empty pieces and single dots.
unfoldable pub kept : Parts → Parts
unfolding same_codes
kept [] = []
kept (p ∷ ps) =
    let rest = kept ps in if same_codes p [] || same_codes p (46 ∷ []) then rest else p ∷ rest

unfoldable pub posix_parts : String → Parts
unfolding pieces kept
posix_parts relative = kept (pieces [] (codes relative))

unfoldable pub starts_with_slash : List ℕ → Bool
starts_with_slash [] = false
starts_with_slash (c ∷ cs) = c == 47

unfoldable pub is_absolute : String → Bool
unfolding starts_with_slash
is_absolute relative = starts_with_slash (codes relative)

unfoldable pub lowered : List ℕ → List ℕ
lowered = map λ c. if in_range 65 90 c then c + 32 else c

unfoldable pub has_colon : List ℕ → Bool
has_colon [] = false
has_colon (c ∷ cs) = c == 58 || has_colon cs

-- The part that must name the release.
unfoldable pub matches_release : Parts → String → Bool
unfolding has_colon lowered same_codes
matches_release [] release = false
matches_release (first ∷ rest) release =
    not (has_colon first) && same_codes (lowered first) (lowered (codes release))

-- The disk: `resolve` follows links and removes what is not needed.
pub record Disk : Type 0 where
  pub resolve : Parts → Parts
  pub is_file : Parts → Bool
  -- `str(path)`
  pub path_text : Parts → String

unfoldable pub is_empty_parts : Parts → Bool
is_empty_parts [] = true
is_empty_parts (p ∷ ps) = false

-- `..`
abbrev pub parent : List ℕ
parent = 46 ∷ 46 ∷ []

unfoldable pub resolve_dataset_path : Disk → Parts → String → String → Result ManifestError Parts
unfolding matches_release
resolve_dataset_path disk dataset_root relative release =
    let posix = posix_parts relative in
    let root = disk.resolve dataset_root in
    let resolved = disk.resolve (root ++ posix) in
    do
      require
          (not (
            is_absolute relative
            || is_empty_parts posix
            || has_part parent posix
            || has_part (46 ∷ []) posix))
          (manifest_error ("unsafe relative image path: " <> relative))
      require (matches_release posix release)
          (manifest_error ("image path does not match release: " <> relative))
      require (is_below root resolved)
          (manifest_error ("image path escapes dataset root: " <> relative))
      require (disk.is_file resolved) (manifest_error ("image file does not exist: " <> relative))
      ok resolved
