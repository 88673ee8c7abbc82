-- ===== src/Supervisor/Paths/Resolved.antt =====
-- The validator's image paths and the reader's, on one disk whose paths are texts for one and codes for
-- the other.
use mathlib.Core.List.{map-append}
use fingerprint_full_matcher.Prelude.{
  String, true, false, not, ◌||◌, none, some, [], ◌∷◌, ◌++◌, map, ◌≡◌, ◌∙◌, refl, ap, sym,
  Option-cases, inl, inr, arith, All,
}
use fingerprint_full_matcher.Prelude.Text.{codes}
use fingerprint_full_matcher.Prelude.Result.{ok}
use fingerprint_full_matcher.Benchmark.Manifest.Paths
use fingerprint_full_matcher.Benchmark.Manifest.Paths.{
  same_codes, is_below, has_part, pieces, kept, posix_parts, starts_with_slash, is_absolute,
  lowered, has_colon, matches_release, is_empty_parts, parent, resolve_dataset_path,
}
use fingerprint_full_matcher.Supervisor.{Release, release_name}
use fingerprint_full_matcher.Supervisor.Paths.Codes.{
  first_codes, ahead, starts_with_slash_lem, kept-codes, has_part-codes, has_code-first_codes,
  split_slash_cons, pieces-split_slash, safe_codes, matches_release-is_under, is_below-relative_to,
}
use fingerprint_full_matcher.Supervisor.Paths.Images.{
  IsPlain, image_relative-accepted, image_relative-same_file,
}
use fingerprint_full_matcher.Supervisor.Paths.{
  Parts, Disk, split_slash, relative_to, has_code, is_unsafe, is_dotted, any_dotted, is_under,
  validate_dataset_path, path_message, image_relative,
}

-- What the validator has tested of a path about which it has no message.
record IsAllowed (disk : Disk) (root : Parts) (release : Release) (value : String) : Type 0 where
  pub safe : is_unsafe value ≡ false
  pub undotted : any_dotted (split_slash value) ≡ false
  pub under : is_under release (split_slash value) ≡ true
  pub rest : Parts
  pub inside :
      relative_to (disk.resolve root) (disk.resolve (disk.resolve root ++ split_slash value))
      ≡ some rest
  pub here : disk.is_file (disk.resolve (disk.resolve root ++ split_slash value)) ≡ true

path_message-IsAllowed :
    (disk : Disk) (root : Parts) (release : Release) (value context : String)
    → path_message disk root release value context ≡ none
    → IsAllowed disk root release value
unfolding path_message
path_message-IsAllowed disk root release value context h =
    elim (Option-cases
      (relative_to (disk.resolve root) (disk.resolve (disk.resolve root ++ split_slash value)))) [
        | inl outside ↦ absurd (ground arith)
        | inr (rest, inside) ↦ record {
          safe = ground arith;
          undotted = ground arith;
          under = ground arith;
          rest = rest;
          inside = inside;
          here = ground arith;
        }
      ]

posix_parts-split_slash :
    (value : String)
    → any_dotted (split_slash value) ≡ false
    → posix_parts value ≡ map codes (split_slash value)
unfolding posix_parts ahead
posix_parts-split_slash value undotted =
    let (p, ps, e) = split_slash_cons value in
    let whole : ahead [] (map codes (split_slash value)) ≡ map codes (split_slash value) =
      rw e refl in
    ap kept (pieces-split_slash [] value ∙ whole) ∙ kept-codes (split_slash value) undotted

module _ (disk : Disk) (reader : Paths.Disk) (root : Parts) (release : Release)
    (resolves : (path : Parts) → reader.resolve (map codes path) ≡ map codes (disk.resolve path))
    (files : (path : Parts) → reader.is_file (map codes path) ≡ disk.is_file path) where
  module _ (value : String) (allowed : IsAllowed disk root release value) where
    abbrev target : Parts
    target = disk.resolve (disk.resolve root ++ split_slash value)

    posix : posix_parts value ≡ map codes (split_slash value)
    posix = posix_parts-split_slash value allowed.undotted

    resolved :
        reader.resolve (reader.resolve (map codes root) ++ posix_parts value) ≡ map codes target
    resolved =
        ap (λ parts. reader.resolve (parts ++ posix_parts value)) (resolves root)
        ∙ ap (λ parts. reader.resolve (map codes (disk.resolve root) ++ parts)) posix
        ∙ ap reader.resolve (sym (map-append codes (disk.resolve root) (split_slash value)))
        ∙ resolves (disk.resolve root ++ split_slash value)

    normal :
        not (
          is_absolute value
          || is_empty_parts (posix_parts value)
          || has_part parent (posix_parts value)
          || has_part (46 ∷ []) (posix_parts value))
        ≡ true
    unfolding is_absolute is_empty_parts is_dotted
    normal =
        let (p, ps, e) = split_slash_cons value in
        rw
          (
            posix,
            starts_with_slash_lem (codes value),
            (safe_codes value allowed.safe).1,
            has_part-codes ".." (split_slash value) refl allowed.undotted,
            has_part-codes "." (split_slash value) refl allowed.undotted,
            e,
          )
          refl

    named : matches_release (posix_parts value) (release_name release) ≡ true
    unfolding first_codes
    named =
        let (p, ps, e) = split_slash_cons value in
        let colon : has_code 58 (codes p) ≡ false =
          ap (λ qs. has_code 58 (first_codes qs)) (sym e)
          ∙ has_code-first_codes 58 value (safe_codes value allowed.safe).0 in
        rw (posix, e)
          (matches_release-is_under release p ps colon
            (ap (is_under release) (sym e) ∙ allowed.under))

    resolved_below : is_below (reader.resolve (map codes root)) (map codes target) ≡ true
    resolved_below =
        ap (λ parts. is_below parts (map codes target)) (resolves root)
        ∙ is_below-relative_to (disk.resolve root) target allowed.rest allowed.inside

    resolve_dataset_path-IsAllowed :
        resolve_dataset_path reader (map codes root) value (release_name release)
        ≡ ok (map codes target)
    unfolding resolve_dataset_path
    resolve_dataset_path-IsAllowed =
        rw (normal, named, resolved, resolved_below, files target, allowed.here) refl

  -- An image path about which the validator has no message, the reader resolves.
  validated :
      (value context : String)
      → validate_dataset_path disk root release (some value) context ≡ none
      → resolve_dataset_path reader (map codes root) value (release_name release)
        ≡ ok (map codes (disk.resolve (disk.resolve root ++ split_slash value)))
  unfolding validate_dataset_path
  validated value context h =
      resolve_dataset_path-IsAllowed value
        (path_message-IsAllowed disk root release value context h)

  -- For a reader that sees the builder's disk, where `resolve` is stable and the names of resolved paths
  -- below the dataset's root are plain: the text that the builder writes for an image path that it accepts
  -- is one that the reader accepts for that release, and resolves to the file that the path leads to.
  pub resolve_dataset_path-image_relative :
      (stable : (path : Parts) → disk.resolve (disk.resolve path) ≡ disk.resolve path)
      (plain : (path rest : Parts)
        → relative_to (disk.resolve root) (disk.resolve path) ≡ some rest
        → All IsPlain rest)
      (source text : String)
      → image_relative disk root release (some source) ≡ ok text
      → resolve_dataset_path reader (map codes root) text (release_name release)
        ≡ ok (map codes (disk.resolve (disk.parse source)))
  resolve_dataset_path-image_relative stable plain source text h =
      validated text ""
        (image_relative-accepted disk root release stable plain (some source) text "" h).0
      ∙ ap (λ path. ok (map codes path))
          (image_relative-same_file disk root release stable plain source text h)
