-- ===== src/Supervisor/Paths/Sources.antt =====
-- The builder and the validator allow the same source paths, all of them below the root.
use fingerprint_full_matcher.Prelude.{String, false, none, ◌≡◌, ◌≢◌, ◌↔◌, arith}
use fingerprint_full_matcher.Prelude.Result.{ok}
use fingerprint_full_matcher.Supervisor.Paths.{
  Parts, Disk, split_slash, relative_to, is_unsafe, any_dotted, source_path,
  safe_relative_source_path,
}

module _ (disk : Disk) (root : Parts) (relative : String) (path : Parts) where
  to_safe :
      source_path disk root relative ≡ ok path
      → safe_relative_source_path disk root relative ≡ ok path
  unfolding source_path safe_relative_source_path
  to_safe h = ground arith

  from_safe :
      safe_relative_source_path disk root relative ≡ ok path
      → source_path disk root relative ≡ ok path
  unfolding source_path safe_relative_source_path
  from_safe h = ground arith

  below : source_path disk root relative ≡ ok path → relative_to (disk.resolve root) path ≢ none
  unfolding source_path
  below h e = ground arith

  named :
      source_path disk root relative ≡ ok path
      → (is_unsafe relative ≡ false) × (any_dotted (split_slash relative) ≡ false)
  unfolding source_path
  named h = (ground arith, ground arith)

  -- The builder allows a source path, and resolves it to the same path, exactly if the validator does;
  -- such a path lies below the root, wherever links lead, and its text is relative and has no part
  -- that is empty, a dot or two dots.
  pub source_path-safe :
      (source_path disk root relative ≡ ok path
        ↔ safe_relative_source_path disk root relative ≡ ok path)
      × (source_path disk root relative ≡ ok path
          → (relative_to (disk.resolve root) path ≢ none)
            × (is_unsafe relative ≡ false)
            × (any_dotted (split_slash relative) ≡ false))
  source_path-safe = ((to_safe, from_safe), λ h. (below h, (named h).0, (named h).1))
