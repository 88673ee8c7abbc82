-- ===== src/Benchmark/Manifest/Lock/Readable.antt =====
-- The names that the reader takes from a line of the sums, and those of a package.
use fingerprint_full_matcher.Prelude.{
  String, true, false, [], ◌∷◌, ◌≡◌, ◌∙◌, refl, ap, str_eq, arith,
}
use fingerprint_full_matcher.Prelude.Text.{codes, is_empty}
use fingerprint_full_matcher.Prelude.Dict.{Dict}
use fingerprint_full_matcher.Benchmark.Manifest.Paths.{is_absolute}
use fingerprint_full_matcher.Benchmark.Manifest.Lock.{kept_parts}
use fingerprint_full_matcher.Benchmark.Manifest.Lock.Sums.{is_line}
use fingerprint_full_matcher.Supervisor.Paths.Codes.{starts_with_slash_lem}
use fingerprint_full_matcher.Supervisor.Paths.{
  Parts, Disk, split_slash, as_posix, has_parent, is_unsafe, any_dotted, is_dotted,
}
use fingerprint_full_matcher.Supervisor.Lock.{Content, lock_name, sums_name}
use fingerprint_full_matcher.Supervisor.Lock.Check.{is_seal}
use fingerprint_full_matcher.Supervisor.Lock.Locked.{IsPackaged, not_seal}

-- A name that the reader takes from a line of the sums.
pub record IsReadable (name : String) : Type 0 where
  pub not_sums : str_eq name sums_name ≡ false
  pub one_line : is_line name ≡ true
  pub full : is_empty name ≡ false
  pub relative : is_absolute name ≡ false
  pub no_parent : has_parent (split_slash name) ≡ false
  pub kept : as_posix (kept_parts (split_slash name)) ≡ name

has_parent-any_dotted : (ps : Parts) → any_dotted ps ≡ false → has_parent ps ≡ false
unfolding has_parent any_dotted is_dotted
has_parent-any_dotted [] h = refl
has_parent-any_dotted (p ∷ ps) h = ground (arith, has_parent-any_dotted ps)

kept_parts-any_dotted : (ps : Parts) → any_dotted ps ≡ false → kept_parts ps ≡ ps
unfolding kept_parts any_dotted is_dotted
kept_parts-any_dotted [] h = refl
kept_parts-any_dotted (p ∷ ps) h = ground (arith, kept_parts-any_dotted ps)

pub IsPackaged-IsReadable :
    (disk : Disk) (root : Parts) (files : Dict Content) (file : String × Content)
    → IsPackaged disk root files file
    → is_line file.0 ≡ true
    → IsReadable file.0
unfolding is_unsafe is_absolute is_seal
IsPackaged-IsReadable disk root files file packaged line = record {
  not_sums = not_seal file.0 sums_name refl packaged.ordinary;
  one_line = line;
  full = let h = packaged.safe in ground (arith);
  relative = let h = packaged.safe in starts_with_slash_lem (codes file.0) ∙ ground (arith);
  no_parent = has_parent-any_dotted (split_slash file.0) packaged.undotted;
  kept =
      ap as_posix (kept_parts-any_dotted (split_slash file.0) packaged.undotted) ∙ packaged.whole;
}

pub lock_name-IsReadable : IsReadable lock_name
unfolding is_line is_absolute has_parent kept_parts as_posix split_slash
lock_name-IsReadable = record {
  not_sums = refl;
  one_line = refl;
  full = refl;
  relative = refl;
  no_parent = refl;
  kept = refl;
}
