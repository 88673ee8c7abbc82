-- ===== src/Supervisor/Lock/Sealed.antt =====
-- What the builder locks and what the validator finds.
use fingerprint_full_matcher.Prelude.{
  String, true, false, some, List, [], ◌∷◌, ◌≡◌, refl, str_eq, eq_iff, arith,
}
use text.Mathlib.TextPositions.{eq_refl}
use fingerprint_full_matcher.Prelude.Dict.{Dict, lookup}
use fingerprint_full_matcher.Supervisor.Lock.{Content, Readings, sums_name, write_file, sums_lines}
use fingerprint_full_matcher.Supervisor.Lock.Check.{
  is_named, all_in, same_set, is_seal, expected_file_paths,
}

pub lookup-write_file :
    (name : String) (content : Content) (files : Dict Content)
    → lookup name (write_file name content files) ≡ some content
unfolding write_file
lookup-write_file name content [] = ground (arith, eq_refl name)
lookup-write_file name content ((other, old) ∷ files) =
    ground (arith, eq_refl name, lookup-write_file name content files)

pub lookup-write_file_other :
    (key name : String) (content : Content) (files : Dict Content)
    → str_eq key name ≡ false
    → lookup key (write_file name content files) ≡ lookup key files
unfolding write_file
lookup-write_file_other key name content [] h = ground arith
lookup-write_file_other key name content ((other, old) ∷ files) h =
    ground (arith, eq_iff name other, lookup-write_file_other key name content files h)

pub sums_lines-write_file :
    (readings : Readings) (content : Content) (files : Dict Content)
    → sums_lines readings (write_file sums_name content files) ≡ sums_lines readings files
unfolding write_file sums_lines
sums_lines-write_file readings content [] = refl
sums_lines-write_file readings content ((other, old) ∷ files) =
    ground (
      arith,
      eq_iff sums_name other,
      eq_refl sums_name,
      sums_lines-write_file readings content files,
    )

pub expected_file_paths-write_file :
    (name : String) (content : Content) (files : Dict Content)
    → is_seal name ≡ true
    → expected_file_paths (write_file name content files) ≡ expected_file_paths files
unfolding write_file expected_file_paths
expected_file_paths-write_file name content [] h = ground arith
expected_file_paths-write_file name content ((other, old) ∷ files) h =
    ground (arith, eq_iff name other, expected_file_paths-write_file name content files h)

all_in-cons : (y : String) (xs ys : List String) → all_in xs ys ≡ true → all_in xs (y ∷ ys) ≡ true
unfolding all_in is_named
all_in-cons y [] ys h = refl
all_in-cons y (x ∷ xs) ys h = ground (arith, all_in-cons y xs ys)

all_in_refl : (xs : List String) → all_in xs xs ≡ true
unfolding all_in is_named
all_in_refl [] = refl
all_in_refl (x ∷ xs) = rw (eq_refl x, all_in-cons x xs xs (all_in_refl xs))

pub same_set_refl : (xs : List String) → same_set xs xs ≡ true
unfolding same_set
same_set_refl xs = rw (all_in_refl xs)
