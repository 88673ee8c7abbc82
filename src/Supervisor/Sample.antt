-- ===== src/Supervisor/Sample.antt =====
-- A cohort of two subjects, a disk with one image below the dataset's root, and their source rows.
use Prim.Native.String.{count}
use fingerprint_full_matcher.Prelude.{
  ℕ, zero, suc, String, true, Option, some, List, [], ◌∷◌, ◌≡◌, refl, ap, sym, get_elem?, All,
}
use mathlib.Core.Path.{subst}
use fingerprint_full_matcher.Prelude.Text.{apart}
use fingerprint_full_matcher.Benchmark.Manifest.Paths.{lowered, same_codes}
use fingerprint_full_matcher.Supervisor.Rows.Fields.{some_eq}
use fingerprint_full_matcher.Supervisor.Validate.{is_falsy, is_lower_sha256, expected_hand_and_name}
use fingerprint_full_matcher.Supervisor.{release_name, finger_at, sd300b, Row}
use fingerprint_full_matcher.Supervisor.Build.Accepted.{IsTidy, IsComplete}
use fingerprint_full_matcher.Supervisor.Build.Manifest.{IsCohort}
use fingerprint_full_matcher.Supervisor.Paths.{
  Parts, Disk, relative_to, image_relative, is_dotted, has_code, has_parent, is_under, split_slash,
  prepend, as_posix, join_slash,
}
use fingerprint_full_matcher.Supervisor.Paths.Images.{IsPlain}

abbrev pub cohort : List String
cohort = "00001000" ∷ "00001001" ∷ []

abbrev pub root : Parts
root = "data" ∷ []

abbrev image : Parts
image = "data" ∷ "SD300B" ∷ "thumb.png" ∷ []

-- A disk without links, where a source path is the name of the release's directory.
abbrev pub plain_disk : Disk
plain_disk = record {
  parse = λ text. "data" ∷ text ∷ "thumb.png" ∷ [];
  resolve = λ path. path;
  is_file = λ path. true;
  quoted = λ value. "";
}

-- Every path with one part is the root, every other one the image.
abbrev resolved : Parts → Parts
resolved (a ∷ []) = root
resolved path = image

abbrev pub disk : Disk
disk = record {
  parse = λ text. text ∷ "image" ∷ [];
  resolve = resolved;
  is_file = λ path. true;
  quoted = λ value. "";
}

abbrev pub digest : String
digest = "aaaaaaaaaaaaaaaaaaaaaaaaaaaaaaaaaaaaaaaaaaaaaaaaaaaaaaaaaaaaaaaa"

abbrev images : String → String → String → Row
images release ppi path =
    ("canonical_finger", some "1")
    ∷ ("dataset_release", some release)
    ∷ ("nominal_ppi", some ppi)
    ∷ ("hand", some "right")
    ∷ ("finger_name", some "thumb")
    ∷ ("pair_status", some "ready")
    ∷ ("pair_id", some "G1")
    ∷ ("plain_path", some path)
    ∷ ("roll_path", some path)
    ∷ ("plain_sha256", some digest)
    ∷ ("roll_sha256", some digest)
    ∷ ("plain_source_frgp", some "11")
    ∷ ("roll_source_frgp", some "1")
    ∷ ("plain_status", some "ok")
    ∷ ("roll_status", some "challenge")
    ∷ []

abbrev pub genuine_of : String → String → String → Row
genuine_of release ppi path =
    ("subject_id", some "00001000") ∷ ("subject_index", some "1") ∷ images release ppi path

abbrev pub genuine_source : Row
genuine_source = genuine_of "SD300B" "1000" "SD300B"

abbrev pub impostor_of : String → String → String → Row
impostor_of release ppi path =
    ("plain_subject_id", some "00001000")
    ∷ ("plain_subject_index", some "1")
    ∷ ("roll_subject_id", some "00001001")
    ∷ ("roll_subject_index", some "2")
    ∷ ("cyclic_offset", some "1")
    ∷ images release ppi path

abbrev pub impostor_source : Row
impostor_source = impostor_of "SD300B" "1000" "SD300B"

some_parts : (p q : Parts) → ◌≡◌ {A = Option Parts} (some p) (some q) → p ≡ q
some_parts p q h = cc

sample_names-IsPlain : All IsPlain ("SD300B" ∷ "thumb.png" ∷ [])
unfolding is_dotted has_code
sample_names-IsPlain = (
  record { slash = refl; backslash = refl; colon = refl; dotted = refl },
  (record { slash = refl; backslash = refl; colon = refl; dotted = refl }, tt),
)

two : (i j : ℕ) (s : String) → get_elem? cohort i ≡ some s → get_elem? cohort j ≡ some s → i ≡ j
two zero zero s h k = refl
two zero (suc zero) s h k = absurd (apart "00001000" "00001001" refl (cc))
two (suc zero) zero s h k = absurd (apart "00001000" "00001001" refl (cc))
two (suc zero) (suc zero) s h k = refl
two zero (suc (suc j)) s h k = cc
two (suc zero) (suc (suc j)) s h k = cc
two (suc (suc i)) j s h k = cc

eight : (i : ℕ) (s : String) → get_elem? cohort i ≡ some s → count s ≡ 8
eight zero s h = ap count (sym (some_eq "00001000" s h))
eight (suc zero) s h = ap count (sym (some_eq "00001001" s h))
eight (suc (suc i)) s h = cc

pub cohort-IsCohort : IsCohort cohort
cohort-IsCohort = record { width = 8; filled = λ e. cc; distinct = two; wide = eight }

steady : (path : Parts) → resolved (resolved path) ≡ resolved path
steady [] = refl
steady (a ∷ []) = refl
steady (a ∷ b ∷ path) = refl

below : (path rest : Parts) → relative_to root (resolved path) ≡ some rest → All IsPlain rest
unfolding relative_to is_dotted has_code
below [] rest h =
    subst (All IsPlain) (some_parts ("SD300B" ∷ "thumb.png" ∷ []) rest h) sample_names-IsPlain
below (a ∷ []) rest h = subst (All IsPlain) (some_parts [] rest h) tt
below (a ∷ b ∷ path) rest h =
    subst (All IsPlain) (some_parts ("SD300B" ∷ "thumb.png" ∷ []) rest h) sample_names-IsPlain

pub disk-IsTidy : IsTidy disk root
disk-IsTidy = record { stable = steady; names = below }

unfoldable pub genuine-IsComplete : IsComplete disk root disk-IsTidy sd300b cohort 0 genuine_source
unfolding image_relative relative_to has_parent is_under split_slash prepend as_posix join_slash
    lowered same_codes release_name is_falsy is_lower_sha256 expected_hand_and_name finger_at
genuine-IsComplete = record {
  names = record {
    pair_status = "ready";
    pair_id = "G1";
    has_hand = refl;
    has_finger_name = refl;
    has_pair_status = refl;
    has_pair_id = refl;
    filled = refl;
  };
  a = record {
    path = "SD300B";
    relative = "SD300B/thumb.png";
    sha256 = digest;
    frgp = "11";
    status = "ok";
    has_path = refl;
    accepted = refl;
    has_sha256 = refl;
    lower = refl;
    has_frgp = refl;
    has_status = refl;
    filled = refl;
  };
  b = record {
    path = "SD300B";
    relative = "SD300B/thumb.png";
    sha256 = digest;
    frgp = "1";
    status = "challenge";
    has_path = refl;
    accepted = refl;
    has_sha256 = refl;
    lower = refl;
    has_frgp = refl;
    has_status = refl;
    filled = refl;
  };
}

unfoldable pub impostor-IsComplete :
    IsComplete disk root disk-IsTidy sd300b cohort 0 impostor_source
unfolding image_relative relative_to has_parent is_under split_slash prepend as_posix join_slash
    lowered same_codes release_name is_falsy is_lower_sha256 expected_hand_and_name finger_at
impostor-IsComplete = record {
  names = record {
    pair_status = "ready";
    pair_id = "G1";
    has_hand = refl;
    has_finger_name = refl;
    has_pair_status = refl;
    has_pair_id = refl;
    filled = refl;
  };
  a = record {
    path = "SD300B";
    relative = "SD300B/thumb.png";
    sha256 = digest;
    frgp = "11";
    status = "ok";
    has_path = refl;
    accepted = refl;
    has_sha256 = refl;
    lower = refl;
    has_frgp = refl;
    has_status = refl;
    filled = refl;
  };
  b = record {
    path = "SD300B";
    relative = "SD300B/thumb.png";
    sha256 = digest;
    frgp = "1";
    status = "challenge";
    has_path = refl;
    accepted = refl;
    has_sha256 = refl;
    lower = refl;
    has_frgp = refl;
    has_status = refl;
    filled = refl;
  };
}
