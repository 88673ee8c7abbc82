-- ===== src/Supervisor.antt =====
-- tools/build_supervisor_50x10_v1.py and tools/validate_supervisor_50x10_v1.py: the protocol of 50
-- subjects and ten fingers, built from the frozen manifests of the curation, and its validator. The
-- texts that name releases and comparison kinds are two data types. A row is what `csv.DictReader`
-- yields: `none` is the `None` of a row that is too short.
pub mod Order
pub mod Paths
pub mod Columns
pub mod Rows
pub mod Validate
pub mod Ids
pub mod Build
pub mod Across
pub mod Package
pub mod Lock
pub mod Report
pub mod Sample
mod Tests
use fingerprint_full_matcher.Prelude.{
  ℕ, ◌+◌, ◌-◌, ◌/◌, ◌%◌, String, ◌<>◌, Bool, true, false, Option, none, some, List, [], ◌∷◌, ◌≡◌,
  ◌↔◌, refl, ap, ◌==◌, length, str_eq, eq_iff, if◌then◌else◌, ltb, arith,
}
use fingerprint_full_matcher.Prelude.Int.{ℤ, pos}
use fingerprint_full_matcher.Prelude.Text.{codes}
use fingerprint_full_matcher.Prelude.Digits.{int_text, int_of_text}
use fingerprint_full_matcher.Prelude.Dict.{Dict, lookup}
use fingerprint_full_matcher.Prelude.Result.{
  Result, ok, err, ◌>>=◌, of_option, Exception, key_error, type_error, value_error,
}

pub data Release : Type 0 where
  sd300b : Release
  sd300c : Release

unfoldable pub release_name : Release → String
release_name sd300b = "sd300b"
release_name sd300c = "sd300c"

unfoldable pub upper_name : Release → String
upper_name sd300b = "SD300B"
upper_name sd300c = "SD300C"

-- `str(RELEASES[release])`
unfoldable pub ppi_text : Release → String
ppi_text sd300b = "1000"
ppi_text sd300c = "2000"

pub data Kind : Type 0 where
  plain_self : Kind
  roll_self : Kind
  plain_roll_genuine : Kind
  plain_roll_next_subject : Kind

unfoldable pub kind_name : Kind → String
kind_name plain_self = "plain_self"
kind_name roll_self = "roll_self"
kind_name plain_roll_genuine = "plain_roll_genuine"
kind_name plain_roll_next_subject = "plain_roll_next_subject"

unfoldable pub is_next_subject : Kind → Bool
is_next_subject plain_roll_next_subject = true
is_next_subject kind = false

abbrev pub releases : List Release
releases = sd300b ∷ sd300c ∷ []

abbrev pub comparison_kinds : List Kind
comparison_kinds = plain_self ∷ roll_self ∷ plain_roll_genuine ∷ plain_roll_next_subject ∷ []

abbrev pub Row : Type 0
Row = Dict (Option String)

-- `row[key]`
abbrev pub item : Row → String → Result Exception (Option String)
item row key = of_option (key_error key) (lookup key row)

cell : Option (Option String) → Option String
cell none = none
cell (some value) = value

-- `row.get(key)`
unfoldable pub get_cell : Row → String → Option String
unfolding cell
get_cell row key = cell (lookup key row)

-- `==` between texts and `None`.
unfoldable pub same : Option String → Option String → Bool
same none none = true
same (some s) (some t) = str_eq s t
same _ _ = false

pub same_iff : (a b : Option String) → (same a b ≡ true) ↔ (a ≡ b)
unfolding same
same_iff none none = (λ _. refl, λ _. refl)
same_iff none (some t) = (λ h. cc, λ h. cc)
same_iff (some s) none = (λ h. cc, λ h. cc)
same_iff (some s) (some t) = (λ h. ap some ((eq_iff s t).0 h), λ h. (eq_iff s t).1 (cc))

-- `str(n)`
abbrev pub number : ℕ → String
number n = int_text (pos n)

-- `position // 10 + 1` and `position % 10 + 1`
unfoldable pub subject_at : ℕ → ℕ
subject_at position = position / 10 + 1

unfoldable pub finger_at : ℕ → ℕ
finger_at position = position % 10 + 1

-- `subject_index % 50 + 1`
unfoldable pub next_subject : ℕ → ℕ
next_subject subject_index = subject_index % 50 + 1

-- `f"{value}"`
unfoldable pub shown : Option String → String
shown none = "None"
shown (some s) = s

-- `f"{finger:02d}"`
unfoldable pub two_digits : ℤ → String
two_digits z = if ltb (length (codes (int_text z))) 2 then "0" <> int_text z else int_text z

-- `int(value)`
unfoldable pub int_of_cell : Option String → Result Exception ℤ
int_of_cell none = err (type_error "int() argument must be a string")
int_of_cell (some s) = of_option (value_error "invalid literal for int()") (int_of_text s)
