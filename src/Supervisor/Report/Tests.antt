-- ===== src/Supervisor/Report/Tests.antt =====
-- Reports of small runs.
use fingerprint_full_matcher.Prelude.{
  ℕ, true, false, none, some, List, [], ◌∷◌, ◌≡◌, ◌≢◌, ◌↔◌, refl,
}
use fingerprint_full_matcher.Benchmark.Manifest.Paths.{lowered}
use fingerprint_full_matcher.Supervisor.Report.{Messages, checks_of, errors_of, is_valid}
use fingerprint_full_matcher.Supervisor.Report.Valid.{is_valid_iff}

abbrev clean : Messages
clean = record {
  selection = [];
  manifests = [];
  releases = [];
  sources = [];
  documents = [];
  integrity = some [];
}

abbrev row_counts : List ℕ
row_counts = 500 ∷ 500 ∷ 500 ∷ 500 ∷ 500 ∷ 500 ∷ 500 ∷ 500 ∷ []

all_pairs : (checks_of 50 row_counts clean).total_pairs ≡ 4000
unfolding checks_of
all_pairs = refl

-- "mapping" mentions "ppi", and a missing image no "path".
cyclic_is_ppi :
    (checks_of 50 row_counts (record clean {
      manifests =
          "sd300b/plain_roll_next_subject.csv row 2: subject_id_b/cyclic mapping mismatch" ∷ [];
    })).nominal_ppi_valid
    ≡ false
unfolding checks_of lowered
cyclic_is_ppi = refl

missing_is_no_path :
    (checks_of 50 row_counts (record clean {
      manifests =
          "sd300b/plain_self.csv row 2: referenced image does not exist: 'sd300b/a.png'" ∷ [];
    })).relative_paths_valid
    ≡ true
unfolding checks_of lowered
missing_is_no_path = refl

is_valid_iff_example :
    (is_valid (checks_of 50 row_counts clean) (errors_of clean) ≡ true)
    ↔ ((errors_of clean ≡ []) × (clean.integrity ≢ none))
is_valid_iff_example = is_valid_iff 50 row_counts clean
