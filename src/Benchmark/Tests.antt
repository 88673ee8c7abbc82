-- ===== src/Benchmark/Tests.antt =====
-- The runner on one pair, of which the second image cannot be read.
use fingerprint_full_matcher.Prelude.{none, false, refl, ◌⊎◌}
use fingerprint_full_matcher.Prelude.Text.{apart}
use fingerprint_full_matcher.Prelude.Result.{err}
use fingerprint_full_matcher.Benchmark.Contract.{MatcherAdapter}
use fingerprint_full_matcher.Benchmark.Bundle.{BundleError}
use fingerprint_full_matcher.Benchmark.Bundle.Publication.{AreDistinct}
use fingerprint_full_matcher.Benchmark.Runner.Directory.{Directory, Hashes}
use fingerprint_full_matcher.Benchmark.Runner.Run.{
  RunInput, RunState, disk_error, mkdir, run_manifest,
}
use fingerprint_full_matcher.Benchmark.Runner.Run.Calls.{disk_of}
use fingerprint_full_matcher.Benchmark.Runner.Run.Published.{IsPublished, run_manifest-total}
use fingerprint_full_matcher.Benchmark.Runner.Run.Closed.{run_manifest-closes}
use fingerprint_full_matcher.Benchmark.Runner.Validation.Rows.{IsAdapter}
use fingerprint_full_matcher.Prelude.{ℕ, String, ◌<>◌, ◌≡◌, [], ◌∷◌}
use fingerprint_full_matcher.Prelude.Int.{pos}
use fingerprint_full_matcher.Prelude.Dict.{Dict}
use fingerprint_full_matcher.Prelude.Result.{ok, err}
use fingerprint_full_matcher.Benchmark.Adapter.Tests.{codes}
use fingerprint_full_matcher.Benchmark.Sample.{floats, laws, client, unreadable}
use fingerprint_full_matcher.Benchmark.Manifest.{PairRecord, ProtocolManifest}
use fingerprint_full_matcher.Benchmark.Adapter.{adapter}
use fingerprint_full_matcher.Benchmark.Runner.{Value, result_for_pair}
use fingerprint_full_matcher.Benchmark.Runner.Validation.{written, check_row, cell_text}
use fingerprint_full_matcher.Benchmark.Runner.Validation.Rows.{
  adapter-IsAdapter, result_for_pair-check_row,
}

digest : Dict (Value ℕ) → String
digest [] = ""
digest ((key, v) ∷ rest) = key <> cell_text floats v <> digest rest

abbrev pair : PairRecord
pair = record {
  pair_id = "p1";
  comparison_kind = "plain_self";
  dataset_release = "sd302b";
  subject_index_a = pos 1;
  subject_id_a = "00002302";
  subject_index_b = pos 1;
  subject_id_b = "00002302";
  canonical_finger = pos 2;
  hand = "right";
  finger_name = "index";
  capture_type_a = "plain";
  capture_type_b = "plain";
  nominal_ppi_a = pos 1000;
  nominal_ppi_b = pos 1000;
  relative_path_a = "sd302b/a.png";
  relative_path_b = "sd302b/b.png";
  sha256_a = "aa";
  sha256_b = "bb";
  source_frgp_a = "2";
  source_frgp_b = "2";
  image_status_a = "ok";
  image_status_b = "ok";
  pair_status = "ok";
  source_pair_id = "";
  path_a = "a.png";
  path_b = unreadable;
}

abbrev manifest : ProtocolManifest
manifest = record {
  protocol_root = "/protocol";
  protocol_id = "supervisor";
  protocol_version = pos 1;
  path = "/protocol/pairs.csv";
  relative_path = "pairs.csv";
  sha256 = "cc";
  protocol_lock_sha256 = "dd";
  records = pair ∷ [];
}

result_for_pair-check_row_example :
    (row : Dict (Value ℕ)) × ((result_for_pair digest
        (adapter floats client)
        "run"
        manifest
        1
        pair
        0).0
      ≡ ok row)
    × (check_row floats digest "run" (written floats row) ≡ ok tt)
result_for_pair-check_row_example =
    result_for_pair-check_row floats laws digest (adapter floats client)
      (adapter-IsAdapter floats client codes) "run" manifest 1 pair 0

-- The client is closed by setting its state to 1000.
abbrev closing : MatcherAdapter ℕ ℕ
closing = adapter floats client

abbrev hashes : Hashes ℕ ℕ
hashes = record {
  stable_sha256 = digest;
  sha256_of_results = λ results. "results";
  sha256_of_provenance = λ file. "provenance";
}

paths : AreDistinct "c" "o" "b"
paths = record { cd = apart "c" "o" refl; cb = apart "c" "b" refl; db = apart "o" "b" refl }

abbrev empty_disk : RunState ℕ (Directory ℕ ℕ)
empty_disk = record { adapter = 0; disk = disk_of (λ path. none) false false }

closing-IsAdapter : IsAdapter floats closing
closing-IsAdapter = adapter-IsAdapter floats client codes

abbrev run : RunInput ℕ ℕ ℕ
run = record {
  floats = floats;
  hashes = hashes;
  adapter = closing;
  manifest = manifest;
  provenance = 9;
  candidate = "c";
  destination = "o";
  backup = "b";
}

run_manifest-total_example : IsPublished run (run_manifest run false empty_disk)
run_manifest-total_example =
    run_manifest-total run laws closing-IsAdapter (λ s. refl) paths false false false (λ path. none)
      0 refl refl refl

run_manifest-closes_example :
    (◌≡◌ {A = ℕ} (run_manifest run false empty_disk).1.adapter 1000)
    ⊎ ((e : BundleError) × ((mkdir {F = ℕ} {P = ℕ} "c" empty_disk.disk).0 ≡ err e)
        × ((run_manifest run false empty_disk).0 ≡ err (disk_error e))
        × ((run_manifest run false empty_disk).1.adapter ≡ 0))
run_manifest-closes_example = run_manifest-closes run (λ s. s ≡ 1000) (λ s. refl) false empty_disk
