-- ===== src/Lib.antt =====
-- Verification of the fingerprint full-matcher benchmark, a Python program that runs the pairs of a
-- frozen protocol manifest through an external matcher, stores the raw scores with their provenance,
-- and later applies a fixed decision policy to them. One of its tools builds the protocol's manifests
-- from a curated cohort and another validates them, and one halves the resolution of the images for a
-- matcher that wants 500 PPI.
--
-- Parts, files and their code:
-- - Prelude: shared types and lemmas. Prelude/Result has values and exceptions, Prelude/Action code
--   that changes a state and may raise (`>>=`, `try`), Prelude/Action/Rules how what such code raises
--   and returns follows from its steps; Prelude/Digits, Prelude/Base64, Prelude/Text and Prelude/Dict
--   model what the program uses of Python's `int`, `base64`, `str` and `dict`.
-- - Downsample: tools/nbis_downsample_1000_to_500_manual_v1.py, two passes with a kernel of nine
--   fixed-point coefficients (`_validate_input` is `validate_input`, `_clamp_index` is `clamp_index`,
--   the loops are `filtered_row` and `output_row`). Downsample/Reference:
--   tools/nbis_downsample_1000_to_500_manual_reference_v1.py, one pass over the whole window. Python's
--   integers are unbounded, so no width is fixed. A pixel is an integer or a value of another type.
-- - Policy: tools/apply_sourceafis_decision_policy_v1.py, from a result row to its decision
--   (`decision_for_row`, `outcome_for`), over Policy/Number, the decimal numbers of the scores.
--   Policy/Rates has `machine_rate`: its division is to 28 digits, half to even, before the rounding
--   to six decimals, and the fuel of `quotient_scale` is the denominator, as each digit of it adds one
--   step at most. Policy/Summary has `summarize_rows`, Policy/Aggregate `verification_aggregate`.
-- - Benchmark/Contract: src/fingerprint_benchmark/contract.py, the objects that matchers and the
--   runner exchange, with the checks of their constructors, and the adapter protocol as a record of
--   operations.
-- - Benchmark/Client: src/fingerprint_benchmark/sourceafis_client.py, which asks the sidecar over a
--   connection and checks its replies. The connection is a parameter: a request is answered or fails.
-- - Benchmark/Adapter: src/fingerprint_benchmark/sourceafis_adapter.py, which turns what the client
--   returns or raises into outcomes. It takes the client, the disk and the clock as `ClientApi`.
-- - Benchmark/Manifest: src/fingerprint_benchmark/manifest.py, `_verify_lock` and the test of the
--   manifest's own entry (Benchmark/Manifest/Lock, over the package of Supervisor/Lock), the resolution of
--   image paths (Benchmark/Manifest/Paths, over a disk) and the loop of `read_protocol_manifest` over the
--   rows (Benchmark/Manifest/Reader), with what the metadata allows as its parameter.
-- - Benchmark/Runner: src/fingerprint_benchmark/runner.py. Benchmark/Runner has the row of one pair
--   (`_result_for_pair`), Benchmark/Runner/Validation the checks of `validate_result_bundle` on each row,
--   Benchmark/Runner/Directory that function on a directory, and Benchmark/Runner/Run `run_manifest`. The
--   hashes are parameters, a write of a file is one call of the system that may fail, and a row is read
--   back as the texts that were written under its columns.
-- - Benchmark/Sidecar: src/fingerprint_benchmark/sourceafis_sidecar.py, `start` and `close` over a process
--   and the queue of its lines, with times in milliseconds. The loop of `start` takes fuel, and the startup
--   time together with the number of lines is enough: each round takes a line or at least ten milliseconds.
-- - Benchmark/Bundle: src/fingerprint_benchmark/bundle.py, `publish_bundle` over a disk that maps paths
--   to directories. A list of faults says which calls of the system fail and how: a failed call raises
--   and changes nothing, and a removal may fail part-way and leave some of the directory.
-- - Supervisor: tools/build_supervisor_50x10_v1.py, which builds the protocol from a curated cohort, and
--   tools/validate_supervisor_50x10_v1.py. Supervisor/Columns has the columns of the manifests;
--   Supervisor/Order `_validate_source_manifest_order`; Supervisor/Paths the image and source paths of
--   both tools, over a disk that resolves links; Supervisor/Rows the row makers of `_build_manifests`,
--   and Supervisor/Build the function over the four manifests. Supervisor/Validate has
--   `_validate_manifest_rows`, the messages of one row as a list of checks; Supervisor/Across
--   `_validate_cross_release_structure`, and Supervisor/Across/Sources
--   `_validate_source_correspondence`. Supervisor/Package has `build_package`, over the disk of
--   Benchmark/Bundle, with what `_build_candidate` ends with and leaves as parameters.
--   Supervisor/Lock has `_write_lock_and_sums`, and Supervisor/Lock/Check `_validate_lock` and
--   `_validate_sums`: a package is its files in the order of their paths, a lock stands for its JSON text,
--   hashes and row counts are parameters, and a lock that is read has values of the right types.
--   Supervisor/Report has the checks of `validate_protocol` and `ValidationResult.valid`, from the messages
--   of the parts. A row is a dictionary of texts; the representation of a text in a message (`!r`) is a
--   parameter.
--
-- Benchmark/Floats is the interface to floating-point numbers: the tests and conversions that the code
-- makes, with the law that a finite number's text is read as that number.
--
-- How they interact: the runner calls the adapter for both images and compares if both succeeded; the
-- adapter calls the client; the runner's rows are checked by the validator, which `publish_bundle` runs
-- before and after it moves the bundle; `run_manifest` composes all of these. The policy reads the
-- published rows. The rows that the builder of the protocol makes are those that its validator checks; the
-- image paths in them are those that the reader of a run's manifest resolves, and the lock and the sums
-- that the builder writes are those that it verifies.
--
-- Not modelled: the text of CSV and JSON files (rows and JSON values stand for them), digits outside
-- ASCII in numbers and the limit of 10^18 on a decimal's exponent, the bytes and the decoding of
-- images; of the reader the search for the package's root and the JSON of the metadata; of the protocol's
-- builder and validator the metadata, the search for forbidden references, the frozen hashes and the
-- order of the steps in `_build_candidate` and `validate_protocol`, with the stored report; the NBIS build and its audits, and the command line.
pub mod Prelude
pub mod Downsample
pub mod Policy
pub mod Benchmark
pub mod Supervisor
