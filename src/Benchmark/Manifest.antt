-- ===== src/Benchmark/Manifest.antt =====
-- src/fingerprint_benchmark/manifest.py: the records that the reader makes of a protocol manifest.
pub mod Paths
pub mod Reader
pub mod Lock
use fingerprint_full_matcher.Prelude.{String, List}
use fingerprint_full_matcher.Prelude.Int.{ℤ}

-- A path of an image is its text.
pub record PairRecord : Type 0 where
  pub pair_id : String
  pub comparison_kind : String
  pub dataset_release : String
  pub subject_index_a : ℤ
  pub subject_id_a : String
  pub subject_index_b : ℤ
  pub subject_id_b : String
  pub canonical_finger : ℤ
  pub hand : String
  pub finger_name : String
  pub capture_type_a : String
  pub capture_type_b : String
  pub nominal_ppi_a : ℤ
  pub nominal_ppi_b : ℤ
  pub relative_path_a : String
  pub relative_path_b : String
  pub sha256_a : String
  pub sha256_b : String
  pub source_frgp_a : String
  pub source_frgp_b : String
  pub image_status_a : String
  pub image_status_b : String
  pub pair_status : String
  pub source_pair_id : String
  pub path_a : String
  pub path_b : String

pub record ProtocolManifest : Type 0 where
  pub protocol_root : String
  pub protocol_id : String
  pub protocol_version : ℤ
  pub path : String
  pub relative_path : String
  pub sha256 : String
  pub protocol_lock_sha256 : String
  pub records : List PairRecord
