-- ===== src/Benchmark/Contract.antt =====
-- src/fingerprint_benchmark/contract.py: the types that matchers and the runner share. A constructor
-- runs `__post_init__` on the new object. The field `diagnostics`, which nothing sets, is left out.
use fingerprint_full_matcher.Prelude.{
  ℕ, String, Bool, true, false, not, ◌&&◌, ◌||◌, Option, none, some, List, [], ◌∷◌, str_eq,
  if◌then◌else◌, ◌≡◌, ◌⊎◌, arith,
}
use fingerprint_full_matcher.Prelude.Text.{is_empty}
use fingerprint_full_matcher.Prelude.Result.{Result, ok, ◌>>◌, require, Exception, value_error}
use fingerprint_full_matcher.Prelude.Action.{Action}
use fingerprint_full_matcher.Prelude.Int.{ℤ}
use fingerprint_full_matcher.Benchmark.Floats.{Floats}

abbrev pub benchmark_contract_version : String
benchmark_contract_version = "sourceafis-runtime-v1"

abbrev pub Bytes : Type 0
Bytes = List ℕ

pub record MethodMetadata : Type 0 where
  pub method_id : String
  pub method_version : String
  pub score_direction : String
  pub score_semantics : String

unfoldable pub new_method_metadata : MethodMetadata → Result Exception MethodMetadata
new_method_metadata m = do
  require (not (is_empty m.method_id || is_empty m.method_version))
      (value_error "method identity and version are required")
  require (str_eq m.score_direction "higher_is_more_similar")
      (value_error "unsupported score direction")
  require (str_eq m.score_semantics "raw_similarity") (value_error "unsupported score semantics")
  ok m

pub record PreparedRepresentation : Type 0 where
  pub payload : Bytes
  pub format_id : String
  pub format_version : String

abbrev pub no_bytes : Bytes → Bool
no_bytes [] = true
no_bytes (b ∷ bs) = false

unfoldable pub new_representation : PreparedRepresentation → Result Exception PreparedRepresentation
new_representation p = do
  require (not (no_bytes p.payload || is_empty p.format_id || is_empty p.format_version))
      (value_error "complete prepared representation is required")
  ok p

-- `not text`, for a text that may be `None`.
abbrev pub is_falsy : Option String → Bool
is_falsy none = true
is_falsy (some s) = is_empty s

abbrev pub is_none {ℓ} : {A : Type ℓ} → Option A → Bool
is_none none = true
is_none (some a) = false

unfoldable pub validate_outcome : String → Bool → Option String → Result Exception (Unit {0})
validate_outcome status has_value error_code =
    if str_eq status "ok"
    then require (has_value && is_none error_code)
        (value_error "successful preparation requires a value and no error")
    else require (not (has_value || is_falsy error_code))
        (value_error "failed preparation requires no value and an error code")

module _ (F : Type 0) where
  pub record PrepareOutcome : Type 0 where
    pub status : String
    pub representation : Option PreparedRepresentation
    pub error_code : Option String
    pub error_message : Option String
    pub wall_ms : Option F
    pub internal_ms : Option F

  pub record CompareOutcome : Type 0 where
    pub status : String
    pub raw_score : Option F
    pub error_code : Option String
    pub error_message : Option String
    pub wall_ms : Option F
    pub internal_ms : Option F

module _ {F : Type 0} where
  unfoldable pub new_prepare_outcome : PrepareOutcome F → Result Exception (PrepareOutcome F)
  unfolding validate_outcome
  new_prepare_outcome o = do
    validate_outcome o.status (not (is_none o.representation)) o.error_code
    ok o

  module _ (floats : Floats F) where
    -- A score that is a finite number.
    abbrev pub has_finite : Option F → Bool
    has_finite none = false
    has_finite (some x) = floats.is_finite x

    unfoldable pub new_compare_outcome : CompareOutcome F → Result Exception (CompareOutcome F)
    new_compare_outcome o =
        if str_eq o.status "ok"
        then (do
          require (has_finite o.raw_score)
              (value_error "successful comparison requires a finite raw score")
          require (is_none o.error_code)
              (value_error "successful comparison cannot have an error code")
          ok o)
        else (do
          require (is_none o.raw_score && not (is_falsy o.error_code))
              (value_error "failed comparison requires no score and an error code")
          ok o)

-- What the constructors let through.
module _ {F : Type 0} where
  abbrev pub IsPrepareOutcome : PrepareOutcome F → Type 0
  IsPrepareOutcome o =
      (str_eq o.status "ok" ≡ true)
        × (is_none o.representation ≡ false)
        × (is_none o.error_code ≡ true)
      ⊎ (str_eq o.status "ok" ≡ false)
        × (is_none o.representation ≡ true)
        × (is_falsy o.error_code ≡ false)

  pub new_prepare_outcome-IsPrepareOutcome :
      (o p : PrepareOutcome F) → new_prepare_outcome o ≡ ok p → (p ≡ o) × IsPrepareOutcome p
  unfolding new_prepare_outcome
  new_prepare_outcome-IsPrepareOutcome o p h = ground arith

  module _ (floats : Floats F) where
    abbrev pub IsCompareOutcome : CompareOutcome F → Type 0
    IsCompareOutcome o =
        (str_eq o.status "ok" ≡ true)
          × (has_finite floats o.raw_score ≡ true)
          × (is_none o.error_code ≡ true)
        ⊎ (str_eq o.status "ok" ≡ false)
          × (is_none o.raw_score ≡ true)
          × (is_falsy o.error_code ≡ false)

    pub new_compare_outcome-IsCompareOutcome :
        (o p : CompareOutcome F)
        → new_compare_outcome floats o ≡ ok p
        → (p ≡ o) × IsCompareOutcome p
    unfolding new_compare_outcome
    new_compare_outcome-IsCompareOutcome o p h = ground arith

-- The mapping that the runner passes with an image.
pub record ImageMetadata : Type 0 where
  pub nominal_ppi : ℤ
  pub sha256 : String

-- `MatcherAdapter`: the operations act on a state of the adapter's own.
pub record MatcherAdapter (S F : Type 0) : Type 0 where
  pub metadata : MethodMetadata
  pub prepare : String → ImageMetadata → Action S Exception (PrepareOutcome F)
  pub compare :
      PreparedRepresentation → PreparedRepresentation → Action S Exception (CompareOutcome F)
  pub close : Action S Exception Unit
