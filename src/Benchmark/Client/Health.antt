-- ===== src/Benchmark/Client/Health.antt =====
-- `health` of src/fingerprint_benchmark/sourceafis_client.py: what the sidecar must say of itself.
use fingerprint_full_matcher.Prelude.{
  String, Bool, true, false, not, ◌&&◌, Option, none, some, List, [], ◌∷◌, str_eq, ◌==◌,
  if◌then◌else◌, ◌<>◌,
}
use fingerprint_full_matcher.Prelude.Int.{pos}
use fingerprint_full_matcher.Prelude.Result.{◌>>=◌ as ◌>>=ᵣ◌, Result, ok, err}
use fingerprint_full_matcher.Prelude.Action.{Action, ◌>>=◌, lift}
use fingerprint_full_matcher.Benchmark.Floats.{Floats}
use fingerprint_full_matcher.Benchmark.Json.{
  Json, bool, int, float, str, list, Items, no_items, item, Members, find,
}
use fingerprint_full_matcher.Benchmark.Client.{
  Caught, client_error, ClientState, Connection, request_json, contract_version,
  implementation_version, sourceafis_version, sourceafis_coordinates, template_format,
  template_version,
}

-- What the health reply must hold under a key: a text, `False` (which a zero equals), or a list of
-- texts.
pub data Expected : Type 0 where
  text : String → Expected
  no : Expected
  texts : List String → Expected

abbrev pub expected_health : List (String × Expected)
expected_health =
    ("status", text "ok")
    ∷ ("service", text "sourceafis-sidecar")
    ∷ ("method_id", text "sourceafis")
    ∷ ("sourceafis_version", text sourceafis_version)
    ∷ ("sourceafis_maven_coordinates", text sourceafis_coordinates)
    ∷ ("contract_version", text contract_version)
    ∷ ("implementation_version", text implementation_version)
    ∷ ("template_format", text template_format)
    ∷ ("template_version", text template_version)
    ∷ ("transport", text "loopback-http-json")
    ∷ ("external_preprocessing", text "none")
    ∷ ("decision_logic", text "none")
    ∷ ("thresholding", text "none")
    ∷ ("template_cache", no)
    ∷ ("identification_supported", no)
    ∷ ("supported_operations", texts ("template_extraction" ∷ "pairwise_verification" ∷ []))
    ∷ []

abbrev pub required_health : List String
required_health =
    "java_runtime_version" ∷ "bind_host" ∷ "bind_port" ∷ "dpi_policy" ∷ "timing_scopes" ∷ []

module _ {F : Type 0} (floats : Floats F) where
  same_texts : Items F → List String → Bool
  same_texts no_items [] = true
  same_texts (item (str s) rest) (t ∷ ts) = str_eq s t && same_texts rest ts
  same_texts _ _ = false

  -- `value == expected`
  equals : Json F → Expected → Bool
  unfolding same_texts
  equals (str s) (text t) = str_eq s t
  equals (bool b) no = not b
  equals (int (pos n)) no = n == 0
  equals (float x) no = floats.is_zero x
  equals (list items) (texts ts) = same_texts items ts
  equals _ _ = false

  found : Option (Json F) → Expected → Bool
  unfolding equals
  found none e = false
  found (some v) e = equals v e

  unfoldable pub check_expected : List (String × Expected) → Members F → Result Caught (Unit {0})
  unfolding found
  check_expected [] health = ok tt
  check_expected ((key, e) ∷ rest) health =
      let later = check_expected rest health in
      if found (find key health) e
      then later
      else err (client_error "health_contract_mismatch" ("unexpected health field " <> key) none)

  abbrev has : Option (Json F) → Bool
  has none = false
  has (some v) = true

  unfoldable pub complete : List String → Members F → Bool
  complete [] health = true
  complete (key ∷ rest) health = has (find key health) && complete rest health

  checked_health : Members F → Result Caught (Members F)
  checked_health health = check_expected expected_health health >>=ᵣ λ _.
      (if complete required_health health
        then ok health
        else err (client_error "health_contract_mismatch" "health response is incomplete" none))

module _ {C F : Type 0} (floats : Floats F) (repr : Json F → String)
    (connection : Connection C F) where
  -- `health`
  pub health : Action (ClientState C) Caught (Members F)
  health = do
    reply ←
        request_json floats repr connection
          (record { method = "GET"; path = "/health"; payload = none })
    lift (checked_health floats reply)
