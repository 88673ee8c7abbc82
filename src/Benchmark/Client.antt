-- ===== src/Benchmark/Client.antt =====
-- src/fingerprint_benchmark/sourceafis_client.py: `SourceAfisClient`, over a connection that answers
-- a request or fails. A base64 text is the codes of its characters.
pub mod Health
pub mod Replies
pub mod Answers
pub mod Verified
pub mod Extracted
mod Tests
use fingerprint_full_matcher.Prelude.{
  ℕ, String, Bool, true, false, not, ◌&&◌, ◌||◌, Option, none, some, List, [], ◌∷◌, map, str_eq,
  ◌==◌, leb, if◌then◌else◌, ◌<>◌,
}
use fingerprint_full_matcher.Prelude.Int.{ℤ, pos, negsuc}
use fingerprint_full_matcher.Prelude.Text.{codes}
use fingerprint_full_matcher.Prelude.Base64.{b64encode, b64decode}
use fingerprint_full_matcher.Prelude.Result.{
  Result, ok, err, require, Exception, type_error, value_error, overflow_error,
}
use fingerprint_full_matcher.Prelude.Action.{Action, ◌>>=◌, ◌>>◌, lift}
use fingerprint_full_matcher.Benchmark.Floats.{Floats}
use fingerprint_full_matcher.Benchmark.Json.{
  Json, null, bool, int, float, str, list, dict, Items, no_items, item, Members, no_members, member,
  find, json_text,
}

abbrev pub contract_version : String
contract_version = "sourceafis-sidecar-contract-v1"

abbrev pub implementation_version : String
implementation_version = "1.0.0"

abbrev pub sourceafis_version : String
sourceafis_version = "3.18.1"

abbrev pub sourceafis_coordinates : String
sourceafis_coordinates = "com.machinezoo.sourceafis:sourceafis:3.18.1"

abbrev pub template_format : String
template_format = "sourceafis"

abbrev pub template_version : String
template_version = "3.18.1"

-- How the adapter's handlers see an exception: a `SourceAfisClientError`, with the status of the
-- reply where there is one; another exception that they catch, by its text; or one that they do not.
pub data Caught : Type 0 where
  client_error : (code message : String) (status : Option ℕ) → Caught
  other_error : (message : String) → Caught
  uncaught : Exception → Caught

pub record ExtractedTemplate (F : Type 0) : Type 0 where
  pub payload : List ℕ
  pub format_id : String
  pub format_version : String
  pub elapsed_ms : F

pub record Verification (F : Type 0) : Type 0 where
  pub score : F
  pub elapsed_ms : F

-- What a reply's body is: `none` is a text that is not JSON, or not UTF-8.
pub data Body (F : Type 0) : Type 0 where
  empty : Body F
  invalid : Body F
  parsed : Json F → Body F

pub data Exchange (F : Type 0) : Type 0 where
  transport_failed : String → Exchange F
  replied : ℕ → Body F → Exchange F

-- A request's method, path and JSON payload, if it has one.
pub record Request (F : Type 0) : Type 0 where
  pub method : String
  pub path : String
  pub payload : Option (Members F)

-- The client's own state beside its connection's.
pub record ClientState (C : Type 0) : Type 0 where
  pub closed : Bool
  pub connection : C

pub record Connection (C F : Type 0) : Type 0 where
  pub exchange : Request F → C → Exchange F × C
  pub close : C → C

abbrev pub no_payload : List ℕ → Bool
no_payload [] = true
no_payload (b ∷ bs) = false

abbrev pub invalid_extraction : Caught
invalid_extraction = client_error "invalid_response" "invalid extraction response" none

abbrev pub invalid_verification : Caught
invalid_verification = client_error "invalid_response" "invalid verification response" none

pub is_dpi : ℤ → Bool
is_dpi (pos n) = n == 1000 || n == 2000
is_dpi (negsuc n) = false

module _ {F : Type 0} where
  -- `response[key]`, where a `KeyError` is caught with the message given.
  pub field : Caught → String → Members F → Result Caught (Json F)
  field raised key members = elim (find key members) [ none ↦ err raised | some v ↦ ok v ]

  -- `base64.b64decode(value, validate=True)`
  pub base64_field : Caught → Json F → Result Caught (List ℕ)
  base64_field raised (str s) = elim (b64decode (codes s)) [ none ↦ err raised | some b ↦ ok b ]
  base64_field raised _ = err raised

module _ {C F : Type 0} (floats : Floats F) (repr : Json F → String)
    (connection : Connection C F) where
  -- `close`
  unfoldable pub close_client : ClientState C → ClientState C
  close_client s =
      if s.closed then s else record { closed = true; connection = connection.close s.connection }

  -- `str(decoded.get(key, default))`
  text_or : String → String → Members F → String
  text_or key default members = elim (find key members) [
    | none ↦ default
    | some v ↦ json_text floats repr v
  ]

  checked_status : ℕ → Members F → Result Caught (Members F)
  unfolding text_or
  checked_status status members =
      if leb 400 status
      then err (
          client_error (text_or "error_code" "http_error" members)
            (text_or "message" "sidecar request failed" members) (some status))
      else ok members

  decoded : ℕ → Json F → Result Caught (Members F)
  unfolding checked_status
  decoded status (dict members) = checked_status status members
  decoded status _ =
      err (client_error "invalid_response" "sidecar response must be a JSON object" (some status))

  read_body : ℕ → Body F → Result Caught (Members F)
  unfolding decoded checked_status
  read_body status empty = checked_status status no_members
  read_body status invalid =
      err (client_error "invalid_response" "sidecar returned invalid JSON" (some status))
  read_body status (parsed value) = decoded status value

  answered : Exchange F → C → Result Caught (Members F) × ClientState C
  unfolding read_body
  answered (transport_failed message) c = (
    err (client_error "transport_error" message none),
    record { closed = false; connection = connection.close c },
  )
  answered (replied status body) c =
      (read_body status body, record { closed = false; connection = c })

  -- `_request_json`
  pub request_json : Request F → Action (ClientState C) Caught (Members F)
  unfolding answered
  request_json request s =
      let (exchange, c) = connection.exchange request s.connection in
      if s.closed
      then (err (client_error "client_closed" "SourceAFIS client is closed" none), s)
      else answered exchange c

  -- `float(value)`: a number that is too large for a float raises what no handler catches.
  pub float_field : Caught → Json F → Result Caught F
  float_field raised (float x) = ok x
  float_field raised (str s) = elim (floats.of_text s) [ none ↦ err raised | some x ↦ ok x ]
  float_field raised (int z) = elim (floats.of_int z) [
    | none ↦ err (uncaught overflow_error)
    | some x ↦ ok x
  ]
  float_field raised (bool b) = elim (floats.of_int (pos (if b then 1 else 0))) [
    | none ↦ err (uncaught overflow_error)
    | some x ↦ ok x
  ]
  float_field raised _ = err raised

  checked_template : ExtractedTemplate F → Result Caught (ExtractedTemplate F)
  checked_template t =
      if no_payload t.payload
        || not (str_eq t.format_id template_format)
        || not (str_eq t.format_version template_version)
        || not (floats.is_finite t.elapsed_ms)
        || floats.is_negative t.elapsed_ms
      then err (client_error "invalid_response" "invalid extraction response values" none)
      else ok t

  -- `encode` makes the text of base64 codes.
  pub extract_template :
      (List ℕ → String) → List ℕ → ℤ → Action (ClientState C) Caught (ExtractedTemplate F)
  extract_template encode image_bytes dpi = do
    lift (require (is_dpi dpi) (client_error "invalid_dpi" "DPI must be 1000 or 2000" none))
    response ← request_json (record {
      method = "POST";
      path = "/extract-template";
      payload = some (
          member "image_base64" (str (encode (b64encode image_bytes)))
            (member "dpi" (int dpi) no_members));
    })
    template_base64 ← lift (field invalid_extraction "template_base64" response)
    payload ← lift (base64_field invalid_extraction template_base64)
    format ← lift (field invalid_extraction "template_format" response)
    version ← lift (field invalid_extraction "template_version" response)
    elapsed_ms ← lift (field invalid_extraction "elapsed_ms" response)
    elapsed ← lift (float_field invalid_extraction elapsed_ms)
    lift (
        checked_template (record {
          payload = payload;
          format_id = json_text floats repr format;
          format_version = json_text floats repr version;
          elapsed_ms = elapsed;
        }))

  checked_verification : Verification F → Result Caught (Verification F)
  checked_verification v =
      if not (floats.is_finite v.score)
        || not (floats.is_finite v.elapsed_ms)
        || floats.is_negative v.elapsed_ms
      then err (client_error "invalid_response" "verification values must be finite" none)
      else ok v

  pub verify : (List ℕ → String) → List ℕ → List ℕ → Action (ClientState C) Caught (Verification F)
  verify encode template_a template_b = do
    response ← request_json (record {
      method = "POST";
      path = "/verify";
      payload = some (
          member "template_a_base64" (str (encode (b64encode template_a)))
            (member "template_b_base64" (str (encode (b64encode template_b))) no_members));
    })
    raw_score ← lift (field invalid_verification "raw_score" response)
    score ← lift (float_field invalid_verification raw_score)
    elapsed_ms ← lift (field invalid_verification "elapsed_ms" response)
    elapsed ← lift (float_field invalid_verification elapsed_ms)
    lift (checked_verification (record { score = score; elapsed_ms = elapsed }))
