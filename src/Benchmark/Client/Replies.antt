-- ===== src/Benchmark/Client/Replies.antt =====
-- The client and a service that sends back the template of some bytes.
use fingerprint_full_matcher.Prelude.{
  ℕ, String, true, false, ◌||◌, none, some, List, ◌==◌, ◌≡◌, refl, All, ◌<◌,
}
use fingerprint_full_matcher.Prelude.Int.{pos}
use fingerprint_full_matcher.Prelude.Text.{codes}
use fingerprint_full_matcher.Prelude.Base64.{b64encode}
use fingerprint_full_matcher.Prelude.Result.{ok, require}
use fingerprint_full_matcher.Prelude.Action.{lift}
use fingerprint_full_matcher.Benchmark.Floats.{Floats}
use fingerprint_full_matcher.Benchmark.Json.{
  Json, int, float, str, dict, Members, no_members, member, find, json_text,
}
use fingerprint_full_matcher.Prelude.Base64.RoundTrip.{b64decode-b64encode}
use fingerprint_full_matcher.Prelude.Action.Rules.{bind_run, lift_run}
use fingerprint_full_matcher.Benchmark.Client.Answers.{gt→leb}
use fingerprint_full_matcher.Benchmark.Client.{
  Caught, client_error, ClientState, Connection, replied, parsed, Request, request_json,
  extract_template, ExtractedTemplate, checked_template, no_payload, is_dpi, field, base64_field,
  float_field, invalid_extraction,
}

field_lem :
    {F : Type 0} (raised : Caught) (key : String) (d : Members F) (v : Json F)
    → find key d ≡ some v
    → field raised key d ≡ ok v
unfolding field
field_lem raised key d v h = rw (field, h) refl

-- The members of a reply that carries the template of these bytes.
pub record TemplateReply {F : Type 0} (floats : Floats F) (members : Members F) (bytes : List ℕ)
    (elapsed : F) : Type 0 where
  pub template_base64 : String
  pub carried : find "template_base64" members ≡ some (str template_base64)
  pub encoded : codes template_base64 ≡ b64encode bytes
  pub bounded : All (λ b. b < 256) bytes
  pub filled : no_payload bytes ≡ false
  pub format : find "template_format" members ≡ some (str "sourceafis")
  pub version : find "template_version" members ≡ some (str "3.18.1")
  pub timed : find "elapsed_ms" members ≡ some (float elapsed)
  pub finite : floats.is_finite elapsed ≡ true
  pub not_negative : floats.is_negative elapsed ≡ false

module _ {C F : Type 0} (floats : Floats F) (repr : Json F → String)
    (connection : Connection C F) where
  known_dpi :
      (dpi : ℕ)
      → (dpi == 1000 || dpi == 2000) ≡ true
      → require (is_dpi (pos dpi)) (client_error "invalid_dpi" "DPI must be 1000 or 2000" none)
        ≡ ok tt
  unfolding is_dpi
  known_dpi dpi known = rw known refl

  -- A reply below 400 that is a JSON object is what `_request_json` returns.
  request_json_lem :
      (request : Request F) (s : ClientState C) (c : C) (status : ℕ) (reply_members : Members F)
      → s.closed ≡ false
      → connection.exchange request s.connection ≡ (replied status (parsed (dict reply_members)), c)
      → status < 400
      → request_json floats repr connection request s
        ≡ (ok reply_members, record { closed = false; connection = c })
  unfolding request_json
  request_json_lem request s c status reply_members live asked success =
      rw (asked, live) (rw (gt→leb 400 status success) refl)

  module _ {reply_members : Members F} {bytes : List ℕ} {elapsed : F}
      (reply : TemplateReply floats reply_members bytes elapsed) where
    decoded_bytes : base64_field {F = F} invalid_extraction (str reply.template_base64) ≡ ok bytes
    unfolding base64_field
    decoded_bytes = rw (base64_field, reply.encoded, b64decode-b64encode bytes reply.bounded) refl

    abbrev template : ExtractedTemplate F
    template = record {
      payload = bytes;
      format_id = "sourceafis";
      format_version = "3.18.1";
      elapsed_ms = elapsed;
    }

    accepted :
        (s : ClientState C)
        → lift (checked_template floats repr connection template) s ≡ (ok template, s)
    unfolding checked_template lift
    accepted s = rw (reply.filled, reply.finite, reply.not_negative) refl

  -- For a DPI of 1000 or 2000, `extract_template` asks an open client's connection once for the
  -- template of the image, and if the reply is a success that carries the base64 text of some bytes,
  -- a sourceafis template of this version with a valid time, it returns these bytes.
  pub extract_template-decodes :
      (encode : List ℕ → String) (image_bytes : List ℕ) (dpi : ℕ) (s : ClientState C) (c : C)
      (status : ℕ) (reply_members : Members F) (bytes : List ℕ) (elapsed : F)
      → (dpi == 1000 || dpi == 2000) ≡ true
      → s.closed ≡ false
      → connection.exchange
          (record {
            method = "POST";
            path = "/extract-template";
            payload = some (
                member "image_base64"
                  (str (encode (b64encode image_bytes)))
                  (member "dpi" (int (pos dpi)) no_members));
          })
          s.connection
        ≡ (replied status (parsed (dict reply_members)), c)
      → status < 400
      → TemplateReply floats reply_members bytes elapsed
      → extract_template floats repr connection encode image_bytes (pos dpi) s ≡ (
        ok (record {
          payload = bytes;
          format_id = "sourceafis";
          format_version = "3.18.1";
          elapsed_ms = elapsed;
        }),
        record { closed = false; connection = c },
      )
  unfolding extract_template
  extract_template-decodes encode image_bytes dpi s c status reply_members bytes elapsed known live
        asked success reply =
      lift_run _ _ s tt (known_dpi dpi known) (
        bind_run _ _ s (record { closed = false; connection = c }) reply_members
          (request_json_lem _ s c status reply_members live asked success)
          (lift_run _ _ _ (str reply.template_base64) (field_lem _ _ _ _ reply.carried) (
            lift_run _ _ _ bytes (decoded_bytes reply) (
              lift_run _ _ _ (str "sourceafis") (field_lem _ _ _ _ reply.format) (
                lift_run _ _ _ (str "3.18.1") (field_lem _ _ _ _ reply.version) (
                  lift_run _ _ _ (float elapsed) (field_lem _ _ _ _ reply.timed) (
                    lift_run _ _ _ elapsed (unfold float_field in refl)
                      (unfold json_text in accepted reply _))))))))
