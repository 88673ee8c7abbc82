-- ===== src/Benchmark/Client/Extracted.antt =====
-- What `extract_template` returns, and exactly when.
use mathlib.Core.Path.{subst}
use fingerprint_full_matcher.Prelude.{
  ℕ, String, true, false, none, some, List, ◌≡◌, ◌∙◌, ◌↔◌, refl, ap, sym, str_eq, eq_iff, arith,
}
use fingerprint_full_matcher.Prelude.Int.{ℤ}
use fingerprint_full_matcher.Prelude.Text.{codes}
use fingerprint_full_matcher.Prelude.Base64.{b64encode, b64decode}
use fingerprint_full_matcher.Prelude.Result.{ok, require, require_ok}
use fingerprint_full_matcher.Prelude.Action.{lift}
use fingerprint_full_matcher.Prelude.Action.Rules.{bind_run, lift_run, bind_inverse, lift_inverse}
use fingerprint_full_matcher.Benchmark.Floats.{Floats}
use fingerprint_full_matcher.Benchmark.Json.{
  Json, null, bool, int, float, str, list, dict, Members, no_members, member, find, json_text,
}
use fingerprint_full_matcher.Benchmark.Client.{
  client_error, ClientState, Connection, Request, request_json, ExtractedTemplate, extract_template,
  checked_template, no_payload, is_dpi, field, base64_field, float_field, invalid_extraction,
}
use fingerprint_full_matcher.Benchmark.Client.Answers.{
  Reads, field_iff, float_field-iff-Reads, Answered, request_json-iff-Answered,
}

module _ {C F : Type 0} (floats : Floats F) (repr : Json F → String) (connection : Connection C F)
    (encode : List ℕ → String) where
  abbrev extract_request : List ℕ → ℤ → Request F
  extract_request image_bytes dpi = record {
    method = "POST";
    path = "/extract-template";
    payload = some (
        member "image_base64" (str (encode (b64encode image_bytes)))
          (member "dpi" (int dpi) no_members));
  }

  -- The reply has a template of the expected format and version.
  pub record CarriesTemplate (reply : Members F) (t : ExtractedTemplate F) : Type 0 where
    pub template_base64 : String
    pub carried : find "template_base64" reply ≡ some (str template_base64)
    pub decoded : b64decode (codes template_base64) ≡ some t.payload
    pub filled : no_payload t.payload ≡ false
    pub format : Json F
    pub format_there : find "template_format" reply ≡ some format
    pub format_read : t.format_id ≡ json_text floats repr format
    pub format_right : t.format_id ≡ "sourceafis"
    pub version : Json F
    pub version_there : find "template_version" reply ≡ some version
    pub version_read : t.format_version ≡ json_text floats repr version
    pub version_right : t.format_version ≡ "3.18.1"
    pub elapsed_ms : Json F
    pub elapsed_there : find "elapsed_ms" reply ≡ some elapsed_ms
    pub elapsed_read : Reads floats repr connection elapsed_ms t.elapsed_ms
    pub elapsed_finite : floats.is_finite t.elapsed_ms ≡ true
    pub not_negative : floats.is_negative t.elapsed_ms ≡ false

  -- The service answered the request about the image with a template.
  pub record Extracted (image_bytes : List ℕ) (dpi : ℤ) (s : ClientState C)
      (t : ExtractedTemplate F) (after : ClientState C) : Type 0 where
    pub known : is_dpi dpi ≡ true
    pub reply : Members F
    pub answer : Answered floats repr connection (extract_request image_bytes dpi) s reply after
    pub template : CarriesTemplate reply t

  checked_template-returned :
      (t u : ExtractedTemplate F)
      → checked_template floats repr connection t ≡ ok u
      → (t ≡ u)
        × (no_payload t.payload ≡ false)
        × (str_eq t.format_id "sourceafis" ≡ true)
        × (str_eq t.format_version "3.18.1" ≡ true)
        × (floats.is_finite t.elapsed_ms ≡ true)
        × (floats.is_negative t.elapsed_ms ≡ false)
  unfolding checked_template
  checked_template-returned t u h =
      (ground arith, ground arith, ground arith, ground arith, ground arith, ground arith)

  base64_field-returned :
      (value : Json F) (payload : List ℕ)
      → base64_field invalid_extraction value ≡ ok payload
      → (text : String) × (value ≡ str text) × (b64decode (codes text) ≡ some payload)
  unfolding base64_field
  base64_field-returned (str text) payload h = (text, refl, ground arith)
  base64_field-returned null payload h = cc h
  base64_field-returned (bool b) payload h = cc h
  base64_field-returned (int z) payload h = cc h
  base64_field-returned (float x) payload h = cc h
  base64_field-returned (list items) payload h = cc h
  base64_field-returned (dict carried) payload h = cc h

  extract_template-Extracted :
      (image_bytes : List ℕ) (dpi : ℤ) (s : ClientState C) (t : ExtractedTemplate F)
      (after : ClientState C)
      → extract_template floats repr connection encode image_bytes dpi s ≡ (ok t, after)
      → Extracted image_bytes dpi s t after
  unfolding extract_template lift
  extract_template-Extracted image_bytes dpi s t after h =
      let (_, h0, h1) =
        lift_inverse
          (require (is_dpi dpi) (client_error "invalid_dpi" "DPI must be 1000 or 2000" none)) _ s
          after t h in
      let (reply, between, asked, h2) =
        bind_inverse (request_json floats repr connection (extract_request image_bytes dpi)) _ s
          after t h1 in
      let (value, h3, h4) =
        lift_inverse (field invalid_extraction "template_base64" reply) _ between after t h2 in
      let (payload, h5, h6) =
        lift_inverse (base64_field invalid_extraction value) _ between after t h4 in
      let (format, h7, h8) =
        lift_inverse (field invalid_extraction "template_format" reply) _ between after t h6 in
      let (version, h9, h10) =
        lift_inverse (field invalid_extraction "template_version" reply) _ between after t h8 in
      let (elapsed_ms, h11, h12) =
        lift_inverse (field invalid_extraction "elapsed_ms" reply) _ between after t h10 in
      let (elapsed, h13, h14) =
        lift_inverse (float_field floats repr connection invalid_extraction elapsed_ms) _ between
          after t h12 in
      let (template_base64, text_there, decoded) = base64_field-returned value payload h5 in
      let made : ExtractedTemplate F = record {
        payload = payload;
        format_id = json_text floats repr format;
        format_version = json_text floats repr version;
        elapsed_ms = elapsed;
      } in
      let (same, filled, format_right, version_right, elapsed_finite, not_negative) =
        checked_template-returned made t (ap (λ r. r.0) h14) in
      subst
        (λ (ended : ExtractedTemplate F × ClientState C).
          Extracted image_bytes dpi s ended.0 ended.1)
        (ap (λ u. (u, between)) same ∙ ap (λ r. (t, r.1)) h14)
        (record {
          known = require_ok (is_dpi dpi) _ h0;
          reply = reply;
          answer =
              (request_json-iff-Answered floats repr connection (extract_request image_bytes dpi) s
                  reply between).0
                asked;
          template = record {
            template_base64 = template_base64;
            carried =
                (field_iff invalid_extraction "template_base64" reply value).0 h3
                ∙ ap some text_there;
            decoded = decoded;
            filled = filled;
            format = format;
            format_there = (field_iff invalid_extraction "template_format" reply format).0 h7;
            format_read = refl;
            format_right = (eq_iff (json_text floats repr format) "sourceafis").0 format_right;
            version = version;
            version_there = (field_iff invalid_extraction "template_version" reply version).0 h9;
            version_read = refl;
            version_right = (eq_iff (json_text floats repr version) "3.18.1").0 version_right;
            elapsed_ms = elapsed_ms;
            elapsed_there = (field_iff invalid_extraction "elapsed_ms" reply elapsed_ms).0 h11;
            elapsed_read =
                (float_field-iff-Reads floats repr connection invalid_extraction elapsed_ms
                    elapsed).0
                  h13;
            elapsed_finite = elapsed_finite;
            not_negative = not_negative;
          };
        })

  checked_template-accepted :
      (reply : Members F) (t : ExtractedTemplate F)
      → CarriesTemplate reply t
      → checked_template floats repr connection t ≡ ok t
  unfolding checked_template
  checked_template-accepted reply t c =
      rw
        (
          c.filled,
          (eq_iff t.format_id "sourceafis").1 c.format_right,
          (eq_iff t.format_version "3.18.1").1 c.version_right,
          c.elapsed_finite,
          c.not_negative,
        )
        refl

  -- The template that the reply's values make.
  checked_template-made :
      (reply : Members F) (t : ExtractedTemplate F) (c : CarriesTemplate reply t)
      → checked_template floats repr connection (record t {
        format_id = json_text floats repr c.format;
        format_version = json_text floats repr c.version;
      })
        ≡ ok t
  checked_template-made reply t c =
      ap
        (λ id.
          checked_template floats repr connection
            (record t { format_id = id; format_version = json_text floats repr c.version }))
        (sym c.format_read)
      ∙ ap
          (λ number. checked_template floats repr connection (record t { format_version = number }))
          (sym c.version_read)
      ∙ checked_template-accepted reply t c

  base64_field-decoded :
      (text : String) (payload : List ℕ)
      → b64decode (codes text) ≡ some payload
      → base64_field {F = F} invalid_extraction (str text) ≡ ok payload
  unfolding base64_field
  base64_field-decoded text payload h = rw (base64_field, h) refl

  Extracted-extract_template :
      (image_bytes : List ℕ) (dpi : ℤ) (s : ClientState C) (t : ExtractedTemplate F)
      (after : ClientState C)
      → Extracted image_bytes dpi s t after
      → extract_template floats repr connection encode image_bytes dpi s ≡ (ok t, after)
  unfolding extract_template lift
  Extracted-extract_template image_bytes dpi s t after x =
      let c = x.template in
      lift_run _ _ s tt
        (ap (λ b. require b (client_error "invalid_dpi" "DPI must be 1000 or 2000" none)) x.known)
        (bind_run _ _ s after x.reply
          ((request_json-iff-Answered floats repr connection (extract_request image_bytes dpi) s
              x.reply after).1
            x.answer)
          (lift_run _ _ after (str c.template_base64) ((field_iff _ _ x.reply _).1 c.carried) (
            lift_run _ _ after t.payload
              (base64_field-decoded c.template_base64 t.payload c.decoded)
              (lift_run _ _ after c.format ((field_iff _ _ x.reply _).1 c.format_there) (
                lift_run _ _ after c.version ((field_iff _ _ x.reply _).1 c.version_there) (
                  lift_run _ _ after c.elapsed_ms ((field_iff _ _ x.reply _).1 c.elapsed_there) (
                    lift_run _ _ after t.elapsed_ms
                      ((float_field-iff-Reads floats repr connection _ c.elapsed_ms t.elapsed_ms).1
                        c.elapsed_read)
                      (ap (λ r. (r, after)) (checked_template-made x.reply t c)))))))))

  -- `extract_template` returns a template exactly if the DPI is 1000 or 2000, the client was open, the
  -- service answered its one request, which carries the image's base64 text and the DPI, with a success,
  -- and the reply has a base64 text that is decoded to the template's bytes, which are not none, the
  -- format "sourceafis", the version "3.18.1", and a time that is read as the template's, finite and
  -- not negative; the client is then as the answer left it.
  pub extract_template-iff-Extracted :
      (image_bytes : List ℕ) (dpi : ℤ) (s : ClientState C) (t : ExtractedTemplate F)
      (after : ClientState C)
      → (extract_template floats repr connection encode image_bytes dpi s ≡ (ok t, after))
        ↔ Extracted image_bytes dpi s t after
  extract_template-iff-Extracted image_bytes dpi s t after = (
    extract_template-Extracted image_bytes dpi s t after,
    Extracted-extract_template image_bytes dpi s t after,
  )
