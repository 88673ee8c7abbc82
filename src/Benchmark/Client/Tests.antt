-- ===== src/Benchmark/Client/Tests.antt =====
-- The client against a service that answers with the template of three bytes, or with a number that
-- no float holds.
use fingerprint_full_matcher.Prelude.{
  ℕ, String, false, ◌≡◌, ◌↔◌, refl, none, List, [], ◌∷◌, str_eq, arith, if◌then◌else◌,
}
use fingerprint_full_matcher.Prelude.Int.{pos}
use fingerprint_full_matcher.Prelude.Base64.{b64encode}
use fingerprint_full_matcher.Prelude.Result.{ok, err, overflow_error}
use fingerprint_full_matcher.Prelude.Action.{◌>>=◌, lift}
use fingerprint_full_matcher.Benchmark.Floats.{Floats}
use fingerprint_full_matcher.Benchmark.Json.{
  Json, str, int, float, dict, member, no_members, Members, find,
}
use fingerprint_full_matcher.Benchmark.Sample.{floats}
use fingerprint_full_matcher.Benchmark.Client.{
  Connection, ClientState, replied, parsed, extract_template, verify, uncaught, request_json,
  ExtractedTemplate, Verification, field, float_field, checked_verification,
}
use fingerprint_full_matcher.Benchmark.Client.Replies.{TemplateReply, extract_template-decodes}
use fingerprint_full_matcher.Benchmark.Client.Extracted.{Extracted, extract_template-iff-Extracted}
use fingerprint_full_matcher.Benchmark.Client.Verified.{Verified, verify-iff-Verified}

abbrev repr : Json ℕ → String
repr v = "?"

abbrev encode : List ℕ → String
encode cs = "image"

abbrev template_members : Members ℕ
template_members = member "template_base64" (str "AQL/") (
    member "template_format" (str "sourceafis")
      (member "template_version" (str "3.18.1") (member "elapsed_ms" (float 3) no_members)))

abbrev verify_members : Members ℕ
verify_members = member "raw_score" (int (pos 41)) (member "elapsed_ms" (float 3) no_members)

abbrev service : Connection ℕ ℕ
service = record {
  exchange = λ r c. (
    replied 200
        (parsed (dict (if str_eq r.path "/verify" then verify_members else template_members))),
    c,
  );
  close = λ c. c;
}

abbrev start : ClientState ℕ
start = record { closed = false; connection = 0 }

abbrev template : ExtractedTemplate ℕ
template = record {
  payload = 1 ∷ 2 ∷ 255 ∷ [];
  format_id = "sourceafis";
  format_version = "3.18.1";
  elapsed_ms = 3;
}

reply : TemplateReply floats template_members (1 ∷ 2 ∷ 255 ∷ []) 3
unfolding find b64encode
reply = record {
  template_base64 = "AQL/";
  carried = refl;
  encoded = refl;
  bounded = (omega arith, (omega arith, (omega arith, tt)));
  filled = refl;
  format = refl;
  version = refl;
  timed = refl;
  finite = refl;
  not_negative = refl;
}

extract_template-decodes_example :
    extract_template floats repr service encode (9 ∷ []) (pos 1000) start ≡ (ok template, start)
extract_template-decodes_example =
    extract_template-decodes floats repr service encode (9 ∷ []) 1000 start 0 200 template_members
      (1 ∷ 2 ∷ 255 ∷ []) 3 refl refl refl (omega arith) reply

extract_template-iff-Extracted_example :
    (extract_template floats repr service encode (9 ∷ []) (pos 1000) start ≡ (ok template, start))
    ↔ Extracted floats repr service encode (9 ∷ []) (pos 1000) start template start
extract_template-iff-Extracted_example =
    extract_template-iff-Extracted floats repr service encode (9 ∷ []) (pos 1000) start template
      start

abbrev verification : Verification ℕ
verification = record { score = 41; elapsed_ms = 3 }

verified : verify floats repr service encode (1 ∷ []) (2 ∷ []) start ≡ (ok verification, start)
unfolding verify request_json ◌>>=◌ lift field float_field checked_verification find
verified = refl

verify-iff-Verified_example :
    (verify floats repr service encode (1 ∷ []) (2 ∷ []) start ≡ (ok verification, start))
    ↔ Verified floats repr service encode (1 ∷ []) (2 ∷ []) start verification start
verify-iff-Verified_example =
    verify-iff-Verified floats repr service encode (1 ∷ []) (2 ∷ []) start verification start

-- A score that no float holds raises an exception that neither the client nor the adapter catches.
abbrev narrow : Floats ℕ
narrow = record floats { of_int = λ z. none }

overflow :
    (verify narrow repr service encode (1 ∷ []) (2 ∷ []) start).0 ≡ err (uncaught overflow_error)
unfolding verify request_json ◌>>=◌ lift field float_field checked_verification find
overflow = refl
