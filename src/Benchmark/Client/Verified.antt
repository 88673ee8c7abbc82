-- ===== src/Benchmark/Client/Verified.antt =====
-- What `verify` returns, and exactly when.
use mathlib.Core.Path.{subst}
use fingerprint_full_matcher.Prelude.{
  ℕ, String, true, false, some, List, ◌≡◌, ◌∙◌, ◌↔◌, refl, ap, arith,
}
use fingerprint_full_matcher.Prelude.Base64.{b64encode}
use fingerprint_full_matcher.Prelude.Result.{ok}
use fingerprint_full_matcher.Prelude.Action.{lift}
use fingerprint_full_matcher.Prelude.Action.Rules.{bind_run, lift_run, bind_inverse, lift_inverse}
use fingerprint_full_matcher.Benchmark.Floats.{Floats}
use fingerprint_full_matcher.Benchmark.Json.{Json, str, Members, no_members, member, find}
use fingerprint_full_matcher.Benchmark.Client.{
  ClientState, Connection, Request, request_json, Verification, verify, checked_verification, field,
  float_field, invalid_verification,
}
use fingerprint_full_matcher.Benchmark.Client.Answers.{
  Reads, field_iff, float_field-iff-Reads, Answered, request_json-iff-Answered,
}

module _ {C F : Type 0} (floats : Floats F) (repr : Json F → String) (connection : Connection C F)
    (encode : List ℕ → String) where
  abbrev verify_request : List ℕ → List ℕ → Request F
  verify_request template_a template_b = record {
    method = "POST";
    path = "/verify";
    payload = some (
        member "template_a_base64" (str (encode (b64encode template_a)))
          (member "template_b_base64" (str (encode (b64encode template_b))) no_members));
  }

  -- The service answered the request about the two templates with two numbers, of which the score is
  -- finite, and the time is finite and not negative.
  pub record Verified (template_a template_b : List ℕ) (s : ClientState C) (v : Verification F)
      (after : ClientState C) : Type 0 where
    pub reply : Members F
    pub answer :
        Answered floats repr connection (verify_request template_a template_b) s reply after
    pub raw_score : Json F
    pub score_there : find "raw_score" reply ≡ some raw_score
    pub score_read : Reads floats repr connection raw_score v.score
    pub elapsed_ms : Json F
    pub elapsed_there : find "elapsed_ms" reply ≡ some elapsed_ms
    pub elapsed_read : Reads floats repr connection elapsed_ms v.elapsed_ms
    pub score_finite : floats.is_finite v.score ≡ true
    pub elapsed_finite : floats.is_finite v.elapsed_ms ≡ true
    pub not_negative : floats.is_negative v.elapsed_ms ≡ false

  checked_verification-returned :
      (t v : Verification F)
      → checked_verification floats repr connection t ≡ ok v
      → (t ≡ v)
        × (floats.is_finite t.score ≡ true)
        × (floats.is_finite t.elapsed_ms ≡ true)
        × (floats.is_negative t.elapsed_ms ≡ false)
  unfolding checked_verification
  checked_verification-returned t v h = (ground arith, ground arith, ground arith, ground arith)

  verify-Verified :
      (template_a template_b : List ℕ) (s : ClientState C) (v : Verification F)
      (after : ClientState C)
      → verify floats repr connection encode template_a template_b s ≡ (ok v, after)
      → Verified template_a template_b s v after
  unfolding verify lift
  verify-Verified template_a template_b s v after h =
      let (reply, between, asked, h1) =
        bind_inverse (request_json floats repr connection (verify_request template_a template_b)) _
          s after v h in
      let (raw_score, h2, h3) =
        lift_inverse (field invalid_verification "raw_score" reply) _ between after v h1 in
      let (score, h4, h5) =
        lift_inverse (float_field floats repr connection invalid_verification raw_score) _ between
          after v h3 in
      let (elapsed_ms, h6, h7) =
        lift_inverse (field invalid_verification "elapsed_ms" reply) _ between after v h5 in
      let (elapsed, h8, h9) =
        lift_inverse (float_field floats repr connection invalid_verification elapsed_ms) _ between
          after v h7 in
      let (same, score_finite, elapsed_finite, not_negative) =
        checked_verification-returned (record { score = score; elapsed_ms = elapsed }) v
          (ap (λ r. r.0) h9) in
      subst
        (λ (ended : Verification F × ClientState C).
          Verified template_a template_b s ended.0 ended.1)
        (ap (λ t. (t, between)) same ∙ ap (λ r. (v, r.1)) h9)
        (record {
          reply = reply;
          answer =
              (request_json-iff-Answered floats repr connection
                  (verify_request template_a template_b) s reply between).0
                asked;
          raw_score = raw_score;
          score_there = (field_iff invalid_verification "raw_score" reply raw_score).0 h2;
          score_read =
              (float_field-iff-Reads floats repr connection invalid_verification raw_score score).0
                h4;
          elapsed_ms = elapsed_ms;
          elapsed_there = (field_iff invalid_verification "elapsed_ms" reply elapsed_ms).0 h6;
          elapsed_read =
              (float_field-iff-Reads floats repr connection invalid_verification elapsed_ms
                  elapsed).0
                h8;
          score_finite = score_finite;
          elapsed_finite = elapsed_finite;
          not_negative = not_negative;
        })

  checked_verification-accepted :
      (v : Verification F)
      → floats.is_finite v.score ≡ true
      → floats.is_finite v.elapsed_ms ≡ true
      → floats.is_negative v.elapsed_ms ≡ false
      → checked_verification floats repr connection v ≡ ok v
  unfolding checked_verification
  checked_verification-accepted v h k l = rw (h, k, l) refl

  Verified-verify :
      (template_a template_b : List ℕ) (s : ClientState C) (v : Verification F)
      (after : ClientState C)
      → Verified template_a template_b s v after
      → verify floats repr connection encode template_a template_b s ≡ (ok v, after)
  unfolding verify lift
  Verified-verify template_a template_b s v after w =
      bind_run _ _ s after w.reply
        ((request_json-iff-Answered floats repr connection (verify_request template_a template_b) s
            w.reply after).1
          w.answer)
        (lift_run _ _ after w.raw_score ((field_iff _ _ w.reply w.raw_score).1 w.score_there) (
          lift_run _ _ after v.score
            ((float_field-iff-Reads floats repr connection _ w.raw_score v.score).1 w.score_read)
            (lift_run _ _ after w.elapsed_ms
              ((field_iff _ _ w.reply w.elapsed_ms).1 w.elapsed_there)
              (lift_run _ _ after v.elapsed_ms
                ((float_field-iff-Reads floats repr connection _ w.elapsed_ms v.elapsed_ms).1
                  w.elapsed_read)
                (ap (λ r. (r, after))
                  (checked_verification-accepted v w.score_finite w.elapsed_finite
                    w.not_negative))))))

  -- `verify` returns a verification exactly if the client was open, the service answered its one request,
  -- which carries the base64 texts of the two templates, with a success, and the reply has a raw score
  -- and a time that are read as the verification's, the score finite, the time finite and not negative;
  -- the client is then as the answer left it.
  pub verify-iff-Verified :
      (template_a template_b : List ℕ) (s : ClientState C) (v : Verification F)
      (after : ClientState C)
      → (verify floats repr connection encode template_a template_b s ≡ (ok v, after))
        ↔ Verified template_a template_b s v after
  verify-iff-Verified template_a template_b s v after = (
    verify-Verified template_a template_b s v after,
    Verified-verify template_a template_b s v after,
  )
