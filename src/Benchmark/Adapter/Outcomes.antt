-- ===== src/Benchmark/Adapter/Outcomes.antt =====
-- What the SourceAFIS adapter returns, and when it raises.
use fingerprint_full_matcher.Prelude.{String, Bool, true, false, ◌≡◌}
use fingerprint_full_matcher.Prelude.Int.{ℤ}
use fingerprint_full_matcher.Prelude.Text.{is_empty}
use fingerprint_full_matcher.Prelude.Result.{Result, ok, err, Exception}
use fingerprint_full_matcher.Prelude.Action.{lift, ◌>>=◌}
use fingerprint_full_matcher.Prelude.Action.Rules.{
  Raises, Returns, Raises-bind, Returns-bind, Raises-try_except, Returns-try_except, returned_value,
}
use fingerprint_full_matcher.Benchmark.Floats.{Floats}
use fingerprint_full_matcher.Benchmark.Contract.{
  Bytes, PreparedRepresentation, PrepareOutcome, new_prepare_outcome, IsPrepareOutcome,
  CompareOutcome, new_compare_outcome, IsCompareOutcome, ImageMetadata,
  new_prepare_outcome-IsPrepareOutcome, new_compare_outcome-IsCompareOutcome,
}
use fingerprint_full_matcher.Benchmark.Client.{Caught, client_error, other_error, uncaught}
use fingerprint_full_matcher.Benchmark.Adapter.{
  ClientApi, prepare, compare, prepare_body, failed_prepare, error_prepare, compare_body,
  failed_compare, error_compare, caught, insist, wall_ms,
}

-- An exception that the handlers catch, and that comes with a code if it is the client's.
abbrev pub HasCode : Caught → Type 0
HasCode (client_error code message status) = is_empty code ≡ false
HasCode (other_error message) = Unit
HasCode (uncaught e) = ⊥

module _ {S F : Type 0} (floats : Floats F) (client : ClientApi S F) where
  pub record HasCodes : Type 0 where
    pub extract : (b : Bytes) (ppi : ℤ) → Raises HasCode (client.extract_template b ppi)
    pub verify : (a b : Bytes) → Raises HasCode (client.verify a b)
    pub read : (path : String) → Raises HasCode (client.read_bytes path)

  Raises-failed_prepare :
      (started : F) (raised : Caught)
      → HasCode raised
      → Raises (λ e. ⊥) (failed_prepare floats client started raised)
  unfolding failed_prepare wall_ms new_prepare_outcome ◌>>=◌ lift Raises
  Raises-failed_prepare started (client_error code message status) coded s e h = cc (coded, h)
  Raises-failed_prepare started (other_error message) coded s e h = cc h
  Raises-failed_prepare started (uncaught e') coded s e h = coded

  Raises-failed_compare :
      (started : F) (raised : Caught)
      → HasCode raised
      → Raises (λ e. ⊥) (failed_compare floats client started raised)
  unfolding failed_compare wall_ms new_compare_outcome ◌>>=◌ lift Raises
  Raises-failed_compare started (client_error code message status) coded s e h = cc (coded, h)
  Raises-failed_compare started (other_error message) coded s e h = cc h
  Raises-failed_compare started (uncaught e') coded s e h = coded

  -- What the last step of a `try` returns is what the constructor let through.
  Returns-caught :
      {T : Type 0} (Q : T → Type 0) (r : Result Exception T)
      → ((t : T) → r ≡ ok t → Q t)
      → Returns {S = S} Q (lift (caught r))
  unfolding Returns lift caught
  Returns-caught Q (ok t') h s t e = h t (cc e)
  Returns-caught Q (err e') h s t e = cc e

  Returns-lift :
      {T : Type 0} (Q : T → Type 0) (r : Result Exception T)
      → ((t : T) → r ≡ ok t → Q t)
      → Returns {S = S} Q (lift r)
  unfolding Returns lift
  Returns-lift Q r h s t e = h t e

  Raises-caught : {T : Type 0} (r : Result Exception T) → Raises {S = S} HasCode (lift (caught r))
  unfolding Raises lift caught
  Raises-caught (ok t') s e h = cc h
  Raises-caught (err e') s (client_error code message status) h = cc h
  Raises-caught (err e') s (uncaught e'') h = cc h
  Raises-caught (err e') s (other_error message) h = tt

  Raises-insist : (b : Bool) (message : String) → Raises {S = S} HasCode (insist b message)
  unfolding Raises insist lift
  Raises-insist true message s e h = cc h
  Raises-insist false message s (client_error code other status) h = cc h
  Raises-insist false message s (uncaught e) h = cc h
  Raises-insist false message s (other_error other) h = tt

  module _ (codes : HasCodes) where
    Raises-wall_ms : (started : F) → Raises HasCode (wall_ms floats client started)
    unfolding wall_ms Raises
    Raises-wall_ms started s e h = cc h

    Raises-prepare_body :
        (started : F) (path : String) (m : ImageMetadata)
        → Raises HasCode (prepare_body floats client started path m)
    unfolding prepare_body
    Raises-prepare_body started path m = Raises-bind HasCode _ _ (Raises-insist _ _) λ _.
        Raises-bind HasCode _ _ (codes.read path) λ encoded.
          Raises-bind HasCode _ _ (codes.extract encoded m.nominal_ppi) λ extracted.
            Raises-bind HasCode _ _ (Raises-caught _) λ representation.
              Raises-bind HasCode _ _ (Raises-wall_ms started) λ wall. Raises-caught _

    Raises-compare_body :
        (started : F) (a b : PreparedRepresentation)
        → Raises HasCode (compare_body floats client started a b)
    unfolding compare_body
    Raises-compare_body started a b = Raises-bind HasCode _ _ (Raises-insist _ _) λ _.
        Raises-bind HasCode _ _ (codes.verify a.payload b.payload)
          λ verification. Raises-bind HasCode _ _ (Raises-wall_ms started) λ wall. Raises-caught _

  Returns-prepare_body :
      (started : F) (path : String) (m : ImageMetadata)
      → Returns IsPrepareOutcome (prepare_body floats client started path m)
  unfolding prepare_body
  Returns-prepare_body started path m = Returns-bind IsPrepareOutcome _ _ λ _.
      Returns-bind IsPrepareOutcome _ _ λ encoded. Returns-bind IsPrepareOutcome _ _ λ extracted.
        Returns-bind IsPrepareOutcome _ _ λ representation.
          Returns-bind IsPrepareOutcome _ _ λ wall.
            Returns-caught IsPrepareOutcome _ λ o h. (new_prepare_outcome-IsPrepareOutcome _ o h).1

  Returns-error_prepare :
      (started : F) (code message : String)
      → Returns IsPrepareOutcome (error_prepare floats client started code message)
  unfolding error_prepare
  Returns-error_prepare started code message =
      Returns-bind IsPrepareOutcome _ _ λ wall.
        Returns-lift IsPrepareOutcome _ λ o h. (new_prepare_outcome-IsPrepareOutcome _ o h).1

  Returns-failed_prepare :
      (started : F) (raised : Caught)
      → Returns IsPrepareOutcome (failed_prepare floats client started raised)
  unfolding failed_prepare
  Returns-failed_prepare started (client_error code message status) =
      Returns-error_prepare started code message
  Returns-failed_prepare started (other_error message) = Returns-error_prepare started _ message
  Returns-failed_prepare started (uncaught e) = Returns-lift IsPrepareOutcome (err e) λ o h. cc h

  Returns-compare_body :
      (started : F) (a b : PreparedRepresentation)
      → Returns (IsCompareOutcome floats) (compare_body floats client started a b)
  unfolding compare_body
  Returns-compare_body started a b = Returns-bind (IsCompareOutcome floats) _ _ λ _.
      Returns-bind (IsCompareOutcome floats) _ _ λ verification.
        Returns-bind (IsCompareOutcome floats) _ _ λ wall.
          Returns-caught (IsCompareOutcome floats) _
            λ o h. (new_compare_outcome-IsCompareOutcome floats _ o h).1

  Returns-error_compare :
      (started : F) (code message : String)
      → Returns (IsCompareOutcome floats) (error_compare floats client started code message)
  unfolding error_compare
  Returns-error_compare started code message = Returns-bind (IsCompareOutcome floats) _ _ λ wall.
      Returns-lift (IsCompareOutcome floats) _
        λ o h. (new_compare_outcome-IsCompareOutcome floats _ o h).1

  Returns-failed_compare :
      (started : F) (raised : Caught)
      → Returns (IsCompareOutcome floats) (failed_compare floats client started raised)
  unfolding failed_compare
  Returns-failed_compare started (client_error code message status) =
      Returns-error_compare started code message
  Returns-failed_compare started (other_error message) = Returns-error_compare started _ message
  Returns-failed_compare started (uncaught e) =
      Returns-lift (IsCompareOutcome floats) (err e) λ o h. cc h

  pub Returns-prepare :
      (path : String) (m : ImageMetadata) → Returns IsPrepareOutcome (prepare floats client path m)
  unfolding prepare Returns
  Returns-prepare path m s =
      Returns-try_except IsPrepareOutcome
        (prepare_body floats client (client.perf_counter s).0 path m)
        (failed_prepare floats client (client.perf_counter s).0)
        (Returns-prepare_body (client.perf_counter s).0 path m)
        (Returns-failed_prepare (client.perf_counter s).0) (client.perf_counter s).1

  pub Returns-compare :
      (a b : PreparedRepresentation) → Returns (IsCompareOutcome floats) (compare floats client a b)
  unfolding compare Returns
  Returns-compare a b s =
      Returns-try_except (IsCompareOutcome floats)
        (compare_body floats client (client.perf_counter s).0 a b)
        (failed_compare floats client (client.perf_counter s).0)
        (Returns-compare_body (client.perf_counter s).0 a b)
        (Returns-failed_compare (client.perf_counter s).0) (client.perf_counter s).1

  module _ (codes : HasCodes) where
    Raises-prepare :
        (path : String) (m : ImageMetadata) → Raises (λ e. ⊥) (prepare floats client path m)
    unfolding prepare Raises
    Raises-prepare path m s =
        Raises-try_except HasCode (λ e. ⊥)
          (prepare_body floats client (client.perf_counter s).0 path m)
          (failed_prepare floats client (client.perf_counter s).0)
          (Raises-prepare_body codes (client.perf_counter s).0 path m)
          (Raises-failed_prepare (client.perf_counter s).0) (client.perf_counter s).1

    Raises-compare : (a b : PreparedRepresentation) → Raises (λ e. ⊥) (compare floats client a b)
    unfolding compare Raises
    Raises-compare a b s =
        Raises-try_except HasCode (λ e. ⊥)
          (compare_body floats client (client.perf_counter s).0 a b)
          (failed_compare floats client (client.perf_counter s).0)
          (Raises-compare_body codes (client.perf_counter s).0 a b)
          (Raises-failed_compare (client.perf_counter s).0) (client.perf_counter s).1

    -- If each exception of the client and the disk is one that the handlers catch, and no error of the
    -- client comes without a code, `prepare` raises nothing: it returns an outcome,
    -- with a representation and no error code where its status is "ok", and else with an error code
    -- and no representation.
    pub prepare-IsPrepareOutcome :
        (path : String) (m : ImageMetadata) (s : S)
        → (o : PrepareOutcome F) × ((prepare floats client path m s).0 ≡ ok o) × IsPrepareOutcome o
    prepare-IsPrepareOutcome path m s =
        returned_value IsPrepareOutcome (prepare floats client path m) (Raises-prepare path m)
          (Returns-prepare path m) s

    -- If each exception of the client and the disk is one that the handlers catch, and no error of the
    -- client comes without a code, `compare` raises nothing: it returns an outcome,
    -- with a finite score and no error code where its status is "ok", and else with an error code and
    -- no score.
    pub compare-IsCompareOutcome :
        (a b : PreparedRepresentation) (s : S)
        → (o : CompareOutcome F) × ((compare floats client a b s).0 ≡ ok o)
          × IsCompareOutcome floats o
    compare-IsCompareOutcome a b s =
        returned_value (IsCompareOutcome floats) (compare floats client a b) (Raises-compare a b)
          (Returns-compare a b) s
