-- ===== src/Benchmark/Adapter/Tests.antt =====
-- The adapter on concrete images.
use fingerprint_full_matcher.Prelude.{
  ℕ, String, ◌≡◌, refl, none, some, [], ◌∷◌, str_eq, Bool-cases, inl, inr,
}
use fingerprint_full_matcher.Prelude.Result.{ok, err, value_error}
use fingerprint_full_matcher.Prelude.Action.{◌>>=◌, lift, try_except}
use fingerprint_full_matcher.Prelude.Action.Rules.{Raises}
use fingerprint_full_matcher.Benchmark.Contract.{
  PreparedRepresentation, PrepareOutcome, CompareOutcome, IsPrepareOutcome, IsCompareOutcome,
  new_prepare_outcome, new_representation,
}
use fingerprint_full_matcher.Benchmark.Sample.{floats, client, image, read_bytes, unreadable}
use fingerprint_full_matcher.Benchmark.Adapter.{
  ClientApi, prepare, compare, wall_ms, caught, insist,
}
use fingerprint_full_matcher.Benchmark.Client.{Caught, client_error, other_error, uncaught}
use fingerprint_full_matcher.Benchmark.Adapter.Outcomes.{
  HasCodes, HasCode, prepare-IsPrepareOutcome, compare-IsCompareOutcome,
}

HasCode-read_bytes :
    (path : String) (s : ℕ) (e : Caught) → (read_bytes path s).0 ≡ err e → HasCode e
HasCode-read_bytes path s (other_error message) h = tt
HasCode-read_bytes path s (uncaught raised) h = elim (Bool-cases (str_eq path "missing.png")) [
  | inl missing ↦ cc (missing, h)
  | inr other ↦ cc (other, h)
]
HasCode-read_bytes path s (client_error code message status) h =
    elim (Bool-cases (str_eq path "missing.png")) [
      | inl missing ↦ cc (missing, h)
      | inr other ↦ cc (other, h)
    ]

pub codes : HasCodes floats client
unfolding Raises
codes = record {
  extract = λ b ppi s e h. cc h;
  verify = λ a b s e h. cc h;
  read = HasCode-read_bytes;
}

-- A client whose service answers with an empty error code.
abbrev nameless : ClientApi ℕ ℕ
nameless = record client {
  extract_template = λ b ppi s. (err (client_error "" "refused" (some 500)), s);
}

-- The handler itself raises then, and `prepare` does not return an outcome.
nameless_raises :
    (prepare floats nameless "a.png" image 0).0
    ≡ err (value_error "failed preparation requires no value and an error code")
unfolding prepare try_except ◌>>=◌ lift insist caught new_representation new_prepare_outcome wall_ms
nameless_raises = refl

abbrev timed : PrepareOutcome ℕ
timed = record {
  status = "ok";
  representation =
      some (record { payload = 7 ∷ 8 ∷ []; format_id = "sourceafis"; format_version = "3.18.1" });
  error_code = none;
  error_message = none;
  wall_ms = some 4000;
  internal_ms = some 3;
}

prepared : (prepare floats client "a.png" image 0).0 ≡ ok timed
unfolding prepare try_except ◌>>=◌ lift insist caught new_representation new_prepare_outcome wall_ms
prepared = refl

prepare-IsPrepareOutcome_example :
    (o : PrepareOutcome ℕ) × ((prepare floats client unreadable image 0).0 ≡ ok o)
    × IsPrepareOutcome o
prepare-IsPrepareOutcome_example = prepare-IsPrepareOutcome floats client codes unreadable image 0

abbrev template : PreparedRepresentation
template = record { payload = 7 ∷ 8 ∷ []; format_id = "sourceafis"; format_version = "3.18.1" }

compare-IsCompareOutcome_example :
    (o : CompareOutcome ℕ) × ((compare floats client template template 0).0 ≡ ok o)
    × IsCompareOutcome floats o
compare-IsCompareOutcome_example = compare-IsCompareOutcome floats client codes template template 0
