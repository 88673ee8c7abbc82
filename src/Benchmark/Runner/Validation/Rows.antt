-- ===== src/Benchmark/Runner/Validation/Rows.antt =====
-- `_result_for_pair` with an adapter that keeps the contract.
use fingerprint_full_matcher.Prelude.{
  ℕ, String, true, false, ◌&&◌, Option, none, some, ◌≡◌, refl, inl, inr, arith, Bool-cases,
}
use fingerprint_full_matcher.Prelude.Dict.{Dict}
use fingerprint_full_matcher.Prelude.Result.{ok}
use fingerprint_full_matcher.Prelude.Action.Rules.{Yields, Yields-bind, Yields-lift}
use fingerprint_full_matcher.Benchmark.Floats.{Floats, FloatLaws}
use fingerprint_full_matcher.Benchmark.Contract.{
  PreparedRepresentation, MatcherAdapter, ImageMetadata, PrepareOutcome, IsPrepareOutcome,
  IsCompareOutcome, is_none,
}
use fingerprint_full_matcher.Benchmark.Manifest.{PairRecord, ProtocolManifest}
use fingerprint_full_matcher.Benchmark.Adapter.{ClientApi, adapter}
use fingerprint_full_matcher.Benchmark.Adapter.Outcomes.{
  HasCodes, prepare-IsPrepareOutcome, compare-IsCompareOutcome,
}
use fingerprint_full_matcher.Benchmark.Runner.{
  Value, is_ok, result_for_pair, comparison_of, compare_prepared,
}
use fingerprint_full_matcher.Benchmark.Runner.Validation.{written, check_row}
use fingerprint_full_matcher.Benchmark.Runner.Validation.Accepted.{
  IsComparison, IsEnding-ending, check_row-written, columns-full_row,
}

module _ {S F : Type 0} (floats : Floats F) where
  -- What the runner relies on of an adapter: `prepare` and `compare` return outcomes that the
  -- constructors let through.
  pub record IsAdapter (adapter : MatcherAdapter S F) : Type 0 where
    pub prepared :
        (path : String) (m : ImageMetadata) → Yields IsPrepareOutcome (adapter.prepare path m)
    pub compared :
        (a b : PreparedRepresentation) → Yields (IsCompareOutcome floats) (adapter.compare a b)

  pub adapter-IsAdapter :
      (client : ClientApi S F) → HasCodes floats client → IsAdapter (adapter floats client)
  unfolding Yields
  adapter-IsAdapter client codes = record {
    prepared = λ path m s. prepare-IsPrepareOutcome floats client codes path m s;
    compared = λ a b s. compare-IsCompareOutcome floats client codes a b s;
  }

module _ {S F : Type 0} (floats : Floats F) (laws : FloatLaws floats)
    (stable_sha256 : Dict (Value F) → String) (adapter : MatcherAdapter S F)
    (good : IsAdapter floats adapter) where
  present_value : {A : Type 0} (o : Option A) → is_none o ≡ false → (a : A) × (o ≡ some a)
  present_value none h = cc h
  present_value (some a) h = (a, refl)

  has_representation :
      (o : PrepareOutcome F)
      → IsPrepareOutcome o
      → is_ok o.status ≡ true
      → (r : PreparedRepresentation) × (o.representation ≡ some r)
  has_representation o (inl (_, present, _)) okay = present_value o.representation present
  has_representation o (inr (failed, _, _)) okay = cc (failed, okay)

  Yields-compared :
      (a b : PrepareOutcome F) (ra rb : PreparedRepresentation)
      → is_ok a.status ≡ true
      → is_ok b.status ≡ true
      → Yields
          (IsComparison floats laws a b)
          (compare_prepared stable_sha256 adapter (some ra) (some rb))
  unfolding compare_prepared
  Yields-compared a b ra rb oka okb =
      Yields-bind (IsCompareOutcome floats) (IsComparison floats laws a b) _ _ (good.compared ra rb)
        λ c hc. Yields-lift S (IsComparison floats laws a b) _ (some c) refl (oka, okb, hc)

  Yields-compare_prepared :
      (a b : PrepareOutcome F)
      → IsPrepareOutcome a
      → IsPrepareOutcome b
      → is_ok a.status ≡ true
      → is_ok b.status ≡ true
      → Yields
          (IsComparison floats laws a b)
          (compare_prepared stable_sha256 adapter a.representation b.representation)
  Yields-compare_prepared a b ha hb oka okb =
      let (ra, ea) = has_representation a ha oka in
      let (rb, eb) = has_representation b hb okb in rw (ea, eb) (Yields-compared a b ra rb oka okb)

  Yields-comparison_of :
      (a b : PrepareOutcome F)
      → IsPrepareOutcome a
      → IsPrepareOutcome b
      → Yields (IsComparison floats laws a b) (comparison_of stable_sha256 adapter a b)
  unfolding comparison_of
  Yields-comparison_of a b ha hb = elim (Bool-cases (is_ok a.status && is_ok b.status)) [
    | inl both ↦ rw both (Yields-compare_prepared a b ha hb (ground arith) (ground arith))
    | inr other ↦ rw other (Yields-lift S (IsComparison floats laws a b) (ok none) none refl other)
  ]

  pub Yields-result_for_pair :
      (run_id : String) (manifest : ProtocolManifest) (pair_index : ℕ) (pair : PairRecord)
      → Yields
          (λ row. check_row floats stable_sha256 run_id (written floats row) ≡ ok tt)
          (result_for_pair stable_sha256 adapter run_id manifest pair_index pair)
  unfolding result_for_pair
  Yields-result_for_pair run_id manifest pair_index pair =
      Yields-bind IsPrepareOutcome _ _ _ (good.prepared pair.path_a _) λ a ha.
        Yields-bind IsPrepareOutcome _ _ _ (good.prepared pair.path_b _) λ b hb.
          Yields-bind (IsComparison floats laws a b) _ _ _ (Yields-comparison_of a b ha hb) λ c hc.
            let (row, e) =
              columns-full_row floats laws stable_sha256 run_id manifest pair_index pair
                adapter.metadata a b c in
            Yields-lift S
              (λ row. check_row floats stable_sha256 run_id (written floats row) ≡ ok tt) _ row e
              (check_row-written floats laws stable_sha256 run_id manifest pair_index pair
                adapter.metadata a b c (IsEnding-ending floats laws a b c ha hb hc) row e)

  -- With an adapter that keeps the contract, the row of a pair is computed whatever the outcomes are,
  -- and the validator accepts it as it reads it from the written file: score or failure, the numbers
  -- and the hash of the payload.
  pub result_for_pair-check_row :
      (run_id : String) (manifest : ProtocolManifest) (pair_index : ℕ) (pair : PairRecord) (s : S)
      → (row : Dict (Value F)) × ((result_for_pair stable_sha256 adapter run_id manifest pair_index
            pair s).0
          ≡ ok row)
        × (check_row floats stable_sha256 run_id (written floats row) ≡ ok tt)
  unfolding Yields
  result_for_pair-check_row run_id manifest pair_index pair s =
      Yields-result_for_pair run_id manifest pair_index pair s
