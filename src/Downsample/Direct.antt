-- ===== src/Downsample/Direct.antt =====
-- The direct two-dimensional loops compute the convolution, and never index out of range.
use native.Mathlib.Nat.{zero-add}
use fingerprint_full_matcher.Prelude.{
  ℕ, suc, ◌+◌, ◌*◌, ◌/◌, ◌<◌, min, ◌≡◌, refl, ◌∙◌, ap, List, [], ◌∷◌, map, length, get_or,
  All-get_or, range_by, arith,
}
use fingerprint_full_matcher.Prelude.Int.{ℤ, pos, ◌+ℤ◌, ◌-ℤ◌}
use fingerprint_full_matcher.Prelude.Result.{ok, collect-total, subscript, subscript-pos}
use fingerprint_full_matcher.Downsample.{Pixels, radius, kernel_q31, denominator}
use fingerprint_full_matcher.Downsample.Reference.{
  edge, offsets, row_sum, window_sum, quantize, result_value, result_row, convolve_pixels,
}
use fingerprint_full_matcher.Downsample.Convolution.{
  nearest, weigh, filtered, convolved, quantized, convolution, width_of, IsImage,
}
use fingerprint_full_matcher.Downsample.Separable.{nearest-lt}

edge-nearest :
    (center k extent : ℕ)
    → 0 < extent
    → edge (pos center +ℤ (pos k -ℤ pos radius)) extent ≡ pos (nearest center k extent)
unfolding edge
edge-nearest center k extent h = ground arith

-- From the offset number `k` on, each offset is `k - radius`, and finds its coefficient.
abbrev Aligned : ℕ → List ℤ → List ℕ → Type 0
Aligned k [] [] = Unit
Aligned k (offset ∷ os) (c ∷ cs) =
    (offset ≡ pos k -ℤ pos radius)
    × (subscript kernel_q31 (offset +ℤ pos radius) ≡ ok c)
    × Aligned (suc k) os cs
Aligned k _ _ = ⊥

offsets-Aligned : Aligned 0 offsets kernel_q31
unfolding subscript
offsets-Aligned = (
  refl,
  refl,
  (
    refl,
    refl,
    (
      refl,
      refl,
      (refl, refl, (refl, refl, (refl, refl, (refl, refl, (refl, refl, (refl, refl, tt)))))),
    ),
  ),
)

quantize-min : (n : ℕ) → quantize n ≡ min 255 n
unfolding quantize
quantize-min n = ground arith

module _ (pixels : Pixels) (image : IsImage pixels) where
  abbrev height : ℕ
  height = length pixels

  abbrev width : ℕ
  width = width_of pixels

  row_sum-eq-weigh :
      (y x y_weight k : ℕ) (os : List ℤ) (cs : List ℕ) (accumulator : ℕ)
      → y < height
      → Aligned k os cs
      → row_sum pixels (pos y) width x y_weight os accumulator
        ≡ ok (
            accumulator
            + y_weight * weigh (λ j. get_or (get_or pixels y []) (nearest x j width) 0) k cs)
  unfolding row_sum weigh
  row_sum-eq-weigh y x y_weight k [] [] accumulator h a = ap ok (omega arith)
  row_sum-eq-weigh y x y_weight k (o ∷ os) (c ∷ cs) accumulator h a =
      let row = get_or pixels y [] in
      let long : length row ≡ width =
        All-get_or (λ row. length row ≡ width) pixels y [] image.rectangular h in
      rw
        (
          a.1,
          subscript-pos pixels y [] h,
          a.0,
          edge-nearest x k width image.has_columns,
          subscript-pos row (nearest x k width) 0
              (omega (arith, nearest-lt x k width image.has_columns)),
          row_sum-eq-weigh y x y_weight (suc k) os cs _ h a.2,
        )
        (ap ok (omega arith))
  row_sum-eq-weigh y x y_weight k [] (c ∷ cs) accumulator h a = absurd a
  row_sum-eq-weigh y x y_weight k (o ∷ os) [] accumulator h a = absurd a

  window_sum-eq-weigh :
      (y x k : ℕ) (os : List ℤ) (cs : List ℕ) (accumulator : ℕ)
      → Aligned k os cs
      → window_sum pixels height width y x os accumulator
        ≡ ok (
            accumulator
            + weigh (λ i. filtered (get_or pixels (nearest y i height) []) width x) k cs)
  unfolding window_sum weigh
  window_sum-eq-weigh y x k [] [] accumulator a = ap ok (omega arith)
  window_sum-eq-weigh y x k (o ∷ os) (c ∷ cs) accumulator a =
      rw
        (
          a.1,
          a.0,
          edge-nearest y k height image.has_rows,
          row_sum-eq-weigh (nearest y k height) x c 0 offsets kernel_q31 accumulator
              (nearest-lt y k height image.has_rows) offsets-Aligned,
          window_sum-eq-weigh y x (suc k) os cs _ a.2,
        )
        (ap ok (omega arith))
  window_sum-eq-weigh y x k [] (c ∷ cs) accumulator a = absurd a
  window_sum-eq-weigh y x k (o ∷ os) [] accumulator a = absurd a

  result_value-eq-quantized :
      (y x : ℕ) → result_value pixels height width y x ≡ ok (quantized pixels y x)
  unfolding result_value convolved
  result_value-eq-quantized y x =
      rw (window_sum-eq-weigh y x 0 offsets kernel_q31 0 offsets-Aligned)
        (ap ok (quantize-min _ ∙ ap (λ t. min 255 (t / denominator)) (zero-add _)))

  result_row-eq-map :
      (y : ℕ)
      → result_row pixels height width y ≡ ok (map (quantized pixels y) (range_by 1 width 2))
  unfolding result_row
  result_row-eq-map y =
      collect-total _ (quantized pixels y) (result_value-eq-quantized y) (range_by 1 width 2)

  -- On a validated matrix the loops return the convolution: no lookup fails.
  pub convolve_pixels-eq-convolution : convolve_pixels pixels ≡ ok (convolution pixels)
  unfolding convolve_pixels convolution
  convolve_pixels-eq-convolution = rw (subscript-pos pixels 0 [] image.has_rows) (
      collect-total _ (λ y. map (quantized pixels y) (range_by 1 width 2)) result_row-eq-map
        (range_by 1 height 2))
