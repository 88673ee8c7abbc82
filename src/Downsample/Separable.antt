-- ===== src/Downsample/Separable.antt =====
-- The two separable passes compute the convolution, and never index out of range.
use mathlib.Core.Path.{fun_ext}
use native.Mathlib.Nat.{zero-add}
use fingerprint_full_matcher.Prelude.{
  ℕ, suc, ◌+◌, ◌<◌, ◌≡◌, ◌∙◌, ap, List, [], ◌∷◌, map, length, get_or, All, All-get_or, All-map,
  All-range_by, map-get_or, length-map, get_or-map, range_by, arith,
}
use fingerprint_full_matcher.Prelude.Int.{pos, ◌+ℤ◌, ◌-ℤ◌}
use fingerprint_full_matcher.Prelude.Result.{ok, collect, collect-ok, collect-total, subscript-pos}
use fingerprint_full_matcher.Downsample.{
  Pixels, radius, kernel_q31, clamp_index, horizontal_sum, vertical_sum, filtered_row, output_value,
  output_row, downsample_pixels,
}
use fingerprint_full_matcher.Downsample.Convolution.{
  nearest, weigh, filtered, convolved, quantized, convolution, width_of, IsImage,
}

clamp_index-nearest :
    (center k extent : ℕ)
    → 0 < extent
    → clamp_index (pos center +ℤ (pos k -ℤ pos radius)) extent ≡ pos (nearest center k extent)
unfolding clamp_index
clamp_index-nearest center k extent h = ground arith

pub nearest-lt : (center k extent : ℕ) → 0 < extent → nearest center k extent < extent
nearest-lt center k extent h = omega arith

horizontal_sum-eq-weigh :
    (row : List ℕ) (width x k : ℕ) (coefficients : List ℕ) (total : ℕ)
    → 0 < width
    → length row ≡ width
    → horizontal_sum row width x k coefficients total
      ≡ ok (total + weigh (λ j. get_or row (nearest x j width) 0) k coefficients)
unfolding horizontal_sum weigh
horizontal_sum-eq-weigh row width x k [] total h e = ap ok (omega arith)
horizontal_sum-eq-weigh row width x k (c ∷ cs) total h e =
    rw
      (
        clamp_index-nearest x k width h,
        subscript-pos row (nearest x k width) 0 (omega (arith, nearest-lt x k width h)),
        horizontal_sum-eq-weigh row width x (suc k) cs _ h e,
      )
      (ap ok (omega arith))

vertical_sum-eq-weigh :
    (horizontal : Pixels) (height columns y x k : ℕ) (coefficients : List ℕ) (total : ℕ)
    → 0 < height
    → length horizontal ≡ height
    → All (λ row. length row ≡ columns) horizontal
    → x < columns
    → vertical_sum horizontal height y x k coefficients total
      ≡ ok (
          total
          + weigh (λ i. get_or (get_or horizontal (nearest y i height) []) x 0) k coefficients)
unfolding vertical_sum weigh
vertical_sum-eq-weigh horizontal height columns y x k [] total h e r l = ap ok (omega arith)
vertical_sum-eq-weigh horizontal height columns y x k (c ∷ cs) total h e r l =
    let row = nearest y k height in
    let inside : row < length horizontal = omega (arith, nearest-lt y k height h) in
    let long : length (get_or horizontal row []) ≡ columns =
      All-get_or (λ row. length row ≡ columns) horizontal row [] r inside in
    rw
      (
        clamp_index-nearest y k height h,
        subscript-pos horizontal row [] inside,
        subscript-pos (get_or horizontal row []) x 0 (omega arith),
        vertical_sum-eq-weigh horizontal height columns y x (suc k) cs _ h e r l,
      )
      (ap ok (omega arith))

filtered_row-eq-map :
    (width : ℕ) (columns row : List ℕ)
    → 0 < width
    → length row ≡ width
    → filtered_row width columns row ≡ ok (map (filtered row width) columns)
unfolding filtered_row
filtered_row-eq-map width columns row h e =
    collect-total _ (filtered row width)
      (λ x. horizontal_sum-eq-weigh row width x 0 kernel_q31 0 h e ∙ ap ok (omega arith)) columns

All-of_map :
    (f : List ℕ → ℕ → ℕ) (columns : List ℕ) (pixels : Pixels)
    → All (λ row. length row ≡ length columns) (map (λ row. map (f row) columns) pixels)
All-of_map f columns [] = tt
All-of_map f columns (row ∷ rest) = (length-map (f row) columns, All-of_map f columns rest)

weigh-cong :
    (f g : ℕ → ℕ) (k : ℕ) (cs : List ℕ) → ((i : ℕ) → f i ≡ g i) → weigh f k cs ≡ weigh g k cs
weigh-cong f g k cs h = ap (λ t. weigh t k cs) (fun_ext h)

module _ (pixels : Pixels) (image : IsImage pixels) where
  abbrev height : ℕ
  height = length pixels

  abbrev width : ℕ
  width = width_of pixels

  abbrev columns : List ℕ
  columns = range_by 1 width 2

  abbrev horizontal : Pixels
  horizontal = map (λ row. map (filtered row width) columns) pixels

  horizontal_pass : collect (filtered_row width columns) pixels ≡ ok horizontal
  horizontal_pass =
      collect-ok (filtered_row width columns) (λ row. map (filtered row width) columns) pixels
        (All-map (λ row e. filtered_row-eq-map width columns row image.has_columns e) pixels
          image.rectangular)

  horizontal-rectangular : All (λ row. length row ≡ length columns) horizontal
  horizontal-rectangular = All-of_map (λ row. filtered row width) columns pixels

  horizontal-pixel :
      (y i : ℕ)
      → y < height
      → i < length columns
      → get_or (get_or horizontal y []) i 0
        ≡ filtered (get_or pixels y []) width (get_or columns i 0)
  horizontal-pixel y i hy hi =
      rw (get_or-map (λ row. map (filtered row width) columns) pixels y [] [] hy)
        (get_or-map (filtered (get_or pixels y []) width) columns i 0 0 hi)

  vertical_sum-eq-convolved :
      (y i : ℕ)
      → i < length columns
      → vertical_sum horizontal height y i 0 kernel_q31 0
        ≡ ok (convolved pixels height width y (get_or columns i 0))
  unfolding convolved
  vertical_sum-eq-convolved y i h =
      vertical_sum-eq-weigh horizontal height (length columns) y i 0 kernel_q31 0 image.has_rows
        (length-map _ pixels) horizontal-rectangular h
      ∙ ap ok (
          zero-add _
          ∙ weigh-cong _ _ 0 kernel_q31 (λ k.
            horizontal-pixel (nearest y k height) i (nearest-lt y k height image.has_rows) h))

  output_value-eq-quantized :
      (y i : ℕ)
      → i < length columns
      → output_value horizontal height y i ≡ ok (quantized pixels y (get_or columns i 0))
  unfolding output_value
  output_value-eq-quantized y i h = rw (vertical_sum-eq-convolved y i h) (ap ok (omega arith))

  output_row-eq-map :
      (y : ℕ)
      → output_row horizontal height (length columns) y ≡ ok (map (quantized pixels y) columns)
  unfolding output_row
  output_row-eq-map y =
      collect-ok _ (λ i. quantized pixels y (get_or columns i 0)) (range_by 0 (length columns) 1)
        (All-map (output_value-eq-quantized y) (range_by 0 (length columns) 1)
          (All-range_by (length columns)))
      ∙ ap ok (map-get_or (quantized pixels y) columns 0)

  -- On a validated matrix the passes return the convolution: no lookup fails.
  pub downsample_pixels-eq-convolution : downsample_pixels pixels ≡ ok (convolution pixels)
  unfolding downsample_pixels convolution
  downsample_pixels-eq-convolution = rw (
    subscript-pos pixels 0 [] image.has_rows,
    horizontal_pass,
    collect-total _ (λ y. map (quantized pixels y) columns) output_row-eq-map (range_by 1 height 2),
  )
