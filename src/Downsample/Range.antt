-- ===== src/Downsample/Range.antt =====
-- The kernel's coefficients sum to the fixed-point one, so an output lies between the least and the
-- greatest input, and clipping never changes it.
use mathlib.Core.Path.{fun_ext}
use fingerprint_full_matcher.Prelude.{
  ℕ, suc, ◌+◌, ◌*◌, ◌/◌, ◌≤◌, ◌<◌, ◌≡◌, refl, ap, ◌∙◌, List, [], ◌∷◌, map, length, get_or, All,
  All-get_or, All-map, range_by, arith,
}
use fingerprint_full_matcher.Prelude.Result.{ok}
use fingerprint_full_matcher.Downsample.{
  Input, Pixels, kernel_q31, q31_scale, denominator, validate_input, downsample_u8_matrix,
}
use fingerprint_full_matcher.Downsample.Convolution.{
  nearest, weigh, filtered, convolved, quantized, convolution, width_of, IsImage,
}
use fingerprint_full_matcher.Downsample.Separable.{nearest-lt}
use fingerprint_full_matcher.Downsample.Validation.{validate_input-IsImage}
use fingerprint_full_matcher.Downsample.Laws.{downsample_ok}

sum : List ℕ → ℕ
sum [] = 0
sum (c ∷ cs) = c + sum cs

sum-kernel : sum kernel_q31 ≡ q31_scale
unfolding sum
sum-kernel = refl

weigh_ge :
    (lo : ℕ) (f : ℕ → ℕ) → ((i : ℕ) → lo ≤ f i) → (k : ℕ) (cs : List ℕ) → lo * sum cs ≤ weigh f k cs
unfolding sum weigh
weigh_ge lo f h k [] = omega arith
weigh_ge lo f h k (c ∷ cs) = grind (arith, weigh_ge lo f h (suc k) cs, h k)

weigh_le :
    (hi : ℕ) (f : ℕ → ℕ) → ((i : ℕ) → f i ≤ hi) → (k : ℕ) (cs : List ℕ) → weigh f k cs ≤ hi * sum cs
unfolding sum weigh
weigh_le hi f h k [] = omega arith
weigh_le hi f h k (c ∷ cs) = grind (arith, weigh_le hi f h (suc k) cs, h k)

abbrev pub Between : ℕ → ℕ → ℕ → Type 0
Between lo hi v = (lo ≤ v) × (v ≤ hi)

module _ (pixels : Pixels) (image : IsImage pixels) (lo hi : ℕ)
    (within : All (All (Between lo hi)) pixels) where
  pixel-Between :
      (y x i j : ℕ)
      → Between lo hi (
          get_or (get_or pixels (nearest y i (length pixels)) []) (nearest x j (width_of pixels)) 0)
  pixel-Between y x i j =
      let row = nearest y i (length pixels) in
      let inside : row < length pixels = nearest-lt y i (length pixels) image.has_rows in
      let long : length (get_or pixels row []) ≡ width_of pixels =
        All-get_or (λ r. length r ≡ width_of pixels) pixels row [] image.rectangular inside in
      All-get_or (Between lo hi) (get_or pixels row []) (nearest x j (width_of pixels)) 0
        (All-get_or (All (Between lo hi)) pixels row [] within inside)
        (omega (arith, nearest-lt x j (width_of pixels) image.has_columns))

  filtered-Between :
      (y x i : ℕ)
      → Between
          (lo * q31_scale)
          (hi * q31_scale)
          (filtered (get_or pixels (nearest y i (length pixels)) []) (width_of pixels) x)
  filtered-Between y x i = (
    rw sum-kernel at (weigh_ge lo _ (λ j. (pixel-Between y x i j).0) 0 kernel_q31),
    rw sum-kernel at (weigh_le hi _ (λ j. (pixel-Between y x i j).1) 0 kernel_q31),
  )

  convolved-Between :
      (y x : ℕ)
      → Between
          (lo * q31_scale * q31_scale)
          (hi * q31_scale * q31_scale)
          (convolved pixels (length pixels) (width_of pixels) y x)
  unfolding convolved
  convolved-Between y x = (
    rw sum-kernel at (weigh_ge (lo * q31_scale) _ (λ i. (filtered-Between y x i).0) 0 kernel_q31),
    rw sum-kernel at (weigh_le (hi * q31_scale) _ (λ i. (filtered-Between y x i).1) 0 kernel_q31),
  )

  truncated-Between :
      (y x : ℕ)
      → Between lo hi (convolved pixels (length pixels) (width_of pixels) y x / denominator)
  truncated-Between y x = omega (arith, convolved-Between y x)

All-map_intro {ℓ} :
    {A : Type ℓ} (P : ℕ → Type 0) (f : A → ℕ)
    → ((x : A) → P (f x))
    → (xs : List A) → All P (map f xs)
All-map_intro P f h [] = tt
All-map_intro P f h (x ∷ xs) = (h x, All-map_intro P f h xs)

All-All-map :
    (P : ℕ → Type 0) (f : ℕ → ℕ → ℕ) (xs ys : List ℕ)
    → ((y x : ℕ) → P (f y x))
    → All (All P) (map (λ y. map (f y) xs) ys)
All-All-map P f xs [] h = tt
All-All-map P f xs (y ∷ ys) h = (All-map_intro P (f y) (h y) xs, All-All-map P f xs ys h)

-- The convolution with nothing clipped.
abbrev pub truncated : Pixels → Pixels
truncated pixels =
    map
      (λ y.
        map (λ x. convolved pixels (length pixels) (width_of pixels) y x / denominator)
          (range_by 1 (width_of pixels) 2))
      (range_by 1 (length pixels) 2)

convolution-truncated : (pixels : Pixels) → IsImage pixels → convolution pixels ≡ truncated pixels
unfolding convolution
convolution-truncated pixels image =
    let bytes : All (All (Between 0 255)) pixels =
      All-map (λ row. All-map (λ v h. omega arith) row) pixels image.bytes in
    let same : (y x : ℕ)
        → quantized pixels y x
          ≡ convolved pixels (length pixels) (width_of pixels) y x / denominator =
      λ y x. omega (arith, truncated-Between pixels image 0 255 bytes y x) in
    ap
      (λ (f : ℕ → ℕ → ℕ).
        map (λ y. map (f y) (range_by 1 (width_of pixels) 2)) (range_by 1 (length pixels) 2))
      (fun_ext (λ y. fun_ext (same y)))

-- On an input that validation accepts, the clamp to 255 never changes a value: the result is the
-- convolution, divided by the square of the fixed-point one and rounded down.
pub downsample-truncated :
    (v : Input) (pixels : Pixels)
    → validate_input v ≡ ok pixels
    → downsample_u8_matrix v ≡ ok (truncated pixels)
downsample-truncated v pixels e =
    downsample_ok v pixels e
    ∙ ap ok (convolution-truncated pixels (validate_input-IsImage v pixels e))

-- If every pixel of an accepted input lies between `lo` and `hi`, the downsampler returns a matrix
-- whose every value does. So a constant image stays constant.
pub downsample-Between :
    (v : Input) (pixels : Pixels) (lo hi : ℕ)
    → validate_input v ≡ ok pixels
    → All (All (Between lo hi)) pixels
    → (out : Pixels) × (downsample_u8_matrix v ≡ ok out) × All (All (Between lo hi)) out
downsample-Between v pixels lo hi e within = (
  truncated pixels,
  downsample-truncated v pixels e,
  All-All-map (Between lo hi) _ (range_by 1 (width_of pixels) 2) (range_by 1 (length pixels) 2)
      (truncated-Between pixels (validate_input-IsImage v pixels e) lo hi within),
)
