-- ===== src/Downsample/Convolution.antt =====
-- What the downsampler computes, without loops or errors: a kernel-weighted window around every
-- odd row and column, with the border replicated.
use fingerprint_full_matcher.Prelude.{
  ℕ, suc, ◌+◌, ◌-◌, ◌*◌, ◌/◌, ◌≤◌, ◌<◌, min, ◌≡◌, List, [], ◌∷◌, map, length, get_or, All, range_by,
}
use fingerprint_full_matcher.Downsample.{Pixels, radius, kernel_q31, denominator}

-- The coordinate `center + k - radius`, moved to the nearest one below `extent`.
abbrev pub nearest : ℕ → ℕ → ℕ → ℕ
nearest center k extent = min (extent - 1) (center + k - radius)

abbrev pub pixel : Pixels → ℕ → ℕ → ℕ
pixel pixels y x = get_or (get_or pixels y []) x 0

-- The sum of `f i` times the coefficient number `i`, from `k` on.
unfoldable pub weigh : (ℕ → ℕ) → ℕ → List ℕ → ℕ
weigh f k [] = 0
weigh f k (coefficient ∷ rest) = f k * coefficient + weigh f (suc k) rest

-- The filtered value of row `y` at column `x`.
abbrev pub filtered : List ℕ → ℕ → ℕ → ℕ
filtered row width x = weigh (λ k. get_or row (nearest x k width) 0) 0 kernel_q31

unfoldable pub convolved : Pixels → ℕ → ℕ → ℕ → ℕ → ℕ
convolved pixels height width y x =
    weigh (λ k. filtered (get_or pixels (nearest y k height) []) width x) 0 kernel_q31

abbrev pub width_of : Pixels → ℕ
width_of pixels = length (get_or pixels 0 [])

abbrev pub quantized : Pixels → ℕ → ℕ → ℕ
quantized pixels y x =
    min 255 (convolved pixels (length pixels) (width_of pixels) y x / denominator)

unfoldable pub convolution : Pixels → Pixels
convolution pixels =
    map (λ y. map (quantized pixels y) (range_by 1 (width_of pixels) 2))
      (range_by 1 (length pixels) 2)

-- A matrix that validation lets through: not empty, rectangular, of bytes.
pub record IsImage (pixels : Pixels) : Type 0 where
  pub has_rows : 0 < length pixels
  pub has_columns : 0 < width_of pixels
  pub rectangular : All (λ row. length row ≡ width_of pixels) pixels
  pub bytes : All (All (λ value. value ≤ 255)) pixels
