-- ===== src/Downsample/Laws.antt =====
-- The downsampler and its reference are one function, and return the convolution of their input.
use fingerprint_full_matcher.Prelude.{
  ℕ, ◌+◌, ◌-◌, ◌/◌, ◌<◌, ◌≡◌, refl, ◌∙◌, sym, ap, List, [], ◌∷◌, map, length, length-map,
  length-arithmetic_from, All, arith, range_by,
}
use fingerprint_full_matcher.Prelude.Int.{pos}
use fingerprint_full_matcher.Prelude.Result.{Result, ok, err, Exception, ◌>>=◌}
use fingerprint_full_matcher.Downsample.{
  integer, Input, Pixels, validate_input, downsample_pixels, downsample_u8_matrix, output_shape,
  checked_size,
}
use fingerprint_full_matcher.Downsample.Reference
use fingerprint_full_matcher.Downsample.Reference.{copy_and_check, convolve_pixels}
use fingerprint_full_matcher.Downsample.Convolution.{convolution, quantized, width_of, IsImage}
use fingerprint_full_matcher.Downsample.Validation.{
  validate_input-copy_and_check, validate_input-IsImage,
}
use fingerprint_full_matcher.Downsample.Separable.{downsample_pixels-eq-convolution}
use fingerprint_full_matcher.Downsample.Direct.{convolve_pixels-eq-convolution}

-- Two continuations that agree on what a computation returns give one result.
bind-cong :
    (m : Result Exception Pixels) (f g : Pixels → Result Exception Pixels)
    → ((ps : Pixels) → m ≡ ok ps → f ps ≡ g ps)
    → (m >>= f) ≡ (m >>= g)
bind-cong (ok ps) f g h = h ps refl
bind-cong (err e) f g h = refl

-- On every input the downsampler raises what its validation raises, and otherwise returns the
-- convolution of the validated pixels: no lookup in the two passes is ever out of range.
pub downsample-eq-convolution :
    (v : Input) → downsample_u8_matrix v ≡ (do pixels ← validate_input v; ok (convolution pixels))
unfolding downsample_u8_matrix
downsample-eq-convolution v =
    bind-cong (validate_input v) downsample_pixels (λ pixels. ok (convolution pixels))
      (λ pixels e. downsample_pixels-eq-convolution pixels (validate_input-IsImage v pixels e))

-- On every input, valid or not, the separable downsampler and the direct reference return the same
-- matrix or raise the same exception with the same message.
pub downsample-eq-reference :
    (v : Input) → downsample_u8_matrix v ≡ Reference.downsample_u8_matrix v
unfolding downsample_u8_matrix Reference.downsample_u8_matrix
downsample-eq-reference v =
    bind-cong (validate_input v) downsample_pixels convolve_pixels (λ pixels e.
      let image : IsImage pixels = validate_input-IsImage v pixels e in
      downsample_pixels-eq-convolution pixels image
      ∙ sym (convolve_pixels-eq-convolution pixels image))
    ∙ ap (λ m. m >>= convolve_pixels) (validate_input-copy_and_check v)

length-odd_range : (n : ℕ) → length (range_by 1 n 2) ≡ n / 2
length-odd_range n = length-arithmetic_from 1 2 ((n - 1 + (2 - 1)) / 2) ∙ omega arith

convolution-rows :
    (pixels : Pixels) (ys : List ℕ)
    → All
        (λ row. length row ≡ width_of pixels / 2)
        (map (λ y. map (quantized pixels y) (range_by 1 (width_of pixels) 2)) ys)
convolution-rows pixels [] = tt
convolution-rows pixels (y ∷ ys) = (
  length-map (quantized pixels y) (range_by 1 (width_of pixels) 2)
      ∙ length-odd_range (width_of pixels),
  convolution-rows pixels ys,
)

output_shape_lem :
    (w h : ℕ) → 0 < w → 0 < h → output_shape (integer (pos w)) (integer (pos h)) ≡ ok (w / 2, h / 2)
unfolding output_shape checked_size
output_shape_lem w h p q = ground arith

-- An input that validation accepts is downsampled without an exception.
pub downsample_ok :
    (v : Input) (pixels : Pixels)
    → validate_input v ≡ ok pixels
    → downsample_u8_matrix v ≡ ok (convolution pixels)
downsample_ok v pixels e = downsample-eq-convolution v ∙ ap (λ m. do ps ← m; ok (convolution ps)) e

-- For an input that validates to `pixels` the downsampler returns a matrix: its height, and the
-- width of each of its rows, are what `output_shape` returns for the width and height of `pixels`.
downsample-output_shape :
    (v : Input) (pixels : Pixels)
    → validate_input v ≡ ok pixels
    → (out : Pixels) × (width : ℕ) × (height : ℕ) × (downsample_u8_matrix v ≡ ok out)
      × (output_shape (integer (pos (width_of pixels))) (integer (pos (length pixels)))
          ≡ ok (width, height))
      × (length out ≡ height)
      × All (λ row. length row ≡ width) out
unfolding convolution
downsample-output_shape v pixels e =
    let image : IsImage pixels = validate_input-IsImage v pixels e in
    (
      convolution pixels,
      width_of pixels / 2,
      length pixels / 2,
      downsample_ok v pixels e,
      output_shape_lem (width_of pixels) (length pixels) image.has_columns image.has_rows,
      length-map _ (range_by 1 (length pixels) 2) ∙ length-odd_range (length pixels),
      convolution-rows pixels (range_by 1 (length pixels) 2),
    )
