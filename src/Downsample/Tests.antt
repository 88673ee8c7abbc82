-- ===== src/Downsample/Tests.antt =====
-- Runs of the downsampler, and its theorems at a concrete matrix.
use fingerprint_full_matcher.Prelude.{◌≡◌, refl, [], ◌∷◌, All, true, arith, map}
use fingerprint_full_matcher.Prelude.Int.{pos, negsuc}
use fingerprint_full_matcher.Prelude.Result.{
  Result, ok, err, Exception, type_error, value_error, ◌>>=◌, subscript,
}
use fingerprint_full_matcher.Downsample.{
  integer, boolean, cells, other_row, Input, rows, Pixels, validate_input, downsample_u8_matrix,
  downsample_pixels, filtered_row, horizontal_sum, vertical_sum, clamp_index, output_value,
  output_row,
}
use fingerprint_full_matcher.Downsample.Reference
use fingerprint_full_matcher.Downsample.Convolution.{convolution}
use fingerprint_full_matcher.Downsample.Laws.{downsample-eq-reference, downsample-eq-convolution}
use fingerprint_full_matcher.Downsample.Range.{
  Between, truncated, downsample-truncated, downsample-Between,
}

abbrev gradient_pixels : Pixels
gradient_pixels = (0 ∷ 50 ∷ 255 ∷ []) ∷ (10 ∷ 200 ∷ 255 ∷ []) ∷ (0 ∷ 0 ∷ 7 ∷ []) ∷ []

abbrev gradient : Input
gradient = rows (map (λ row. cells (map (λ v. integer (pos v)) row)) gradient_pixels)

run : Input → Result Exception Pixels
unfolding downsample_u8_matrix validate_input downsample_pixels filtered_row horizontal_sum
    vertical_sum clamp_index output_value output_row subscript
run = downsample_u8_matrix

gradient_output : run gradient ≡ ok ((101 ∷ []) ∷ [])
unfolding run
gradient_output = refl

reference_output : Reference.downsample_u8_matrix gradient ≡ ok ((101 ∷ []) ∷ [])
unfolding Reference.downsample_u8_matrix Reference.copy_and_check Reference.convolve_pixels
    Reference.result_row Reference.result_value Reference.window_sum Reference.row_sum
    Reference.edge Reference.quantize subscript
reference_output = refl

single_column :
    run (rows (cells (integer (pos 9) ∷ []) ∷ cells (integer (pos 9) ∷ []) ∷ [])) ≡ ok ([] ∷ [])
unfolding run
single_column = refl

refused :
    (run (rows []) ≡ err (value_error "input_rows must not be empty"))
    × (run (rows (cells [] ∷ [])) ≡ err (value_error "input rows must not be empty"))
    × (run (rows (other_row ∷ [])) ≡ err (type_error "each row must be a sequence"))
    × (run (rows (cells (boolean true ∷ []) ∷ []))
        ≡ err (type_error "input pixels must be integers"))
    × (run (rows (cells (integer (pos 256) ∷ []) ∷ []))
        ≡ err (value_error "input pixels must be in the range 0..255"))
    × (run (rows (cells (integer (negsuc 0) ∷ []) ∷ []))
        ≡ err (value_error "input pixels must be in the range 0..255"))
    × (run (rows (cells (integer (pos 1) ∷ []) ∷ cells [] ∷ []))
        ≡ err (value_error "input matrix must be rectangular"))
unfolding run
refused = (refl, refl, refl, refl, refl, refl, refl)

accepted : validate_input gradient ≡ ok gradient_pixels
unfolding validate_input
accepted = refl

downsample-eq-reference_example :
    downsample_u8_matrix gradient ≡ Reference.downsample_u8_matrix gradient
downsample-eq-reference_example = downsample-eq-reference gradient

downsample-eq-convolution_example :
    downsample_u8_matrix gradient ≡ (do pixels ← validate_input gradient; ok (convolution pixels))
downsample-eq-convolution_example = downsample-eq-convolution gradient

downsample-truncated_example : downsample_u8_matrix gradient ≡ ok (truncated gradient_pixels)
downsample-truncated_example = downsample-truncated gradient gradient_pixels accepted

downsample-Between_example :
    (out : Pixels) × (downsample_u8_matrix gradient ≡ ok out) × All (All (Between 0 255)) out
downsample-Between_example =
    downsample-Between gradient gradient_pixels 0 255 accepted (omega arith)
