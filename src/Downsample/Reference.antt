-- ===== src/Downsample/Reference.antt =====
-- tools/nbis_downsample_1000_to_500_manual_reference_v1.py: the same policy as one direct
-- two-dimensional convolution, written to be compared with the separable one.
use fingerprint_full_matcher.Prelude.{
  ℕ, zero, suc, ◌+◌, ◌*◌, ◌/◌, ◌^◌, List, [], ◌∷◌, length, ltb, ◌==◌, if◌then◌else◌, range_by, Bool,
}
use fingerprint_full_matcher.Prelude.Int.{
  ℤ, pos, negsuc, ◌+ℤ◌, ◌-ℤ◌, ltb_ℤ, min_ℤ, max_ℤ, pos_part, neg_part,
}
use fingerprint_full_matcher.Prelude.Result.{
  Result, ok, err, ◌>>=◌, ◌>>◌, require, collect, Exception, type_error, value_error, subscript,
}
use fingerprint_full_matcher.Downsample.{Sample, integer, Row, cells, Input, rows, Pixels}

-- The constants of this file, which has its own.
abbrev pub q31_scale : ℕ
q31_scale = 2 ^ 31

abbrev pub radius : ℕ
radius = 4

abbrev pub kernel_q31 : List ℕ
kernel_q31 =
    14706 ∷ 1922071 ∷ 62430569 ∷ 503934447 ∷ 1010880062 ∷ 503934447 ∷ 62430569 ∷ 1922071 ∷ 14706
    ∷ []

-- A sample below 0 or above 255 is refused.
unfoldable pub copied_sample : Sample → Result Exception ℕ
copied_sample (integer (negsuc n)) = err (value_error "input pixels must be in the range 0..255")
copied_sample (integer (pos n)) =
    if ltb 255 n then err (value_error "input pixels must be in the range 0..255") else ok n
copied_sample _ = err (type_error "input pixels must be integers")

unfoldable pub row_cells : Row → Result Exception (List Sample)
row_cells (cells cs) = ok cs
row_cells _ = err (type_error "each row must be a sequence")

-- `expected_width` is -1 until the first row.
unfoldable pub width_after : ℤ → ℕ → Result Exception ℤ
width_after expected_width n =
    if ltb_ℤ expected_width (pos 0)
    then (if n == 0 then err (value_error "input rows must not be empty") else ok (pos n))
    else ok expected_width

unfoldable pub same_width : ℤ → ℕ → Bool
same_width w n = pos_part w + neg_part (pos n) == pos_part (pos n) + neg_part w

unfoldable pub copy_rows : ℤ → List Row → Result Exception Pixels
unfolding copied_sample row_cells width_after same_width
copy_rows expected_width [] = ok []
copy_rows expected_width (source_row ∷ rest) = do
  cs ← row_cells source_row
  expected_width' ← width_after expected_width (length cs)
  require (same_width expected_width' (length cs)) (value_error "input matrix must be rectangular")
  copied ← collect copied_sample cs
  result ← copy_rows expected_width' rest
  ok (copied ∷ result)

unfoldable pub copy_and_check : Input → Result Exception Pixels
unfolding copy_rows
copy_and_check (rows []) = err (value_error "input_rows must not be empty")
copy_and_check (rows rs) = copy_rows (negsuc 0) rs
copy_and_check _ = err (type_error "input_rows must be a sequence of rows")

unfoldable pub edge : ℤ → ℕ → ℤ
edge coordinate extent = min_ℤ (pos extent -ℤ pos 1) (max_ℤ (pos 0) coordinate)

-- `n` consecutive integers from `start` on.
abbrev pub int_range : ℤ → ℕ → List ℤ
int_range start zero = []
int_range start (suc n) = start ∷ int_range (start +ℤ pos 1) n

-- `range(-RADIUS, RADIUS + 1)`
abbrev pub offsets : List ℤ
offsets = int_range (pos 0 -ℤ pos radius) (radius + 1 + radius)

-- The inner loop, over `x_offset`.
unfoldable pub row_sum : Pixels → ℤ → ℕ → ℕ → ℕ → List ℤ → ℕ → Result Exception ℕ
row_sum pixels source_y width center_x y_weight [] accumulator = ok accumulator
row_sum pixels source_y width center_x y_weight (x_offset ∷ rest) accumulator = do
  let source_x = edge (pos center_x +ℤ x_offset) width
  x_weight ← subscript kernel_q31 (x_offset +ℤ pos radius)
  source_row ← subscript pixels source_y
  value ← subscript source_row source_x
  row_sum pixels source_y width center_x y_weight rest (accumulator + value * y_weight * x_weight)

-- The loop over `y_offset`.
unfoldable pub window_sum : Pixels → ℕ → ℕ → ℕ → ℕ → List ℤ → ℕ → Result Exception ℕ
window_sum pixels height width center_y center_x [] accumulator = ok accumulator
window_sum pixels height width center_y center_x (y_offset ∷ rest) accumulator = do
  let source_y = edge (pos center_y +ℤ y_offset) height
  y_weight ← subscript kernel_q31 (y_offset +ℤ pos radius)
  accumulator' ← row_sum pixels source_y width center_x y_weight offsets accumulator
  window_sum pixels height width center_y center_x rest accumulator'

abbrev pub divisor : ℕ
divisor = q31_scale ^ 2

-- `accumulator // divisor` of a natural number is never negative.
unfoldable pub quantize : ℕ → ℕ
quantize quantized = if ltb 255 quantized then 255 else quantized

unfoldable pub result_value : Pixels → ℕ → ℕ → ℕ → ℕ → Result Exception ℕ
result_value pixels height width center_y center_x = do
  accumulator ← window_sum pixels height width center_y center_x offsets 0
  ok (quantize (accumulator / divisor))

unfoldable pub result_row : Pixels → ℕ → ℕ → ℕ → Result Exception (List ℕ)
result_row pixels height width center_y =
    collect (result_value pixels height width center_y) (range_by 1 width 2)

unfoldable pub convolve_pixels : Pixels → Result Exception Pixels
convolve_pixels pixels = do
  let height = length pixels
  first ← subscript pixels (pos 0)
  collect (result_row pixels height (length first)) (range_by 1 height 2)

unfoldable pub downsample_u8_matrix : Input → Result Exception Pixels
downsample_u8_matrix input_rows = do pixels ← copy_and_check input_rows; convolve_pixels pixels
