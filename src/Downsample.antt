-- ===== src/Downsample.antt =====
-- tools/nbis_downsample_1000_to_500_manual_v1.py: the local 1000-to-500 PPI downsampler, with its
-- two separable passes in exact integers.
pub mod Reference
pub mod Convolution
pub mod Separable
pub mod Direct
pub mod Validation
pub mod Laws
pub mod Range
mod Tests
use fingerprint_full_matcher.Prelude.{
  ℕ, suc, ◌+◌, ◌*◌, ◌/◌, ◌^◌, min, max, String, ◌<>◌, Bool, Option, none, some, List, [], ◌∷◌,
  length, leb, ◌==◌, if◌then◌else◌, range_by,
}
use fingerprint_full_matcher.Prelude.Int.{ℤ, pos, negsuc, ◌+ℤ◌, ◌-ℤ◌, ltb_ℤ, leb_ℤ}
use fingerprint_full_matcher.Prelude.Result.{
  Result, ok, err, ◌>>=◌, collect, Exception, type_error, value_error, subscript,
}

-- What a caller may pass: any value where a pixel, a row or the matrix is expected.
pub data Sample : Type 0 where
  integer : ℤ → Sample
  boolean : Bool → Sample
  other : Sample

pub data Row : Type 0 where
  cells : List Sample → Row
  text_row : String → Row
  other_row : Row

pub data Input : Type 0 where
  rows : List Row → Input
  text_input : String → Input
  other_input : Input

abbrev pub Pixels : Type 0
Pixels = List (List ℕ)

abbrev pub radius : ℕ
radius = 4

abbrev pub q31_scale : ℕ
q31_scale = 2 ^ 31

abbrev pub kernel_q31 : List ℕ
kernel_q31 =
    14706 ∷ 1922071 ∷ 62430569 ∷ 503934447 ∷ 1010880062 ∷ 503934447 ∷ 62430569 ∷ 1922071 ∷ 14706
    ∷ []

abbrev pub denominator : ℕ
denominator = q31_scale * q31_scale

abbrev pub row_start : ℕ
row_start = 1

abbrev pub column_start : ℕ
column_start = 1

-- `isinstance(value, int) and not isinstance(value, bool)`, then `0 <= value <= 255`.
checked_pixel : Sample → Result Exception ℕ
checked_pixel (integer (pos n)) =
    if leb n 255 then ok n else err (value_error "input pixels must be in the range 0..255")
checked_pixel (integer (negsuc n)) = err (value_error "input pixels must be in the range 0..255")
checked_pixel _ = err (type_error "input pixels must be integers")

checked_cells : Row → Result Exception (List Sample)
checked_cells (cells cs) = ok cs
checked_cells _ = err (type_error "each row must be a sequence")

-- `width` is `None` until the first row.
checked_width : Option ℕ → ℕ → Result Exception ℕ
checked_width none n = if n == 0 then err (value_error "input rows must not be empty") else ok n
checked_width (some width) n =
    if n == width then ok width else err (value_error "input matrix must be rectangular")

checked_rows : Option ℕ → List Row → Result Exception Pixels
unfolding checked_pixel checked_cells checked_width
checked_rows width [] = ok []
checked_rows width (row ∷ rest) = do
  cs ← checked_cells row
  width' ← checked_width width (length cs)
  checked_row ← collect checked_pixel cs
  validated ← checked_rows (some width') rest
  ok (checked_row ∷ validated)

pub validate_input : Input → Result Exception Pixels
unfolding checked_rows
validate_input (rows []) = err (value_error "input_rows must not be empty")
validate_input (rows rs) = checked_rows none rs
validate_input _ = err (type_error "input_rows must be a sequence of rows")

pub clamp_index : ℤ → ℕ → ℤ
clamp_index index len =
    if ltb_ℤ index (pos 0) then pos 0 else if leb_ℤ (pos len) index then pos len -ℤ pos 1 else index

-- `for kernel_index, coefficient in enumerate(KERNEL_Q31)`, from `kernel_index` on; the offset is
-- `kernel_index - RADIUS`.
horizontal_sum : List ℕ → ℕ → ℕ → ℕ → List ℕ → ℕ → Result Exception ℕ
horizontal_sum row width source_column kernel_index [] total = ok total
horizontal_sum row width source_column kernel_index (coefficient ∷ rest) total = do
  let offset = pos kernel_index -ℤ pos radius
  let column = clamp_index (pos source_column +ℤ offset) width
  value ← subscript row column
  horizontal_sum row width source_column (suc kernel_index) rest (total + value * coefficient)

vertical_sum : Pixels → ℕ → ℕ → ℕ → ℕ → List ℕ → ℕ → Result Exception ℕ
vertical_sum horizontal height source_row output_column kernel_index [] total = ok total
vertical_sum horizontal height source_row output_column kernel_index (coefficient ∷ rest) total = do
  let offset = pos kernel_index -ℤ pos radius
  let row = clamp_index (pos source_row +ℤ offset) height
  filtered_row ← subscript horizontal row
  value ← subscript filtered_row (pos output_column)
  vertical_sum horizontal height source_row output_column (suc kernel_index) rest
      (total + value * coefficient)

filtered_row : ℕ → List ℕ → List ℕ → Result Exception (List ℕ)
filtered_row width selected_columns row =
    collect (λ source_column. horizontal_sum row width source_column 0 kernel_q31 0)
      selected_columns

output_value : Pixels → ℕ → ℕ → ℕ → Result Exception ℕ
output_value horizontal height source_row output_column = do
  total ← vertical_sum horizontal height source_row output_column 0 kernel_q31 0
  let value = total / denominator
  ok (min 255 (max 0 value))

output_row : Pixels → ℕ → ℕ → ℕ → Result Exception (List ℕ)
output_row horizontal height columns source_row =
    collect (output_value horizontal height source_row) (range_by 0 columns 1)

-- The two passes over a validated matrix.
pub downsample_pixels : Pixels → Result Exception Pixels
downsample_pixels pixels = do
  let height = length pixels
  first ← subscript pixels (pos 0)
  let width = length first
  let selected_columns = range_by column_start width 2
  horizontal ← collect (filtered_row width selected_columns) pixels
  collect (output_row horizontal height (length selected_columns)) (range_by row_start height 2)

pub downsample_u8_matrix : Input → Result Exception Pixels
downsample_u8_matrix input_rows = do pixels ← validate_input input_rows; downsample_pixels pixels

checked_size : String → Sample → Result Exception ℕ
checked_size name (integer (pos (suc n))) = ok (suc n)
checked_size name (integer _) = err (value_error (name <> " must be positive"))
checked_size name _ = err (type_error (name <> " must be an integer"))

-- `(width, height)` of the output.
pub output_shape : Sample → Sample → Result Exception (ℕ × ℕ)
unfolding checked_size
output_shape input_width input_height = do
  width ← checked_size "input_width" input_width
  height ← checked_size "input_height" input_height
  ok (width / 2, height / 2)
