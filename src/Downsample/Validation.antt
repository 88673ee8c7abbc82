-- ===== src/Downsample/Validation.antt =====
-- The two validations agree on every input, errors included, and let through images only.
use mathlib.Core.Path.{fun_ext, sym, subst}
use fingerprint_full_matcher.Prelude.{
  ℕ, ◌≤◌, ◌<◌, ◌≡◌, refl, ◌∙◌, Option, none, some, List, [], ◌∷◌, length, All, All-map, arith,
}
use fingerprint_full_matcher.Prelude.Int.{ℤ, pos, negsuc}
use fingerprint_full_matcher.Prelude.Result.{
  Result, ok, Exception, collect, ◌>>=◌, ◌>>◌, require, bind_returned, ok-injective, collect-All,
  length-collect, value_error,
}
use fingerprint_full_matcher.Downsample.{
  Sample, integer, boolean, other, Row, cells, text_row, other_row, Input, rows, text_input,
  other_input, Pixels, checked_pixel, checked_cells, checked_width, checked_rows, validate_input,
}
use fingerprint_full_matcher.Downsample.Reference.{
  copied_sample, row_cells, width_after, same_width, copy_rows, copy_and_check,
}
use fingerprint_full_matcher.Downsample.Convolution.{IsImage}

checked_pixel-copied_sample : (s : Sample) → checked_pixel s ≡ copied_sample s
unfolding checked_pixel copied_sample
checked_pixel-copied_sample (integer (pos n)) = ground arith
checked_pixel-copied_sample (integer (negsuc n)) = refl
checked_pixel-copied_sample (boolean b) = refl
checked_pixel-copied_sample other = refl

checked_cells-row_cells : (r : Row) → checked_cells r ≡ row_cells r
unfolding checked_cells row_cells
checked_cells-row_cells (cells cs) = refl
checked_cells-row_cells (text_row t) = refl
checked_cells-row_cells other_row = refl

-- The reference's running width that stands for the `Optional` one.
abbrev as_int : Option ℕ → ℤ
as_int none = negsuc 0
as_int (some w) = pos w

-- The reference's two width tests let through what the one test of the other version does.
checked_width-width_after :
    (width : Option ℕ) (n : ℕ) (rest : ℤ → Result Exception Pixels)
    → (do
      w ← width_after (as_int width) n
      require (same_width w n) (value_error "input matrix must be rectangular")
      rest w)
      ≡ (do w ← checked_width width n; rest (pos w))
unfolding checked_width width_after same_width
checked_width-width_after none n rest = ground arith
checked_width-width_after (some width) n rest = ground arith

checked_rows-copy_rows :
    (width : Option ℕ) (rs : List Row) → checked_rows width rs ≡ copy_rows (as_int width) rs
unfolding checked_rows copy_rows
checked_rows-copy_rows width [] = refl
checked_rows-copy_rows width (r ∷ rest) =
    let ih : (w : ℕ) → checked_rows (some w) rest ≡ copy_rows (pos w) rest =
      λ w. checked_rows-copy_rows (some w) rest in
    rw (checked_cells-row_cells r, fun_ext checked_pixel-copied_sample)
      (simp (checked_width-width_after, ih))

-- On every input the two validations return the same pixels or raise the same exception.
pub validate_input-copy_and_check : (v : Input) → validate_input v ≡ copy_and_check v
unfolding validate_input copy_and_check
validate_input-copy_and_check (rows []) = refl
validate_input-copy_and_check (rows (r ∷ rs)) = checked_rows-copy_rows none (r ∷ rs)
validate_input-copy_and_check (text_input t) = refl
validate_input-copy_and_check other_input = refl

checked_pixel-le : (s : Sample) (n : ℕ) → checked_pixel s ≡ ok n → n ≤ 255
unfolding checked_pixel
checked_pixel-le (integer (pos m)) n e = ground arith
checked_pixel-le _ n e = cc

checked_width-none : (n w : ℕ) → checked_width none n ≡ ok w → (n ≡ w) × (0 < w)
unfolding checked_width
checked_width-none n w e = ground arith

checked_width-some : (v n w : ℕ) → checked_width (some v) n ≡ ok w → (n ≡ v) × (w ≡ v)
unfolding checked_width
checked_width-some v n w e = ground arith

-- The steps of a round that succeeds.
checked_rows-cons :
    (width : Option ℕ) (r : Row) (rest : List Row) (ps : Pixels)
    → checked_rows width (r ∷ rest) ≡ ok ps
    → (cs : List Sample) × (w : ℕ) × (row : List ℕ) × (more : Pixels) × (checked_width width
          (length cs)
        ≡ ok w)
      × (collect checked_pixel cs ≡ ok row)
      × (checked_rows (some w) rest ≡ ok more)
      × (row ∷ more ≡ ps)
unfolding checked_rows
checked_rows-cons width r rest ps e =
    let (cs, _, e₁) = bind_returned (checked_cells r) _ e in
    let (w, found_w, e₂) = bind_returned (checked_width width (length cs)) _ e₁ in
    let (row, found_row, e₃) = bind_returned (collect checked_pixel cs) _ e₂ in
    let (more, found_more, last) = bind_returned (checked_rows (some w) rest) _ e₃ in
    (cs, w, row, more, found_w, found_row, found_more, ok-injective last)

abbrev IsBlock : ℕ → Pixels → Type 0
IsBlock w ps = All (λ row. (length row ≡ w) × All (λ value. value ≤ 255) row) ps

checked_rows-nil : (width : Option ℕ) (ps : Pixels) → checked_rows width [] ≡ ok ps → [] ≡ ps
unfolding checked_rows
checked_rows-nil width ps e = ok-injective e

checked_rows-IsBlock :
    (w : ℕ) (rs : List Row) (ps : Pixels) → checked_rows (some w) rs ≡ ok ps → IsBlock w ps
checked_rows-IsBlock w [] ps e = subst (IsBlock w) (checked_rows-nil (some w) ps e) tt
checked_rows-IsBlock w (r ∷ rest) ps e =
    let (cs, w', row, more, hw, hrow, hmore, last) = checked_rows-cons (some w) r rest ps e in
    let (same, kept) = checked_width-some w (length cs) w' hw in
    subst (IsBlock w) last (
      (
        length-collect checked_pixel cs row hrow ∙ same,
        collect-All (λ value. value ≤ 255) checked_pixel checked_pixel-le cs row hrow,
      ),
      checked_rows-IsBlock w rest more
          (subst (λ v. checked_rows (some v) rest ≡ ok more) kept hmore),
    )

-- A matrix that validation returns is not empty, rectangular, and of bytes.
pub validate_input-IsImage : (v : Input) (ps : Pixels) → validate_input v ≡ ok ps → IsImage ps
validate_input-IsImage (rows []) ps e = absurd (unfold validate_input in cc e)
validate_input-IsImage (rows (r ∷ rs)) ps e =
    let (cs, w, row, more, hw, hrow, hmore, last) =
      checked_rows-cons none r rs ps (unfold validate_input in e) in
    let (same, positive) = checked_width-none (length cs) w hw in
    let wide : length row ≡ w = length-collect checked_pixel cs row hrow ∙ same in
    let block : IsBlock w more = checked_rows-IsBlock w rs more hmore in
    subst IsImage last (record {
      has_rows = omega arith;
      has_columns = omega arith;
      rectangular = (refl, All-map (λ _ h. h.0 ∙ sym wide) more block);
      bytes = (
        collect-All (λ value. value ≤ 255) checked_pixel checked_pixel-le cs row hrow,
        All-map (λ _ h. h.1) more block,
      );
    })
validate_input-IsImage _ ps e = absurd (unfold validate_input in cc e)
