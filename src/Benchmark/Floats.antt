-- ===== src/Benchmark/Floats.antt =====
-- Python's floating-point numbers, as far as the benchmark uses them: an interface, with the laws of
-- the language that its code relies on.
use fingerprint_full_matcher.Prelude.{String, Bool, true, false, ◌≡◌, Option, some}
use fingerprint_full_matcher.Prelude.Int.{ℤ}
use fingerprint_full_matcher.Prelude.Text.{is_empty}

pub record Floats (F : Type 0) : Type 0 where
  -- `math.isfinite(x)` and `x < 0`
  pub is_finite : F → Bool
  pub is_negative : F → Bool
  -- `x == 0`
  pub is_zero : F → Bool
  -- `float(z)`; `none` is `OverflowError`.
  pub of_int : ℤ → Option F
  -- `str(x)` and `float(text)`; `none` is `ValueError`
  pub text : F → String
  pub of_text : String → Option F
  -- `(time - started) * 1000`
  pub milliseconds : F → F → F

-- The text of a finite number is read as that number, and no number's text is empty.
pub record FloatLaws {F : Type 0} (floats : Floats F) : Type 0 where
  pub of_text-text : (x : F) → floats.is_finite x ≡ true → floats.of_text (floats.text x) ≡ some x
  pub is_empty-text : (x : F) → is_empty (floats.text x) ≡ false
