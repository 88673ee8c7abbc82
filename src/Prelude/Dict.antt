-- ===== src/Prelude/Dict.antt =====
-- Dictionaries with text keys. A key that is set again keeps its place, as in Python.
use Prim.Native.String.{String}
use mathlib.Core.Option.{Option, none, some}
use mathlib.Core.List.{List, [], ◌∷◌}
use text.Mathlib.Text.{◌==◌ as str_eq}
use fingerprint_full_matcher.Prelude.Tests.{if◌then◌else◌}

abbrev pub Dict {ℓ} : Type ℓ → Type ℓ
Dict V = List (String × V)

module _ {ℓ} {V : Type ℓ} where
  abbrev pub lookup : String → Dict V → Option V
  lookup k [] = none
  lookup k ((j, v) ∷ d) = if str_eq k j then some v else lookup k d

  -- `d.get(k, default)`
  abbrev pub get : Dict V → String → V → V
  get d k default = elim (lookup k d) [ none ↦ default | some v ↦ v ]
