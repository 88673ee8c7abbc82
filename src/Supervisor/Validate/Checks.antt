-- ===== src/Supervisor/Validate/Checks.antt =====
-- Checks that find nothing, and the equations that they decide.
use fingerprint_full_matcher.Prelude.{
  String, Bool, true, false, not, ◌&&◌, ◌||◌, Option, none, some, List, [], ◌∷◌, ◌≡◌, ◌≢◌, ◌↔◌,
  refl, All, arith, Bool-cases, inl, inr, ap,
}
use fingerprint_full_matcher.Supervisor.{
  Release, sd300b, sd300c, ppi_text, Row, get_cell, same, same_iff, cell,
}
use fingerprint_full_matcher.Supervisor.Order.{differs}
use fingerprint_full_matcher.Supervisor.Validate.{fails, messages, get_default, default}

-- No check of the list fails.
abbrev pub Pass : List (Option String) → Type 0
Pass checks = All (λ check. check ≡ none) checks

pub messages-nil : (checks : List (Option String)) → (messages checks ≡ []) ↔ Pass checks
unfolding messages
messages-nil [] = (λ h. tt, λ h. refl)
messages-nil (none ∷ checks) =
    (λ h. (refl, (messages-nil checks).0 h), λ h. (messages-nil checks).1 h.1)
messages-nil (some m ∷ checks) = (λ h. absurd (cc), λ h. absurd (cc (h.0)))

pub fails_iff : (test : Bool) (m : String) → (fails test m ≡ none) ↔ (test ≡ false)
fails_iff true m = (λ h. cc, λ h. cc)
fails_iff false m = (λ h. refl, λ h. refl)

pub differs_iff :
    (value : Option String) (expected m : String)
    → (fails (differs value expected) m ≡ none) ↔ (value ≡ some expected)
differs_iff value expected m = (
  λ h.
      (same_iff value (some expected)).0
        (ground (arith, (fails_iff (differs value expected) m).0 h)),
  λ e. let same_value = (same_iff value (some expected)).1 e in ground arith,
)

pub both_differ_iff :
    (v w : Option String) (s t m : String)
    → (fails (differs v s || differs w t) m ≡ none) ↔ ((v ≡ some s) × (w ≡ some t))
both_differ_iff v w s t m = (
  λ h.
      let e = (fails_iff (differs v s || differs w t) m).0 h in
      ((same_iff v (some s)).0 (ground arith), (same_iff w (some t)).0 (ground arith)),
  λ (e, f).
      let same_v = (same_iff v (some s)).1 e in
      let same_w = (same_iff w (some t)).1 f in ground arith,
)

-- Tests of equality, and the equations that they decide.
pub apart_of : (next : Bool) (a b : Option String) → next && same a b ≡ false → next ≡ true → a ≢ b
apart_of next a b h n e = let test = (same_iff a b).1 e in ground arith

pub equal_if :
    (self : Bool) (a b : Option String) → self && not (same a b) ≡ false → self ≡ true → a ≡ b
equal_if self a b h s = (same_iff a b).0 (ground arith)

pub equal_of :
    (next : Bool) (a b : Option String) → not next && not (same a b) ≡ false → next ≡ false → a ≡ b
equal_of next a b h n = (same_iff a b).0 (ground arith)

pub not_both :
    (next : Bool) (a b : Option String) → (next ≡ true → a ≢ b) → next && same a b ≡ false
not_both false a b h = refl
not_both true a b h = elim (Bool-cases (same a b)) [
  | inl equal ↦ absurd (h refl ((same_iff a b).0 equal))
  | inr other ↦ other
]

pub not_unequal :
    (self : Bool) (a b : Option String) → (self ≡ true → a ≡ b) → self && not (same a b) ≡ false
not_unequal false a b h = refl
not_unequal true a b h = ap not ((same_iff a b).1 (h refl))

pub not_neither :
    (next : Bool) (a b : Option String)
    → (next ≡ false → a ≡ b)
    → not next && not (same a b) ≡ false
not_neither true a b h = refl
not_neither false a b h = ap not ((same_iff a b).1 (h refl))

pub get_default-get_cell :
    {text : String} (row : Row) (key : String)
    → get_cell row key ≡ some text
    → get_default row key ≡ some text
unfolding get_default get_cell default cell
get_default-get_cell row key h = ground arith

pub not_png :
    (release : Release) (a b : Option String)
    → a ≡ some (ppi_text release)
    → b ≡ some (ppi_text release)
    → same (some "5080") a || same (some "5080") b ≡ false
unfolding same ppi_text
not_png sd300b a b e f = rw (e, f)
not_png sd300c a b e f = rw (e, f)

pub true_of_not : (b : Bool) → not b ≡ false → b ≡ true
true_of_not b h = ground arith
