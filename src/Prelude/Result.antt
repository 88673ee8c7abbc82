-- ===== src/Prelude/Result.antt =====
-- A computation that returns a value or raises an exception.
use mathlib.Core.Path.{◌≡◌, refl, sym, ap, subst, ◌∙◌}
use mathlib.Core.Logic.{◌↔◌}
use mathlib.Core.Bool.{Bool, true, false}
use mathlib.Core.List.{List, [], ◌∷◌, map}
use Prim.Native.Nat.{ℕ, suc, ◌-◌, ◌<◌}
use Prim.Native.String.{String}
use mathlib.Core.Option.{Option, none, some}
use fingerprint_full_matcher.Prelude.Tests.{leb, if◌then◌else◌}
use fingerprint_full_matcher.Prelude.Lists.{
  All, All-intro, length, get_elem?, get_or, get_elem?-get_or,
}
use fingerprint_full_matcher.Prelude.Int.{ℤ, pos, negsuc}

pub data Result {ℓ κ} (E : Type ℓ) (A : Type κ) : Type (ℓ ⊔ κ) where
  ok : A → Result E A
  err : E → Result E A

infixl 5 ◌>>=◌ ◌>>◌
abbrev pub ◌>>=◌ {ℓ κ μ} :
    {E : Type ℓ} {A : Type κ} {B : Type μ} → Result E A → (A → Result E B) → Result E B
ok a >>= f = f a
err e >>= f = err e

abbrev pub ◌>>◌ {ℓ μ} : {E : Type ℓ} {B : Type μ} → Result E (Unit {0}) → Result E B → Result E B
m >> k = m >>= λ _. k

-- `if not test: raise e`
abbrev pub require {ℓ} : {E : Type ℓ} → Bool → E → Result E (Unit {0})
require true e = ok tt
require false e = err e

module _ {ℓ κ μ} {E : Type ℓ} {A : Type κ} {B : Type μ} where
  -- A loop that appends `f x` for each `x` and stops at the first exception.
  abbrev pub collect : (A → Result E B) → List A → Result E (List B)
  collect f [] = ok []
  collect f (x ∷ xs) = do y ← f x; ys ← collect f xs; ok (y ∷ ys)

  pub collect-ok :
      (f : A → Result E B) (g : A → B) (xs : List A)
      → All (λ x. f x ≡ ok (g x)) xs
      → collect f xs ≡ ok (map g xs)
  collect-ok f g [] h = refl
  collect-ok f g (x ∷ xs) (hx, hxs) = rw (hx, collect-ok f g xs hxs)

  pub collect-total :
      (f : A → Result E B) (g : A → B)
      → ((x : A) → f x ≡ ok (g x))
      → (xs : List A) → collect f xs ≡ ok (map g xs)
  collect-total f g h xs = collect-ok f g xs (All-intro (λ x. f x ≡ ok (g x)) h xs)

pub ok-injective {ℓ κ} :
    {E : Type ℓ} {A : Type κ} {a b : A} → ◌≡◌ {A = Result E A} (ok a) (ok b) → a ≡ b
ok-injective e = cc

-- `try: … except: raise e`, at a step that returns or not.
abbrev pub of_option {ℓ κ} : {E : Type ℓ} {A : Type κ} → E → Option A → Result E A
of_option e none = err e
of_option e (some a) = ok a

pub of_option_iff {ℓ κ} :
    {E : Type ℓ} {A : Type κ} (e : E) (o : Option A) (a : A) → (of_option e o ≡ ok a) ↔ (o ≡ some a)
of_option_iff e none a = (λ h. cc, λ h. cc)
of_option_iff e (some b) a = (λ h. cc, λ h. cc)

-- Where a bind returned, its first part returned a value and the rest went on from there.
module _ {ℓ κ μ} {E : Type ℓ} {A : Type κ} {B : Type μ} where
  pub bind_returned :
      {result : B} (first : Result E A) (next : A → Result E B)
      → ◌≡◌ {A = Result E B} (first >>= next) (ok result)
      → (value : A) × (first ≡ ok value) × (next value ≡ ok result)
  bind_returned (err raised) next returned = cc
  bind_returned (ok value) next returned = (value, refl, returned)

module _ {ℓ κ} {E : Type ℓ} {B : Type κ} where
  -- Where a guarded computation returned, its test passed.
  pub require_returned :
      {result : B} (test : Bool) (raised : E) (rest : Result E B)
      → ◌≡◌ {A = Result E B} (require test raised >> rest) (ok result)
      → (test ≡ true) × (rest ≡ ok result)
  require_returned false raised rest returned = cc
  require_returned true raised rest returned = (refl, returned)

module _ {ℓ κ μ} {E : Type ℓ} {A : Type κ} {B : Type μ} where
  pub collect-cons :
      (f : A → Result E B) (x : A) (xs : List A) (zs : List B)
      → collect f (x ∷ xs) ≡ ok zs
      → (y : B) × (ys : List B) × (f x ≡ ok y) × (collect f xs ≡ ok ys) × (y ∷ ys ≡ zs)
  collect-cons f x xs zs e =
      let (y, fy, rest) = bind_returned (f x) (λ y. do ys ← collect f xs; ok (y ∷ ys)) e in
      let (ys, fys, last) = bind_returned (collect f xs) (λ ys. ok (y ∷ ys)) rest in
      (y, ys, fy, fys, cc last)

  -- What holds of each successful result holds of all that a loop collects.
  pub collect-All {ν} :
      (P : B → Type ν) (f : A → Result E B)
      → ((x : A) (y : B) → f x ≡ ok y → P y)
      → (xs : List A) (ys : List B) → collect f xs ≡ ok ys
      → All P ys
  collect-All P f h [] ys e = subst (All P) (ok-injective e) tt
  collect-All P f h (x ∷ xs) zs e =
      let (y, ys, fy, fys, last) = collect-cons f x xs zs e in
      subst (All P) last (h x y fy, collect-All P f h xs ys fys)

  pub length-collect :
      (f : A → Result E B) (xs : List A) (ys : List B)
      → collect f xs ≡ ok ys
      → length ys ≡ length xs
  length-collect f [] ys e = ap length (sym (ok-injective e))
  length-collect f (x ∷ xs) zs e =
      let (y, ys, fy, fys, last) = collect-cons f x xs zs e in
      ap length (sym last) ∙ ap suc (length-collect f xs ys fys)

-- The exceptions of Python's own operations, with the message where the code gives one.
pub data Exception : Type 0 where
  type_error : String → Exception
  value_error : String → Exception
  key_error : String → Exception
  index_error : Exception
  assertion_error : Exception
  overflow_error : Exception
  os_error : String → Exception

-- `xs[i]`: a negative index counts from the end, and one out of range raises.
found {ℓ} : {A : Type ℓ} → Option A → Result Exception A
found none = err index_error
found (some a) = ok a

unfoldable pub subscript {ℓ} : {A : Type ℓ} → List A → ℤ → Result Exception A
unfolding found
subscript xs (pos i) = found (get_elem? xs i)
subscript xs (negsuc i) =
    if leb (suc i) (length xs) then found (get_elem? xs (length xs - suc i)) else err index_error

-- An index in range yields its element.
pub subscript-pos {ℓ} :
    {A : Type ℓ} (xs : List A) (i : ℕ) (d : A)
    → i < length xs
    → subscript xs (pos i) ≡ ok (get_or xs i d)
unfolding subscript
subscript-pos xs i d h = rw (get_elem?-get_or xs i d h)

-- A test that was required last and passed.
pub require_ok {ℓ} :
    {E : Type ℓ} (test : Bool) (raised : E) → require test raised ≡ ok tt → test ≡ true
require_ok true raised h = refl
require_ok false raised h = cc
