-- ===== src/Prelude/Lists.antt =====
-- Lists measured and indexed by the native numbers, under the library's names.
use Prim.Native.Nat.{ℕ, zero, suc, ◌+◌, ◌<◌, ◌≤◌, ◌-◌, ◌/◌}
use mathlib.Core.Path.{◌≡◌, refl, ap, ◌∙◌}
use mathlib.Core.List.{List, [], ◌∷◌, ◌++◌, map}
use mathlib.Core.Option.{Option, none, some}
use native.Mathlib.Omega.{arith}

module _ {ℓ} {A : Type ℓ} where
  abbrev pub length : List A → ℕ
  length [] = 0
  length (x ∷ xs) = suc (length xs)

  abbrev pub get_elem? : List A → ℕ → Option A
  get_elem? [] i = none
  get_elem? (x ∷ xs) zero = some x
  get_elem? (x ∷ xs) (suc i) = get_elem? xs i

  abbrev pub get_or : List A → ℕ → A → A
  get_or [] i d = d
  get_or (x ∷ xs) zero d = x
  get_or (x ∷ xs) (suc i) d = get_or xs i d

  abbrev pub replicate : ℕ → A → List A
  replicate zero a = []
  replicate (suc n) a = a ∷ replicate n a

  pub append_empty : (xs ys : List A) → xs ++ ys ≡ [] → (xs ≡ []) × (ys ≡ [])
  append_empty [] ys h = (refl, h)
  append_empty (x ∷ xs) ys h = cc

  -- Every element has the property.
  abbrev pub All {κ} : (A → Type κ) → List A → Type κ
  All P [] = Unit
  All P (x ∷ xs) = P x × All P xs

  -- Every element has the property at its position, the first one at `start`.
  abbrev pub AllFrom {κ} : (ℕ → A → Type κ) → ℕ → List A → Type κ
  AllFrom P start [] = Unit
  AllFrom P start (x ∷ xs) = P start x × AllFrom P (suc start) xs

  pub get_elem?-get_or :
      (xs : List A) (i : ℕ) (d : A) → i < length xs → get_elem? xs i ≡ some (get_or xs i d)
  get_elem?-get_or [] i d h = elim h [ ]
  get_elem?-get_or (x ∷ xs) zero d h = refl
  get_elem?-get_or (x ∷ xs) (suc i) d h = get_elem?-get_or xs i d (omega arith)

  pub All-get_or {κ} :
      (P : A → Type κ) (xs : List A) (i : ℕ) (d : A) → All P xs → i < length xs → P (get_or xs i d)
  All-get_or P [] i d a h = elim h [ ]
  All-get_or P (x ∷ xs) zero d a h = a.0
  All-get_or P (x ∷ xs) (suc i) d a h = All-get_or P xs i d a.1 (omega arith)

  pub All-map {κ μ} :
      {P : A → Type κ} {Q : A → Type μ} (f : (x : A) → P x → Q x) (xs : List A)
      → All P xs
      → All Q xs
  All-map f [] a = tt
  All-map f (x ∷ xs) a = (f x a.0, All-map f xs a.1)

  pub All-intro {κ} : (P : A → Type κ) → ((x : A) → P x) → (xs : List A) → All P xs
  All-intro P f [] = tt
  All-intro P f (x ∷ xs) = (f x, All-intro P f xs)

module _ {ℓ κ} {A : Type ℓ} {B : Type κ} where
  pub length-map : (f : A → B) (xs : List A) → length (map f xs) ≡ length xs
  length-map f [] = refl
  length-map f (x ∷ xs) = ap suc (length-map f xs)

  pub get_or-map :
      (f : A → B) (xs : List A) (i : ℕ) (d : A) (e : B)
      → i < length xs
      → get_or (map f xs) i e ≡ f (get_or xs i d)
  get_or-map f [] i d e h = elim h [ ]
  get_or-map f (x ∷ xs) zero d e h = refl
  get_or-map f (x ∷ xs) (suc i) d e h = get_or-map f xs i d e (omega arith)

-- `start, start + step, …`, `n` numbers.
abbrev pub arithmetic_from : ℕ → ℕ → ℕ → List ℕ
arithmetic_from start step zero = []
arithmetic_from start step (suc n) = start ∷ arithmetic_from (start + step) step n

-- Python's `range(start, stop, step)` for a positive step.
abbrev pub range_by : ℕ → ℕ → ℕ → List ℕ
range_by start stop step = arithmetic_from start step ((stop - start + (step - 1)) / step)

pub length-arithmetic_from : (start step n : ℕ) → length (arithmetic_from start step n) ≡ n
length-arithmetic_from start step zero = refl
length-arithmetic_from start step (suc n) = ap suc (length-arithmetic_from (start + step) step n)

range_by_one : (n : ℕ) → range_by 0 n 1 ≡ arithmetic_from 0 1 n
range_by_one n = ap (arithmetic_from 0 1) (omega arith)

-- Each number of a range of `n` from `start` lies in it.
pub All-arithmetic_from :
    (start n : ℕ) → All (λ i. (start ≤ i) × (i < start + n)) (arithmetic_from start 1 n)
All-arithmetic_from start zero = tt
All-arithmetic_from start (suc n) = (
  (omega arith, omega arith),
  All-map (λ i h. (omega arith, omega arith)) (arithmetic_from (start + 1) 1 n)
      (All-arithmetic_from (start + 1) n),
)

pub All-range_by : (n : ℕ) → All (λ i. i < n) (range_by 0 n 1)
All-range_by n =
    rw (range_by_one n)
      (All-map (λ i h. omega arith) (arithmetic_from 0 1 n) (All-arithmetic_from 0 n))

module _ {κ} {B : Type κ} where
  map-arithmetic_from :
      (f : ℕ → B) (start n : ℕ)
      → map f (arithmetic_from (suc start) 1 n) ≡ map (λ i. f (suc i)) (arithmetic_from start 1 n)
  map-arithmetic_from f start zero = refl
  map-arithmetic_from f start (suc n) =
      ap (λ t. f (suc start) ∷ t)
        (ap (λ s. map f (arithmetic_from s 1 n)) (omega arith)
          ∙ map-arithmetic_from f (start + 1) n)

module _ {ℓ κ} {A : Type ℓ} {B : Type κ} where
  map-get_or_from :
      (f : A → B) (xs : List A) (d : A)
      → map (λ i. f (get_or xs i d)) (arithmetic_from 0 1 (length xs)) ≡ map f xs
  map-get_or_from f [] d = refl
  map-get_or_from f (x ∷ xs) d =
      ap (λ t. f x ∷ t)
        (map-arithmetic_from (λ i. f (get_or (x ∷ xs) i d)) 0 (length xs) ∙ map-get_or_from f xs d)

  -- A loop over the indices of a list is a loop over its elements.
  pub map-get_or :
      (f : A → B) (xs : List A) (d : A)
      → map (λ i. f (get_or xs i d)) (range_by 0 (length xs) 1) ≡ map f xs
  map-get_or f xs d = rw (range_by_one (length xs)) (map-get_or_from f xs d)
