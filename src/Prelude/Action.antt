-- ===== src/Prelude/Action.antt =====
-- Code that changes a state and returns a value or raises: what was done before an exception stays.
pub mod Rules
use mathlib.Core.Path.{◌≡◌, refl}
use fingerprint_full_matcher.Prelude.Result.{Result, ok, err}

abbrev pub Action : Type 0 → Type 0 → Type 0 → Type 0
Action S E A = S → Result E A × S

module _ {S E A B : Type 0} where
  unfoldable pub continue : Result E A → (A → Action S E B) → Action S E B
  continue (ok a) f s = f a s
  continue (err e) f s = (err e, s)

  infixl 5 ◌>>=◌ ◌>>◌
  unfoldable pub ◌>>=◌ : Action S E A → (A → Action S E B) → Action S E B
  unfolding continue
  ◌>>=◌ m f s = let (r, s') = m s in continue r f s'

  abbrev pub ◌>>◌ : Action S E A → Action S E B → Action S E B
  m >> k = m >>= λ _. k

-- A computation that reads and changes nothing.
unfoldable pub lift : {S E A : Type 0} → Result E A → Action S E A
lift r s = (r, s)

module _ {S D E A : Type 0} where
  handled : Result D A → (D → Action S E A) → Action S E A
  handled (ok a) handler s = (ok a, s)
  handled (err d) handler s = handler d s

  -- `try: body except D as d: handler(d)`, where the handler may raise in its turn.
  unfoldable pub try_except : Action S D A → (D → Action S E A) → Action S E A
  unfolding handled
  try_except body handler s = let (r, s') = body s in handled r handler s'

-- What ends a `finally` is what its body ended with, unless the last part raises.
ended : {E A : Type 0} → Result E A → Result E (Unit {0}) → Result E A
ended r (ok u) = r
ended r (err e) = err e

-- `try: body finally: last`
unfoldable pub try_finally : {S E A : Type 0} → Action S E A → Action S E Unit → Action S E A
unfolding ended
try_finally body last s = let (r, s') = body s in let (r', s'') = last s' in (ended r r', s'')
