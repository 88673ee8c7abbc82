-- ===== src/Prelude/Action/Rules.antt =====
-- What an action may raise and what it may return, composed along the code.
use mathlib.Core.Path.{◌≡◌, refl, ap, ◌∙◌}
use fingerprint_full_matcher.Prelude.Result.{Result, ok, err}
use fingerprint_full_matcher.Prelude.Action.{Action, continue, ◌>>=◌, lift, handled, try_except}

-- Each exception of the action has the property.
unfoldable pub Raises : {S E A : Type 0} → (E → Type 0) → Action S E A → Type 0
Raises {S = S} {E = E} P m = (s : S) (e : E) → (m s).0 ≡ err e → P e

-- Each value that the action returns has the property.
unfoldable pub Returns : {S E A : Type 0} → (A → Type 0) → Action S E A → Type 0
Returns {S = S} {A = A} Q m = (s : S) (a : A) → (m s).0 ≡ ok a → Q a

module _ {S E A B : Type 0} where
  Raises-continue :
      (P : E → Type 0) (r : Result E A) (f : A → Action S E B) (s : S) (e : E)
      → ((e' : E) → r ≡ err e' → P e')
      → ((a : A) → Raises P (f a))
      → (continue r f s).0 ≡ err e
      → P e
  unfolding continue Raises
  Raises-continue P (ok a) f s e hr hf h = hf a s e h
  Raises-continue P (err e') f s e hr hf h = hr e (cc h)

  pub Raises-bind :
      (P : E → Type 0) (m : Action S E A) (f : A → Action S E B)
      → Raises P m
      → ((a : A) → Raises P (f a))
      → Raises P (m >>= f)
  unfolding ◌>>=◌ Raises
  Raises-bind P m f hm hf s e h = Raises-continue P (m s).0 f (m s).1 e (hm s) hf h

  Returns-continue :
      (Q : B → Type 0) (r : Result E A) (f : A → Action S E B) (s : S) (b : B)
      → ((a : A) → Returns Q (f a))
      → (continue r f s).0 ≡ ok b
      → Q b
  unfolding continue Returns
  Returns-continue Q (ok a) f s b hf h = hf a s b h
  Returns-continue Q (err e) f s b hf h = cc h

  pub Returns-bind :
      (Q : B → Type 0) (m : Action S E A) (f : A → Action S E B)
      → ((a : A) → Returns Q (f a))
      → Returns Q (m >>= f)
  unfolding ◌>>=◌ Returns
  Returns-bind Q m f hf s b h = Returns-continue Q (m s).0 f (m s).1 b hf h

module _ {S D E A : Type 0} where
  Raises-handled :
      (P : D → Type 0) (R : E → Type 0) (r : Result D A) (handler : D → Action S E A) (s : S)
      (e : E)
      → ((d : D) → r ≡ err d → P d)
      → ((d : D) → P d → Raises R (handler d))
      → (handled r handler s).0 ≡ err e
      → R e
  unfolding handled Raises
  Raises-handled P R (ok a) handler s e hr hh h = cc h
  Raises-handled P R (err d) handler s e hr hh h = hh d (hr d refl) s e h

  pub Raises-try_except :
      (P : D → Type 0) (R : E → Type 0) (body : Action S D A) (handler : D → Action S E A)
      → Raises P body
      → ((d : D) → P d → Raises R (handler d))
      → Raises R (try_except body handler)
  unfolding try_except Raises
  Raises-try_except P R body handler hb hh s e h =
      Raises-handled P R (body s).0 handler (body s).1 e (hb s) hh h

  Returns-handled :
      (Q : A → Type 0) (r : Result D A) (handler : D → Action S E A) (s : S) (a : A)
      → ((b : A) → r ≡ ok b → Q b)
      → ((d : D) → Returns Q (handler d))
      → (handled r handler s).0 ≡ ok a
      → Q a
  unfolding handled Returns
  Returns-handled Q (ok b) handler s a hr hh h = hr a (cc h)
  Returns-handled Q (err d) handler s a hr hh h = hh d s a h

  pub Returns-try_except :
      (Q : A → Type 0) (body : Action S D A) (handler : D → Action S E A)
      → Returns Q body
      → ((d : D) → Returns Q (handler d))
      → Returns Q (try_except body handler)
  unfolding try_except Returns
  Returns-try_except Q body handler hb hh s a h =
      Returns-handled Q (body s).0 handler (body s).1 a (hb s) hh h

value_of :
    {E A : Type 0} (Q : A → Type 0) (r : Result E A)
    → ((e : E) → r ≡ err e → ⊥)
    → ((a : A) → r ≡ ok a → Q a)
    → (a : A) × (r ≡ ok a) × Q a
value_of Q (ok a) hr hq = (a, refl, hq a refl)
value_of Q (err e) hr hq = absurd (hr e refl)

module _ {S E A : Type 0} where
  -- An action that raises nothing returns a value with what its values have.
  pub returned_value :
      (Q : A → Type 0) (m : Action S E A)
      → Raises (λ e. ⊥) m
      → Returns Q m
      → (s : S) → (a : A) × ((m s).0 ≡ ok a) × Q a
  unfolding Raises Returns
  returned_value Q m hr hq s = value_of Q (m s).0 (hr s) (hq s)

-- The action raises nothing and returns a value with the property, from every state.
unfoldable pub Yields : {S E A : Type 0} → (A → Type 0) → Action S E A → Type 0
Yields {S = S} {A = A} Q m = (s : S) → (a : A) × ((m s).0 ≡ ok a) × Q a

module _ {S E A B : Type 0} where
  Yields-continue :
      (Q : B → Type 0) (r : Result E A) (f : A → Action S E B) (s : S) (a : A)
      → r ≡ ok a
      → (b : B) × ((f a s).0 ≡ ok b) × Q b
      → (b : B) × ((continue r f s).0 ≡ ok b) × Q b
  unfolding continue
  Yields-continue Q r f s a h (b, e, q) = (b, rw h e, q)

  pub Yields-bind :
      (P : A → Type 0) (Q : B → Type 0) (m : Action S E A) (f : A → Action S E B)
      → Yields P m
      → ((a : A) → P a → Yields Q (f a))
      → Yields Q (m >>= f)
  unfolding ◌>>=◌ Yields
  Yields-bind P Q m f hm hf s =
      let (a, e, p) = hm s in Yields-continue Q (m s).0 f (m s).1 a e (hf a p (m s).1)

module _ (S : Type 0) {E B : Type 0} where
  pub Yields-lift :
      (Q : B → Type 0) (r : Result E B) (b : B) → r ≡ ok b → Q b → Yields Q (lift {S = S} r)
  unfolding Yields lift
  Yields-lift Q r b e q s = (b, e, q)

-- One step of a chain that goes on.
module _ {S E A B : Type 0} where
  pub bind_run :
      (m : Action S E A) (f : A → Action S E B) (s s' : S) (a : A) {out : Result E B × S}
      → m s ≡ (ok a, s')
      → f a s' ≡ out
      → (m >>= f) s ≡ out
  unfolding ◌>>=◌ continue
  bind_run m f s s' a h rest = ap (λ r. continue r.0 f r.1) h ∙ rest

  pub lift_run :
      (r : Result E A) (f : A → Action S E B) (s : S) (a : A) {out : Result E B × S}
      → r ≡ ok a
      → f a s ≡ out
      → (lift r >>= f) s ≡ out
  unfolding ◌>>=◌ continue lift
  lift_run r f s a h rest = ap (λ r'. continue r' f s) h ∙ rest

  continue_inverse :
      (r : Result E A) (f : A → Action S E B) (s s' : S) (b : B)
      → continue r f s ≡ (ok b, s')
      → (a : A) × (r ≡ ok a) × (f a s ≡ (ok b, s'))
  unfolding continue
  continue_inverse (ok a) f s s' b h = (a, refl, h)
  continue_inverse (err e) f s s' b h = cc (ap (λ r. r.0) h)

  -- A chain that returned went on at each step.
  pub bind_inverse :
      (m : Action S E A) (f : A → Action S E B) (s s' : S) (b : B)
      → (m >>= f) s ≡ (ok b, s')
      → (a : A) × (between : S) × (m s ≡ (ok a, between)) × (f a between ≡ (ok b, s'))
  unfolding ◌>>=◌
  bind_inverse m f s s' b h =
      let (a, e, rest) = continue_inverse (m s).0 f (m s).1 s' b h in
      (a, (m s).1, ap (λ r. (r, (m s).1)) e, rest)

  pub lift_inverse :
      (r : Result E A) (f : A → Action S E B) (s s' : S) (b : B)
      → (lift r >>= f) s ≡ (ok b, s')
      → (a : A) × (r ≡ ok a) × (f a s ≡ (ok b, s'))
  unfolding ◌>>=◌ lift
  lift_inverse r f s s' b h = continue_inverse r f s s' b h
