-- ===== src/Supervisor/Package/Published.antt =====
-- What `build_package` leaves on the disk.
use text.Mathlib.TextPositions.{eq_refl}
use fingerprint_full_matcher.Prelude.{
  ℕ, zero, suc, String, Bool, true, false, not, ◌&&◌, ◌≡◌, ◌⊎◌, inl, inr, Option, none, some, List,
  [], ◌∷◌, str_eq, refl, ap, Option-cases, Bool-cases, arith,
}
use fingerprint_full_matcher.Prelude.Result.{Result, ok, err}
use fingerprint_full_matcher.Benchmark.Bundle.{
  Action, ◌>>=◌, continue, when, exists, BundleError, Fault, done, failed, World, os_replace,
  rmtree,
}
use fingerprint_full_matcher.Benchmark.Bundle.Publication.{
  AreDistinct, compared, one_failure, present,
}
use fingerprint_full_matcher.Supervisor.Package.{
  build_package, guarded, refuse_existing, remove_if_present, raise, return,
}

Result-cases : (r : Result BundleError (Unit {0})) → (r ≡ ok tt) ⊎ ((e : BundleError) × (r ≡ err e))
Result-cases (ok u) = inl refl
Result-cases (err e) = inr (e, refl)

err_isnt_ok :
    {B : Type 0} (e : BundleError) (b : B) → ◌≡◌ {A = Result BundleError B} (err e) (ok b) → ⊥
err_isnt_ok e b h = cc

continue_ok :
    {Tree A B : Type 0} {b : B} {w' : World Tree} (f : A → Action Tree B)
    (r : Result BundleError A × World Tree)
    → continue r.0 f r.1 ≡ (ok b, w')
    → (a : A) × (u : World Tree) × (r ≡ (ok a, u)) × (f a u ≡ (ok b, w'))
unfolding continue
continue_ok f (ok a, u) h = (a, u, refl, h)
continue_ok f (err e, u) h = absurd (err_isnt_ok e _ (ap (λ p. p.0) h))

-- Where a sequence returned, its first part returned and the rest went on from there.
bind_ok :
    {Tree A B : Type 0} {b : B} {w' : World Tree} (m : Action Tree A) (f : A → Action Tree B)
    (w : World Tree)
    → (m >>= f) w ≡ (ok b, w')
    → (a : A) × (u : World Tree) × (m w ≡ (ok a, u)) × (f a u ≡ (ok b, w'))
unfolding ◌>>=◌
bind_ok m f w h = continue_ok f (m w) h

removed_ok :
    {Tree : Type 0} (path : String) (w u : World Tree) {x : Unit {0}}
    → remove_if_present path w ≡ (ok x, u)
    → u.at path ≡ none
unfolding remove_if_present rmtree when exists
removed_ok path w u h = ground (arith, eq_refl path)

removed_other :
    {Tree : Type 0} (path other : String) (w u : World Tree) {x : Unit {0}}
    → str_eq other path ≡ false
    → remove_if_present path w ≡ (ok x, u)
    → u.at other ≡ w.at other
unfolding remove_if_present rmtree when exists
removed_other path other w u e h = ground arith

refused_not :
    {Tree : Type 0} (built : Result BundleError (Unit {0})) (left : Option Tree)
    (candidate output backup : String) (replace : Bool) (w u : World Tree) {x : Unit {0}}
    → refuse_existing built left candidate output backup replace w ≡ (ok x, u)
    → (present (w.at output) && not replace ≡ false) × (u ≡ w)
unfolding refuse_existing exists raise return
refused_not built left candidate output backup replace w u h = (ground arith, ground arith)

module _ {Tree : Type 0} (built : Result BundleError (Unit {0})) (left : Option Tree)
    (candidate output backup : String) (paths : AreDistinct candidate output backup)
    (at : String → Option Tree) where
  -- What the guarded part leaves where it returns and no backup was there.
  guarded_ok :
      (w w' : World Tree)
      → w.at backup ≡ none
      → guarded built left candidate output backup w ≡ (ok tt, w')
      → (built ≡ ok tt) × (w'.at output ≡ left) × (w'.at candidate ≡ none) × (w'.at backup ≡ none)
  unfolding guarded os_replace rmtree
  guarded_ok w w' none_there h =
      let facts = compared candidate output backup paths in ground (arith, facts)

  abbrev world : List (Fault Tree) → World Tree
  world faults = record { at = at; faults = faults; moved_old = false; published_candidate = false }

  abbrev build : Bool → List (Fault Tree) → Result BundleError (Unit {0}) × World Tree
  build replace faults = build_package built left candidate output backup replace (world faults)

  -- For distinct paths, whatever fails and whatever an earlier run left behind: if the call returns, the
  -- candidate was built and is now at the output's path, there was no package there or it was to be
  -- replaced, and neither candidate nor backup is left.
  pub build_package-returned :
      (replace : Bool) (faults : List (Fault Tree)) (w : World Tree)
      → build replace faults ≡ (ok tt, w)
      → (built ≡ ok tt)
        × (present (at output) && not replace ≡ false)
        × (w.at output ≡ left)
        × (w.at candidate ≡ none)
        × (w.at backup ≡ none)
  unfolding build_package
  build_package-returned replace faults w h =
      let (_, w1, refused, h1) =
        bind_ok (refuse_existing built left candidate output backup replace) _ (world faults) h in
      let (_, w2, _, h2) = bind_ok (remove_if_present candidate) _ w1 h1 in
      let (_, w3, removed, h3) = bind_ok (remove_if_present backup) _ w2 h2 in
      let (was_built, now, no_candidate, no_backup) =
        guarded_ok w3 w (removed_ok backup w2 w3 removed) h3 in
      (
        was_built,
        (refused_not built left candidate output backup replace (world faults) w1 refused).0,
        now,
        no_candidate,
        no_backup,
      )

  module _ (tree : Tree) (whole : left ≡ some tree) (no_candidate : at candidate ≡ none)
      (no_backup : at backup ≡ none) (replace : Bool) (raised : BundleError) (w : World Tree) where
    -- The old package, or none, is where it was.
    abbrev IsUnchanged : Type 0
    IsUnchanged = (w.at output ≡ at output) × (w.at backup ≡ none)

    unchanged-first : build replace (failed ∷ []) ≡ (err raised, w) → IsUnchanged
    unfolding build_package os_replace rmtree
    unchanged-first h = let facts = compared candidate output backup paths in ground (arith, facts)

    unchanged-second : build replace (done ∷ failed ∷ []) ≡ (err raised, w) → IsUnchanged
    unfolding build_package os_replace rmtree
    unchanged-second h = let facts = compared candidate output backup paths in ground (arith, facts)

    published-third :
        (old : Tree)
        → at output ≡ some old
        → built ≡ ok tt
        → replace ≡ true
        → build replace (done ∷ done ∷ failed ∷ []) ≡ (err raised, w)
        → w.at output ≡ left
    unfolding build_package os_replace rmtree
    published-third old there was_built new h =
        let facts = compared candidate output backup paths in ground (arith, facts)

    unchanged-absent :
        (faults : List (Fault Tree))
        → at output ≡ none
        → build replace (done ∷ done ∷ faults) ≡ (err raised, w)
        → IsUnchanged
    unfolding build_package os_replace rmtree
    unchanged-absent faults absent h =
        let facts = compared candidate output backup paths in ground (arith, facts)

    unchanged-unbuilt :
        (faults : List (Fault Tree)) (e : BundleError)
        → built ≡ err e
        → build replace (done ∷ faults) ≡ (err raised, w)
        → IsUnchanged
    unfolding build_package os_replace rmtree
    unchanged-unbuilt faults e failed_build h =
        let facts = compared candidate output backup paths in ground (arith, facts)

    unchanged-refused :
        (faults : List (Fault Tree))
        → replace ≡ false
        → present (at output) ≡ true
        → build replace faults ≡ (err raised, w)
        → IsUnchanged
    unfolding build_package os_replace rmtree
    unchanged-refused faults kept there h =
        let facts = compared candidate output backup paths in ground (arith, facts)

    unchanged-later :
        (faults : List (Fault Tree))
        → build replace (done ∷ done ∷ done ∷ faults) ≡ (err raised, w)
        → IsUnchanged
    unfolding build_package os_replace rmtree
    unchanged-later faults h =
        let facts = compared candidate output backup paths in ground (arith, facts)

    third :
        build replace (done ∷ done ∷ failed ∷ []) ≡ (err raised, w)
        → IsUnchanged ⊎ ((built ≡ ok tt) × (w.at output ≡ left))
    third h = elim (Option-cases (at output)) [
      | inl absent ↦ inl (unchanged-absent (failed ∷ []) absent h)
      | inr (old, there) ↦ elim (Bool-cases replace) [
        | inr kept ↦ inl (unchanged-refused (done ∷ done ∷ failed ∷ []) kept (ground arith) h)
        | inl new ↦ elim (Result-cases built) [
          | inr (e, failed_build) ↦ inl (unchanged-unbuilt (done ∷ failed ∷ []) e failed_build h)
          | inl was_built ↦ inr (was_built, published-third old there was_built new h)
        ]
      ]
    ]

    -- For distinct paths, a candidate that is whole when it was built, and no candidate or backup of an
    -- earlier run: where one call fails, changing nothing, and `build_package` raises, the output's path
    -- holds what it held before and there is no backup, or the candidate was built and is there.
    pub build_package-raised :
        (k : ℕ)
        → build replace (one_failure k) ≡ (err raised, w)
        → ((w.at output ≡ at output) × (w.at backup ≡ none))
          ⊎ ((built ≡ ok tt) × (w.at output ≡ left))
    unfolding one_failure
    build_package-raised zero h = inl (unchanged-first h)
    build_package-raised (suc zero) h = inl (unchanged-second h)
    build_package-raised (suc (suc zero)) h = third h
    build_package-raised (suc (suc (suc k))) h = inl (unchanged-later (one_failure k) h)
