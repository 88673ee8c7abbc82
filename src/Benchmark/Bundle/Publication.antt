-- ===== src/Benchmark/Bundle/Publication.antt =====
-- What `publish_bundle` leaves on the disk.
use text.Mathlib.TextPositions.{eq_refl}
use fingerprint_full_matcher.Prelude.{
  ℕ, zero, suc, sym, refl, String, Bool, true, false, not, ◌&&◌, ◌≡◌, ◌≢◌, Option, none, some, List,
  [], ◌∷◌, str_eq, eq_iff, arith, if◌then◌else◌, Bool-cases, inl, inr,
}
use fingerprint_full_matcher.Prelude.Result.{Result, ok, err}
use fingerprint_full_matcher.Benchmark.Bundle.{
  BundleError, Fault, done, failed, World, os_replace, rmtree, publish_bundle,
}

-- The three paths of a call: the backup's name ends in a random text.
pub record AreDistinct (candidate destination backup : String) : Type 0 where
  pub cd : candidate ≢ destination
  pub cb : candidate ≢ backup
  pub db : destination ≢ backup

pub differ : (s t : String) → s ≢ t → str_eq s t ≡ false
differ s t h = elim (Bool-cases (str_eq s t)) [
  | inl same ↦ absurd (h ((eq_iff s t).0 same))
  | inr other ↦ other
]

-- What each comparison of two of the paths gives.
abbrev pub Compared : String → String → String → Type 0
Compared c d b =
    (str_eq c c ≡ true)
    × (str_eq d d ≡ true)
    × (str_eq b b ≡ true)
    × (str_eq c d ≡ false)
    × (str_eq c b ≡ false)
    × (str_eq d b ≡ false)
    × (str_eq d c ≡ false)
    × (str_eq b c ≡ false)
    × (str_eq b d ≡ false)

pub compared : (c d b : String) → AreDistinct c d b → Compared c d b
compared c d b paths = (
  eq_refl c,
  eq_refl d,
  eq_refl b,
  differ c d paths.cd,
  differ c b paths.cb,
  differ d b paths.db,
  differ d c (λ e. paths.cd (sym e)),
  differ b c (λ e. paths.cb (sym e)),
  differ b d (λ e. paths.db (sym e)),
)

-- One call fails and changes nothing, the calls before and after it do what they should.
unfoldable pub one_failure : {Tree : Type 0} → ℕ → List (Fault Tree)
one_failure zero = failed ∷ []
one_failure (suc k) = done ∷ one_failure k

abbrev pub present {ℓ} : {A : Type ℓ} → Option A → Bool
present none = false
present (some _) = true

module _ {Tree : Type 0} (validate : Option Tree → Result BundleError (Unit {0}))
    (candidate destination backup : String) (paths : AreDistinct candidate destination backup)
    (at : String → Option Tree) (fresh : at backup ≡ none) where
  abbrev world : List (Fault Tree) → World Tree
  world faults = record { at = at; faults = faults; moved_old = false; published_candidate = false }

  abbrev publish : Bool → List (Fault Tree) → Result BundleError String × World Tree
  publish replace faults =
      publish_bundle validate candidate destination backup replace (world faults)

  -- For distinct paths and a free backup path: whatever fails, if the call returns, it returns the
  -- destination. If there was no bundle or it is to be replaced, the candidate has been moved to the
  -- destination, and it passed validation; else the old bundle is still there, and it passed
  -- validation. Candidate and backup are gone.
  pub publish_bundle-returned :
      (replace : Bool) (faults : List (Fault Tree)) (path : String) (w : World Tree)
      → publish replace faults ≡ (ok path, w)
      → (path ≡ destination)
        × (w.at candidate ≡ none)
        × (w.at backup ≡ none)
        × (validate (w.at destination) ≡ ok tt)
        × (w.at destination
            ≡ (if present (at destination) && not replace then at destination else at candidate))
  unfolding publish_bundle os_replace rmtree
  publish_bundle-returned replace faults path w h =
      let facts = compared candidate destination backup paths in ground (arith, facts)

  -- For distinct paths and a free backup path: where no call fails, the candidate exists and passes
  -- validation, and so does an old bundle that is to be kept, the call returns the destination.
  pub publish_bundle-total :
      (replace : Bool) (tree : Tree)
      → at candidate ≡ some tree
      → validate (some tree) ≡ ok tt
      → ((present (at destination) && not replace ≡ true) → validate (at destination) ≡ ok tt)
      → (publish replace []).0 ≡ ok destination
  unfolding publish_bundle os_replace rmtree
  publish_bundle-total replace tree here valid old =
      let facts = compared candidate destination backup paths in ground (arith, facts)

  abbrev IsRestored : Bool → List (Fault Tree) → Type 0
  IsRestored replace faults =
      (raised : BundleError) (w : World Tree)
      → publish replace faults ≡ (err raised, w)
      → (w.at destination ≡ at destination) × (w.at backup ≡ none)

  IsRestored-first :
      (replace : Bool) (tree : Tree) → at candidate ≡ some tree → IsRestored replace (failed ∷ [])
  unfolding publish_bundle os_replace rmtree
  IsRestored-first replace tree here raised w h =
      let facts = compared candidate destination backup paths in ground (arith, facts)

  IsRestored-second :
      (replace : Bool) (tree : Tree)
      → at candidate ≡ some tree
      → IsRestored replace (done ∷ failed ∷ [])
  unfolding publish_bundle os_replace rmtree
  IsRestored-second replace tree here raised w h =
      let facts = compared candidate destination backup paths in ground (arith, facts)

  IsRestored-third :
      (replace : Bool) (tree : Tree)
      → at candidate ≡ some tree
      → IsRestored replace (done ∷ done ∷ failed ∷ [])
  unfolding publish_bundle os_replace rmtree
  IsRestored-third replace tree here raised w h =
      let facts = compared candidate destination backup paths in ground (arith, facts)

  IsRestored-later :
      (replace : Bool) (faults : List (Fault Tree)) (tree : Tree)
      → at candidate ≡ some tree
      → IsRestored replace (done ∷ done ∷ done ∷ faults)
  unfolding publish_bundle os_replace rmtree
  IsRestored-later replace faults tree here raised w h =
      let facts = compared candidate destination backup paths in ground (arith, facts)

  -- For distinct paths and a free backup path: where the candidate exists, one call fails, changing
  -- nothing, and `publish_bundle` raises, the destination holds what it held before and there is no
  -- backup.
  pub publish_bundle-restores :
      (replace : Bool) (k : ℕ) (tree : Tree) (raised : BundleError) (w : World Tree)
      → at candidate ≡ some tree
      → publish replace (one_failure k) ≡ (err raised, w)
      → (w.at destination ≡ at destination) × (w.at backup ≡ none)
  unfolding one_failure
  publish_bundle-restores replace zero tree raised w here h =
      IsRestored-first replace tree here raised w h
  publish_bundle-restores replace (suc zero) tree raised w here h =
      IsRestored-second replace tree here raised w h
  publish_bundle-restores replace (suc (suc zero)) tree raised w here h =
      IsRestored-third replace tree here raised w h
  publish_bundle-restores replace (suc (suc (suc k))) tree raised w here h =
      IsRestored-later replace (one_failure k) tree here raised w h

-- A call starts its flags anew.
pub publish_bundle-flags :
    {Tree : Type 0} (validate : Option Tree → Result BundleError (Unit {0}))
    (candidate destination backup : String) (replace : Bool) (w : World Tree)
    → publish_bundle validate candidate destination backup replace w
      ≡ publish_bundle validate candidate destination backup replace
          (record w { moved_old = false; published_candidate = false })
unfolding publish_bundle
publish_bundle-flags validate candidate destination backup replace w = refl
