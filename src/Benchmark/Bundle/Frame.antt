-- ===== src/Benchmark/Bundle/Frame.antt =====
-- `publish_bundle` touches its three paths only.
use fingerprint_full_matcher.Prelude.{
  String, Bool, ◌&&◌, true, false, ◌≡◌, refl, ◌≢◌, ◌∙◌, Option, arith, not, if◌then◌else◌,
}
use fingerprint_full_matcher.Prelude.Result.{Result, ok, err}
use fingerprint_full_matcher.Benchmark.Bundle.Publication.{differ}
use fingerprint_full_matcher.Benchmark.Bundle.{
  BundleError, World, Action, ◌>>=◌, os_replace, rmtree, publish_bundle, continue, move_old,
  drop_old, publish_body, roll_back, publish_new, keep_old, choose, when, reraise, validated,
  set_moved_old, set_published_candidate, pure, exists,
}

-- An action that leaves `p` as it was, whether it returns or raises.
Keeps : {Tree A : Type 0} → String → Action Tree A → Type 0
Keeps {Tree = Tree} p m = (w : World Tree) → ((m w).1).at p ≡ w.at p

module _ (Tree : Type 0) {A B : Type 0} (p : String) where
  continue-at :
      (r : Result BundleError A) (f : A → Action Tree B) (w : World Tree)
      → ((a : A) → ((f a w).1).at p ≡ w.at p)
      → ((continue r f w).1).at p ≡ w.at p
  unfolding continue
  continue-at (ok a) f w h = h a
  continue-at (err e) f w h = refl

  Keeps-bind :
      (m : Action Tree A) (f : A → Action Tree B)
      → Keeps p m
      → ((a : A) → Keeps p (f a))
      → Keeps p (m >>= f)
  unfolding ◌>>=◌ Keeps
  Keeps-bind m f hm hf w = continue-at (m w).0 f (m w).1 (λ a. hf a (m w).1) ∙ hm w

module _ (Tree : Type 0) (p : String) where
  Keeps-os_replace : (s t : String) → p ≢ s → p ≢ t → Keeps p (os_replace {Tree = Tree} s t)
  unfolding os_replace Keeps
  Keeps-os_replace s t hs ht w = ground (arith, differ p s hs, differ p t ht)

  Keeps-rmtree : (s : String) → p ≢ s → Keeps p (rmtree {Tree = Tree} s)
  unfolding rmtree Keeps
  Keeps-rmtree s hs w = ground (arith, differ p s hs)

  Keeps-when : (b : Bool) (m : Action Tree Unit) → Keeps p m → Keeps p (when b m)
  unfolding when Keeps
  Keeps-when true m h w = h w
  Keeps-when false m h w = refl

  -- The test may read the disk.
  Keeps-when_read :
      (b : World Tree → Bool) (m : Action Tree Unit) → Keeps p m → Keeps p (λ w. when (b w) m w)
  unfolding Keeps
  Keeps-when_read b m h w = Keeps-when (b w) m h w

  reraise-at :
      (r : Result BundleError String) (handler : Action Tree Unit) (w : World Tree)
      → Keeps p handler
      → ((reraise r handler w).1).at p ≡ w.at p
  unfolding reraise Keeps
  reraise-at (ok path) handler w h = refl
  reraise-at (err e) handler w h =
      continue-at Tree p (handler w).0 (λ _ w'. (err e, w')) (handler w).1 (λ _. refl) ∙ h w

module _ {Tree : Type 0} (validate : Option Tree → Result BundleError (Unit {0}))
    (candidate destination backup p : String) (hc : p ≢ candidate) (hd : p ≢ destination)
    (hb : p ≢ backup) where
  Keeps-set_moved_old : Keeps p (set_moved_old {Tree = Tree})
  unfolding Keeps set_moved_old
  Keeps-set_moved_old w = refl

  Keeps-set_published_candidate : Keeps p (set_published_candidate {Tree = Tree})
  unfolding Keeps set_published_candidate
  Keeps-set_published_candidate w = refl

  Keeps-validated : (path : String) → Keeps p (validated validate candidate destination backup path)
  unfolding Keeps validated
  Keeps-validated path w = refl

  Keeps-pure : (path : String) → Keeps p (pure {Tree = Tree} path)
  unfolding Keeps pure
  Keeps-pure path w = refl

  Keeps-move_old : Keeps p (move_old validate candidate destination backup)
  unfolding move_old
  Keeps-move_old = Keeps-when_read Tree p (exists destination) _ (
      Keeps-bind Tree p (os_replace destination backup) (λ _. set_moved_old)
        (Keeps-os_replace Tree p destination backup hd hb) (λ _. Keeps-set_moved_old))

  Keeps-drop_old : Keeps p (drop_old validate candidate destination backup)
  unfolding drop_old
  Keeps-drop_old =
      Keeps-when_read Tree p (λ w. w.moved_old) (rmtree backup) (Keeps-rmtree Tree p backup hb)

  Keeps-publish_body : Keeps p (publish_body validate candidate destination backup)
  unfolding publish_body
  Keeps-publish_body = Keeps-bind Tree p _ _ Keeps-move_old λ _.
      Keeps-bind Tree p _ _ (Keeps-os_replace Tree p candidate destination hc hd) λ _.
        Keeps-bind Tree p _ _ Keeps-set_published_candidate λ _.
          Keeps-bind Tree p _ _ (Keeps-validated destination)
            λ _. Keeps-bind Tree p _ _ Keeps-drop_old λ _. Keeps-pure destination

  Keeps-roll_back : Keeps p (roll_back validate candidate destination backup)
  unfolding roll_back
  Keeps-roll_back =
      Keeps-bind Tree p _ _
        (Keeps-when_read Tree p (λ w. exists destination w && w.published_candidate)
          (rmtree destination) (Keeps-rmtree Tree p destination hd))
        λ _.
          Keeps-when_read Tree p (λ w. w.moved_old && exists backup w)
            (os_replace backup destination) (Keeps-os_replace Tree p backup destination hb hd)

  Keeps-publish_new : Keeps p (publish_new validate candidate destination backup)
  unfolding publish_new Keeps
  Keeps-publish_new w =
      let m = publish_body validate candidate destination backup w in
      reraise-at Tree p m.0 _ m.1 Keeps-roll_back ∙ Keeps-publish_body w

  Keeps-keep_old : Keeps p (keep_old validate candidate destination backup)
  unfolding keep_old
  Keeps-keep_old =
      Keeps-bind Tree p _ _ (Keeps-validated destination)
        λ _. Keeps-bind Tree p _ _ (Keeps-rmtree Tree p candidate hc) λ _. Keeps-pure destination

  Keeps-choose : (replace : Bool) → Keeps p (choose validate candidate destination backup replace)
  unfolding choose Keeps
  Keeps-choose replace w =
      elim (exists destination w && not replace)
        as (λ b.
          ((if b
            then keep_old validate candidate destination backup w
            else publish_new validate candidate destination backup w).1
          ).at
            p
          ≡ w.at p) [ true ↦ Keeps-keep_old w | false ↦ Keeps-publish_new w ]

  -- Whatever fails and whether the call returns or raises, no other path changes.
  pub publish_bundle-frame :
      (replace : Bool) (w : World Tree)
      → ((publish_bundle validate candidate destination backup replace w).1).at p ≡ w.at p
  unfolding publish_bundle Keeps
  publish_bundle-frame replace w =
      Keeps-bind Tree p (validated validate candidate destination backup candidate)
        (λ _. choose validate candidate destination backup replace) (Keeps-validated candidate)
        (λ _. Keeps-choose replace) (record w { moved_old = false; published_candidate = false })
