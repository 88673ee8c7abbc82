-- ===== src/Benchmark/Bundle.antt =====
-- src/fingerprint_benchmark/bundle.py: `publish_bundle`, over a disk that maps paths to directories.
-- Each system call may fail, as its turn in a list of faults says: it raises and changes nothing,
-- or, for a removal, raises and leaves some of the directory. Where no fault is left a call succeeds
-- as far as its operands allow. Validation is a function of the directory: what it reads can be read.
pub mod Publication
pub mod Frame
pub mod Tests
use fingerprint_full_matcher.Prelude.{
  String, Bool, true, false, not, ◌&&◌, Option, none, some, List, [], ◌∷◌, str_eq, if◌then◌else◌,
}
use fingerprint_full_matcher.Prelude.Result.{Result, ok, err}

pub data BundleError : Type 0 where
  os_error : BundleError
  invalid_bundle : String → BundleError

pub data Fault (Tree : Type 0) : Type 0 where
  done : Fault Tree
  failed : Fault Tree
  left : Tree → Fault Tree

-- The disk, the faults to come, and the two flags of `publish_bundle`.
pub record World (Tree : Type 0) : Type 0 where
  pub at : String → Option Tree
  pub faults : List (Fault Tree)
  pub moved_old : Bool
  pub published_candidate : Bool

-- What was done before an exception stays done.
abbrev pub Action : Type 0 → Type 0 → Type 0
Action Tree A = World Tree → Result BundleError A × World Tree

module _ {Tree A B : Type 0} where
  unfoldable pub continue : Result BundleError A → (A → Action Tree B) → Action Tree B
  continue (ok a) f w = f a w
  continue (err e) f w = (err e, w)

  infixl 5 ◌>>=◌ ◌>>◌
  unfoldable pub ◌>>=◌ : Action Tree A → (A → Action Tree B) → Action Tree B
  unfolding continue
  ◌>>=◌ m f w = let (r, w') = m w in continue r f w'

  abbrev pub ◌>>◌ : Action Tree A → Action Tree B → Action Tree B
  m >> k = m >>= λ _. k

module _ {Tree : Type 0} where
  abbrev pub put : String → Option Tree → (String → Option Tree) → String → Option Tree
  put path entry at p = if str_eq p path then entry else at p

  returned : Result BundleError (Unit {0}) → Action Tree Unit
  returned r w = (r, w)

  pure : String → Action Tree String
  pure path w = (ok path, w)

  -- `path.exists()`
  unfoldable pub exists : String → World Tree → Bool
  exists path w = elim (w.at path) [ none ↦ false | some _ ↦ true ]

  -- Takes the fault of one call.
  unfoldable pub next_fault : List (Fault Tree) → Fault Tree × List (Fault Tree)
  next_fault [] = (done, [])
  next_fault (f ∷ fs) = (f, fs)

  -- A rename over a directory that is not empty is refused, and so is one of a missing path.
  moved : Option Tree → Option Tree → String → String → Action Tree Unit
  moved (some tree) none source target w =
      (ok tt, record w { at = put target (some tree) (put source none w.at) })
  moved _ _ source target w = (err os_error, w)

  -- `os.replace(source, target)`
  unfoldable pub os_replace : String → String → Action Tree Unit
  unfolding moved next_fault
  os_replace source target w =
      let (fault, rest) = next_fault w.faults in
      let w' : World Tree = record w { faults = rest } in
      elim fault [
        | done ↦ moved (w.at source) (w.at target) source target w'
        | failed ↦ (err os_error, w')
        | left _ ↦ (err os_error, w')
      ]

  removed : Option Tree → String → Action Tree Unit
  removed none path w = (err os_error, w)
  removed (some _) path w = (ok tt, record w { at = put path none w.at })

  -- `shutil.rmtree(path)`
  unfoldable pub rmtree : String → Action Tree Unit
  unfolding removed next_fault
  rmtree path w =
      let (fault, rest) = next_fault w.faults in
      let w' : World Tree = record w { faults = rest } in
      elim fault [
        | done ↦ removed (w.at path) path w'
        | failed ↦ (err os_error, w')
        | left tree ↦ (err os_error, record w' { at = put path (some tree) w.at })
      ]

  set_moved_old : Action Tree Unit
  set_moved_old w = (ok tt, record w { moved_old = true })

  set_published_candidate : Action Tree Unit
  set_published_candidate w = (ok tt, record w { published_candidate = true })

  unfoldable pub when : Bool → Action Tree Unit → Action Tree Unit
  when true m w = m w
  when false m w = (ok tt, w)

  -- `except BaseException: handler; raise`, after a body that ended so.
  reraise : Result BundleError String → Action Tree Unit → Action Tree String
  unfolding continue
  reraise (ok path) handler w = (ok path, w)
  reraise (err e) handler w = let (r, w') = handler w in continue r (λ _ w''. (err e, w'')) w'

  -- `validate` reads the directory at a path and raises or not.
  module _ (validate : Option Tree → Result BundleError (Unit {0}))
      (candidate destination backup : String) where
    validated : String → Action Tree Unit
    unfolding returned
    validated path w = returned (validate (w.at path)) w

    move_old : Action Tree Unit
    unfolding ◌>>=◌ set_moved_old when exists
    move_old w = when (exists destination w) (os_replace destination backup >> set_moved_old) w

    drop_old : Action Tree Unit
    unfolding when
    drop_old w = when w.moved_old (rmtree backup) w

    publish_body : Action Tree String
    unfolding ◌>>=◌ move_old drop_old validated set_published_candidate pure
    publish_body = do
      move_old
      os_replace candidate destination
      set_published_candidate
      validated destination
      drop_old
      pure destination

    roll_back : Action Tree Unit
    unfolding ◌>>=◌ when exists
    roll_back = do
      (λ w. when (exists destination w && w.published_candidate) (rmtree destination) w)
      (λ w. when (w.moved_old && exists backup w) (os_replace backup destination) w)

    publish_new : Action Tree String
    unfolding publish_body roll_back reraise
    publish_new w = let (r, w') = publish_body w in reraise r roll_back w'

    keep_old : Action Tree String
    unfolding ◌>>=◌ validated pure
    keep_old = do validated destination; rmtree candidate; pure destination

    choose : Bool → Action Tree String
    unfolding publish_new keep_old exists
    choose replace w =
        let old = keep_old w in
        let new = publish_new w in if exists destination w && not replace then old else new

    -- The flags are local to a call and start as `False`.
    pub publish_bundle : Bool → Action Tree String
    unfolding ◌>>=◌ validated choose
    publish_bundle replace w =
        (validated candidate >> choose replace)
          (record w { moved_old = false; published_candidate = false })
