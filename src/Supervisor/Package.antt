-- ===== src/Supervisor/Package.antt =====
-- `build_package` of tools/build_supervisor_50x10_v1.py, over the disk of `publish_bundle`, whose system
-- calls may fail. What `_build_candidate` ends with and what it leaves at the candidate's path are
-- parameters; the parent directory exists.
pub mod Published
mod Tests
use fingerprint_full_matcher.Prelude.{
  String, Bool, true, false, not, ◌&&◌, Option, none, some, List, if◌then◌else◌,
}
use fingerprint_full_matcher.Prelude.Result.{Result, ok, err}
use fingerprint_full_matcher.Benchmark.Bundle.{
  BundleError, invalid_bundle, World, Action, ◌>>=◌, ◌>>◌, os_replace, rmtree, exists, put, when,
  continue,
}

module _ {Tree : Type 0} where
  raise : BundleError → Action Tree Unit
  raise e w = (err e, w)

  return : Action Tree Unit
  return w = (ok tt, w)

  -- `except BaseException: handler; raise`
  on_error : Result BundleError (Unit {0}) → Action Tree Unit → Action Tree Unit
  unfolding continue
  on_error (ok u) handler w = (ok tt, w)
  on_error (err e) handler w = let (r, w') = handler w in continue r (λ _ w''. (err e, w'')) w'

  -- `if path.exists(): shutil.rmtree(path)`
  remove_if_present : String → Action Tree Unit
  unfolding when exists
  remove_if_present path w = when (exists path w) (rmtree path) w

  module _ (built : Result BundleError (Unit {0})) (left : Option Tree)
      (candidate output backup : String) where
    build_candidate : Action Tree Unit
    build_candidate w = (built, record w { at = put candidate left w.at })

    restore : Action Tree Unit
    unfolding remove_if_present ◌>>=◌
    restore = do remove_if_present output; os_replace backup output

    put_in_place : Action Tree Unit
    unfolding on_error restore
    put_in_place w = let (r, w') = os_replace candidate output w in on_error r restore w'

    replace_old : Action Tree Unit
    unfolding ◌>>=◌ put_in_place
    replace_old = do os_replace output backup; put_in_place; rmtree backup

    place : Bool → Action Tree Unit
    unfolding replace_old
    place true w = replace_old w
    place false w = os_replace candidate output w

    build_and_place : Action Tree Unit
    unfolding ◌>>=◌ build_candidate place exists
    build_and_place = do build_candidate; (λ w. place (exists output w) w)

    guarded : Action Tree Unit
    unfolding build_and_place on_error remove_if_present
    guarded w = let (r, w') = build_and_place w in on_error r (remove_if_present candidate) w'

    refuse_existing : Bool → Action Tree Unit
    unfolding exists raise return
    refuse_existing replace w =
        if exists output w && not replace
        then raise (invalid_bundle "output package already exists; use --replace") w
        else return w

    -- The path that is returned is the output's.
    unfoldable pub build_package : Bool → Action Tree Unit
    unfolding ◌>>=◌ refuse_existing remove_if_present guarded
    build_package replace = do
      refuse_existing replace
      remove_if_present candidate
      remove_if_present backup
      guarded
