-- ===== src/Finalizers.antt =====
-- pkg/finalizers/finalizers.go: the finalizer list of a Kubernetes object. An object is the list that
-- `GetFinalizers` returns, and a nil object is `none`.
mod Laws
mod Tests
use e_sdk_k8s_plugin.Prelude.{
  Bool, true, false, not, Option, none, some, List, [], ◌∷◌, ◌++◌, String, ◌==◌, ◌||◌,
  if◌then◌else◌, keep,
}

-- The loop over the finalizers of an object that is not nil.
pub has_finalizer : List String → String → Bool
has_finalizer [] finalizer = false
has_finalizer (f ∷ fs) finalizer = f == finalizer || has_finalizer fs finalizer

unfoldable pub contains_finalizer : Option (List String) → String → Bool
unfolding has_finalizer
contains_finalizer none finalizer = false
contains_finalizer (some fs) finalizer = has_finalizer fs finalizer

unfoldable pub set_finalizer : Option (List String) → String → Option (List String)
set_finalizer none finalizer = none
set_finalizer (some fs) finalizer =
    if not (contains_finalizer (some fs) finalizer) then some (fs ++ finalizer ∷ []) else some fs

unfoldable pub remove_finalizer : Option (List String) → String → Option (List String)
remove_finalizer none finalizer = none
remove_finalizer (some fs) finalizer = some (keep (λ f. not (f == finalizer)) fs)
