-- ===== src/Finalizers/Tests.antt =====
-- Runs on an object that holds two finalizers.
use e_sdk_k8s_plugin.Prelude.{some, List, [], ◌∷◌, String, ◌≡◌, refl, true, ◌==◌, if◌then◌else◌}
use e_sdk_k8s_plugin.Finalizers.{contains_finalizer, set_finalizer, remove_finalizer}
use e_sdk_k8s_plugin.Finalizers.Laws.{remove_finalizer-set_finalizer}

abbrev held : List String
held = "a" ∷ "b" ∷ "a" ∷ []

set_again : set_finalizer (some held) "b" ≡ some held
unfolding set_finalizer contains_finalizer
set_again = refl

remove_both : remove_finalizer (some held) "a" ≡ some ("b" ∷ [])
unfolding remove_finalizer
remove_both = refl

remove_finalizer-set_finalizer_example :
    (contains_finalizer (set_finalizer (some held) "c") "a"
      ≡ (if "c" == "a" then true else contains_finalizer (some held) "a"))
    × (set_finalizer (set_finalizer (some held) "c") "c" ≡ set_finalizer (some held) "c")
    × (remove_finalizer (set_finalizer (some held) "c") "c" ≡ some held)
unfolding contains_finalizer
remove_finalizer-set_finalizer_example = remove_finalizer-set_finalizer held "c" "a" refl
