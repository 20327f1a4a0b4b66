-- ===== src/Finalizers/Laws.antt =====
-- The finalizers of an object as a set: what adding and removing one does to every other.
use e_sdk_k8s_plugin.Prelude.{
  true, false, not, Option, none, some, List, [], ◌∷◌, ◌++◌, String, ◌==◌, ◌||◌, if◌then◌else◌,
  keep, ◌≡◌, refl, ap, arith, eq_iff, append-nil, keep-append,
}
use e_sdk_k8s_plugin.Finalizers.{has_finalizer, contains_finalizer, set_finalizer, remove_finalizer}

has_finalizer-append :
    (fs gs : List String) (k : String)
    → has_finalizer (fs ++ gs) k ≡ has_finalizer fs k || has_finalizer gs k
unfolding has_finalizer
has_finalizer-append [] gs k = refl
has_finalizer-append (f ∷ fs) gs k = ground (arith, has_finalizer-append fs gs k)

has_finalizer-keep :
    (fs : List String) (k j : String)
    → has_finalizer (keep (λ f. not (f == k)) fs) j ≡ (if k == j then false else has_finalizer fs j)
unfolding has_finalizer
has_finalizer-keep [] k j = ground arith
has_finalizer-keep (f ∷ fs) k j =
    ground (arith, has_finalizer-keep fs k j, eq_iff f k, eq_iff k j, eq_iff f j)

keep_absent :
    (fs : List String) (k : String) → has_finalizer fs k ≡ false → keep (λ f. not (f == k)) fs ≡ fs
unfolding has_finalizer
keep_absent [] k h = refl
keep_absent (f ∷ fs) k h = ground (arith, keep_absent fs k)

-- On an object that is not nil, a finalizer that was set is there, and every other one is there
-- exactly when it was before.
contains_finalizer-set_finalizer :
    (fs : List String) (k j : String)
    → contains_finalizer (set_finalizer (some fs) k) j
      ≡ (if k == j then true else contains_finalizer (some fs) j)
unfolding contains_finalizer set_finalizer
contains_finalizer-set_finalizer fs k j =
    ground (arith, has_finalizer-append fs (k ∷ []) j, eq_iff k j)

-- A finalizer that was removed is gone from the object, nil or not, however often it stood there, and
-- every other one is there exactly when it was before.
contains_finalizer-remove_finalizer :
    (o : Option (List String)) (k j : String)
    → contains_finalizer (remove_finalizer o k) j
      ≡ (if k == j then false else contains_finalizer o j)
unfolding contains_finalizer remove_finalizer
contains_finalizer-remove_finalizer none k j = ground arith
contains_finalizer-remove_finalizer (some fs) k j = has_finalizer-keep fs k j

has_finalizer-append_same : (fs : List String) (k : String) → has_finalizer (fs ++ k ∷ []) k ≡ true
unfolding has_finalizer
has_finalizer-append_same fs k = ground (arith, has_finalizer-append fs (k ∷ []) k, eq_iff k k)

keep-set_finalizer :
    (fs : List String) (k : String)
    → has_finalizer fs k ≡ false
    → keep (λ f. not (f == k)) (fs ++ k ∷ []) ≡ fs
keep-set_finalizer fs k h = ground (
  arith,
  keep-append (λ f. not (f == k)) fs (k ∷ []),
  keep_absent fs k h,
  eq_iff k k,
  append-nil fs,
)

-- Setting a finalizer that an object, not nil, does not hold adds that one and no other; setting it
-- again changes nothing; and removing it then gives the object back, with the other finalizers in
-- their order.
pub remove_finalizer-set_finalizer :
    (fs : List String) (k j : String)
    → contains_finalizer (some fs) k ≡ false
    → (contains_finalizer (set_finalizer (some fs) k) j
        ≡ (if k == j then true else contains_finalizer (some fs) j))
      × (set_finalizer (set_finalizer (some fs) k) k ≡ set_finalizer (some fs) k)
      × (remove_finalizer (set_finalizer (some fs) k) k ≡ some fs)
unfolding contains_finalizer set_finalizer remove_finalizer
remove_finalizer-set_finalizer fs k j h = (
  contains_finalizer-set_finalizer fs k j,
  rw (h, set_finalizer, has_finalizer-append_same fs k) refl,
  rw (h, set_finalizer) (ap some (keep-set_finalizer fs k h)),
)
