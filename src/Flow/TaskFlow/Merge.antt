-- ===== src/Flow/TaskFlow/Merge.antt =====
-- Result maps of a flow: what `MergeMap` makes of two maps.
use e_sdk_k8s_plugin.Prelude.{
  Option, none, some, [], ◌∷◌, String, ◌==◌, ◌≡◌, refl, ap, sym, ◌∙◌, arith, eq_iff, Bool-cases,
  inl, inr,
}
use e_sdk_k8s_plugin.Prelude.Dict.{Dict, insert, lookup, lookup-insert, lookup-nil}
use e_sdk_k8s_plugin.Flow.TaskFlow.{merge_into, merge_map, merge_result}

module _ {ℓ} {V : Type ℓ} where
  -- A Go map holds a key once.
  abbrev pub IsMap : Dict V → Type ℓ
  IsMap [] = Unit
  IsMap ((k, v) ∷ m) = (lookup k m ≡ none) × IsMap m

  -- A nil map is a map too.
  abbrev pub IsResult : Option (Dict V) → Type ℓ
  IsResult none = Unit
  IsResult (some m) = IsMap m

  abbrev pub or_else : Option V → Option V → Option V
  or_else none o = o
  or_else (some v) o = some v

  -- The value of a key in a result map, which may be nil.
  abbrev pub value_in : String → Option (Dict V) → Option V
  value_in k none = none
  value_in k (some m) = lookup k m

  -- Every key has its value in the new map, and where that lacks it, its value in the old one.
  abbrev pub Merges : Dict V → Option (Dict V) → Dict V → Type ℓ
  Merges old new merged = (k : String) → lookup k merged ≡ or_else (value_in k new) (lookup k old)

  or_else-none : (o : Option V) → or_else o none ≡ o
  or_else-none none = refl
  or_else-none (some v) = refl

  insert-IsMap : (k : String) (v : V) (m : Dict V) → IsMap m → IsMap (insert k v m)
  unfolding insert lookup
  insert-IsMap k v [] h = (refl, tt)
  insert-IsMap k v ((j, old) ∷ m) h = elim (Bool-cases (j == k)) [
    | inl e ↦ rw e (ap (λ z. lookup z m) (sym ((eq_iff j k).0 e)) ∙ h.0, h.1)
    | inr f ↦ rw f (
      lookup-insert k j v m ∙ ground (arith, h.0, eq_iff k j, eq_iff j k),
      insert-IsMap k v m h.1,
    )
  ]

  merge_into-IsMap : (m arg : Dict V) → IsMap m → IsMap (merge_into m arg)
  unfolding merge_into
  merge_into-IsMap m [] h = h
  merge_into-IsMap m ((k, v) ∷ arg) h = merge_into-IsMap (insert k v m) arg (insert-IsMap k v m h)

  lookup-merge_into :
      (m arg : Dict V) (j : String)
      → IsMap arg
      → lookup j (merge_into m arg) ≡ or_else (lookup j arg) (lookup j m)
  unfolding merge_into lookup
  lookup-merge_into m [] j h = refl
  lookup-merge_into m ((k, v) ∷ arg) j h =
      ground (arith, lookup-merge_into (insert k v m) arg j, lookup-insert k j v m, eq_iff k j, h.0)

  lookup-merge_map :
      (a b : Dict V) (k : String)
      → IsMap a
      → IsMap b
      → lookup k (merge_map (a ∷ b ∷ [])) ≡ or_else (lookup k b) (lookup k a)
  unfolding merge_map
  lookup-merge_map a b k ha hb =
      lookup-merge_into (merge_into [] a) b k hb
      ∙ ap (or_else (lookup k b)) (
          lookup-merge_into [] a k ha
          ∙ ap (or_else (lookup k a)) (lookup-nil k)
          ∙ or_else-none (lookup k a))

  pub merge_result-Merges :
      (old : Dict V) (new : Option (Dict V))
      → IsMap old
      → IsResult new
      → Merges old new (merge_result old new)
  merge_result-Merges old none h r k = refl
  merge_result-Merges old (some m) h r k = lookup-merge_map old m k h r

  pub merge_result-IsMap :
      (old : Dict V) (new : Option (Dict V)) → IsMap old → IsMap (merge_result old new)
  unfolding merge_map
  merge_result-IsMap old none h = h
  merge_result-IsMap old (some m) h =
      merge_into-IsMap (merge_into [] old) m (merge_into-IsMap [] old tt)
