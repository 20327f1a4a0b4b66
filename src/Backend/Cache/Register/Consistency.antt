-- ===== src/Backend/Cache/Register/Consistency.antt =====
-- What is left in the cache after the consistency check.
use e_sdk_k8s_plugin.Prelude.{
  Bool, true, false, Option, none, some, List, [], ◌∷◌, String, ◌==◌, if◌then◌else◌, ◌≡◌, refl, ap,
  sym, ◌∙◌, arith, eq_iff, Bool-cases, Option-cases, inl, inr,
}
use e_sdk_k8s_plugin.Prelude.Dict.{Dict, lookup, lookup-erase}
use e_sdk_k8s_plugin.Backend.Model.{Backend, World}
use e_sdk_k8s_plugin.Backend.Cache.{Content, delete, list, values}
use e_sdk_k8s_plugin.Backend.Cache.Metro.{IsConsistent}
use e_sdk_k8s_plugin.Backend.Cache.Register.{
  Cluster, is_live, exist_backends, consistency_loop, check_consistency,
}

-- A name that the loop may remove is kept only if it is live.
abbrev listed : List Backend → String → Bool
listed [] k = false
listed (b ∷ bs) k = if b.name == k then true else listed bs k

kept :
    (n k : String) (l : Bool) (live : String → Bool) (o : Option Backend)
    → live n ≡ true
    → (if l then (if live k then o else none) else o)
      ≡ (if (if n == k then true else l) then (if live k then o else none) else o)
kept n k l live o h = elim (Bool-cases (n == k)) [
  | inl e ↦
      let same = (eq_iff n k).0 e in
      let q : live k ≡ true = ap live (sym same) ∙ h in rw (e, q) (ground arith)
  | inr e ↦ rw e refl
]

gone :
    (n k : String) (l : Bool) (live : String → Bool) (o : Option Backend)
    → live n ≡ false
    → (if l
        then (if live k then (if n == k then none else o) else none)
        else (if n == k then none else o))
      ≡ (if (if n == k then true else l) then (if live k then o else none) else o)
gone n k l live o h = elim (Bool-cases (n == k)) [
  | inl e ↦
      let same = (eq_iff n k).0 e in
      let q : live k ≡ false = ap live (sym same) ∙ h in rw (e, q) (ground arith)
  | inr e ↦ rw e refl
]

module _ {E : Type 0} (cluster : Cluster E) (m : Dict Content) where
  lookup-delete :
      (name k : String) (w : World)
      → lookup k (delete name w).cache ≡ (if name == k then none else lookup k w.cache)
  unfolding delete
  lookup-delete name k w = lookup-erase name k w.cache

  lookup-consistency_loop :
      (bs : List Backend) (k : String) (w : World)
      → lookup k (consistency_loop cluster m bs w).cache ≡ (
          if listed bs k
          then (if is_live cluster m k then lookup k w.cache else none)
          else lookup k w.cache)
  unfolding consistency_loop
  lookup-consistency_loop [] k w = refl
  lookup-consistency_loop (b ∷ bs) k w = elim (Bool-cases (is_live cluster m b.name)) [
    | inl h ↦
        rw (h, consistency_loop)
          (lookup-consistency_loop bs k w
            ∙ kept b.name k (listed bs k) (is_live cluster m) (lookup k w.cache) h)
    | inr h ↦
        rw (h, consistency_loop)
          (lookup-consistency_loop bs k (delete b.name w)
            ∙ (ap (λ o. if listed bs k then (if is_live cluster m k then o else none) else o)
                  (lookup-delete b.name k w)
                ∙ gone b.name k (listed bs k) (is_live cluster m) (lookup k w.cache) h))
  ]

listed-values :
    (m : Dict Backend) (k : String) (b : Backend)
    → lookup k m ≡ some b
    → b.name ≡ k
    → listed (values m) k ≡ true
unfolding lookup
listed-values [] k b e n = cc
listed-values ((j, c) ∷ m) k b e n =
    ground (arith, eq_iff j k, eq_iff c.name k, listed-values m k b)

no_backend :
    (l live : Bool)
    → ◌≡◌ {A = Option Backend}
        (if l then (if live then none else none) else none)
        (if live then none else none)
no_backend l live = ground arith

-- If every cached backend stands under its own name, the consistency check leaves exactly the cached
-- backends that have a content among those given whose status is online, each as it was.
pub check_consistency-live :
    {E : Type 0} (cluster : Cluster E) (contents : List Content) (w : World) (k : String)
    → IsConsistent w
    → lookup k (check_consistency cluster contents w).cache
      ≡ (if is_live cluster (exist_backends cluster contents []) k then lookup k w.cache else none)
unfolding check_consistency list
check_consistency-live cluster contents w k c =
    let m = exist_backends cluster contents [] in
    lookup-consistency_loop cluster m (list w) k w ∙ elim (Option-cases (lookup k w.cache)) [
      | inl e ↦ rw e (no_backend (listed (list w) k) (is_live cluster m k))
      | inr (b, e) ↦ rw (listed-values w.cache k b e (c.keyed k b e)) refl
    ]
