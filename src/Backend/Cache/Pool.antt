-- ===== src/Backend/Cache/Pool.antt =====
-- What an update of a pool from a StorageBackendContent leaves in its maps.
use e_sdk_k8s_plugin.Prelude.{
  Bool, true, false, Option, some, List, [], ◌∷◌, String, ◌==◌, eqb_iff, if◌then◌else◌, ◌≡◌, refl,
  ap, ◌∙◌, arith, eq_iff, Bool-cases, Option-cases, inl, inr, is_empty,
}
use e_sdk_k8s_plugin.Prelude.Dict.{Dict, lookup, lookup-insert}
use e_sdk_k8s_plugin.Strconv.{Bytes, same_bytes}
use e_sdk_k8s_plugin.Backend.Model.{StoragePool, is_dtree_storage}
use e_sdk_k8s_plugin.Backend.Cache.{
  Content, ContentPool, ContentStatus, same_flag, update_entry, update_entries, update_capacities,
  update_capabilities, update_named, update_pool_by_sbct,
}

same_bytes-eq : (s t : Bytes) → same_bytes s t ≡ true → s ≡ t
same_bytes-eq [] [] h = refl
same_bytes-eq [] (d ∷ t) h = cc
same_bytes-eq (c ∷ s) [] h = cc
same_bytes-eq (c ∷ s) (d ∷ t) h = ground (arith, eqb_iff c d, same_bytes-eq s t)

same_flag-eq : (a b : Bool) → same_flag a b ≡ true → a ≡ b
same_flag-eq a b h = ground arith

-- The last value of a key in the entries, or what the map had.
abbrev pub last_or : Dict Bytes → String → Option Bytes → Option Bytes
last_or [] k old = old
last_or ((key, val) ∷ entries) k old = last_or entries k (if key == k then some val else old)

update_entry-lookup :
    (m : Dict Bytes) (key k : String) (val : Bytes)
    → lookup k (update_entry same_bytes m key val) ≡ (if key == k then some val else lookup k m)
update_entry-lookup m key k val = elim (Option-cases (lookup key m)) [
  | inl e ↦ rw (e, update_entry) (lookup-insert key k val m)
  | inr (cur, e) ↦ elim (Bool-cases (same_bytes cur val)) [
    | inl h ↦ rw (e, h, update_entry) (ground (arith, e, eq_iff key k, same_bytes-eq cur val h))
    | inr h ↦ rw (e, h, update_entry) (lookup-insert key k val m)
  ]
]

update_entries-lookup :
    (m entries : Dict Bytes) (k : String)
    → lookup k (update_entries same_bytes m entries) ≡ last_or entries k (lookup k m)
unfolding update_entries
update_entries-lookup m [] k = refl
update_entries-lookup m ((key, val) ∷ entries) k =
    update_entries-lookup (update_entry same_bytes m key val) entries k
    ∙ ap (last_or entries k) (update_entry-lookup m key k val)

-- What the pools of the content with the name of a pool say of a capacity, the last one first.
abbrev pub reported : List ContentPool → String → String → Option Bytes → Option Bytes
reported [] name k old = old
reported (pool ∷ rest) name k old =
    reported rest name k (if name == pool.name then last_or pool.capacities k old else old)

update_named-lookup :
    (pools : List ContentPool) (p : StoragePool) (k : String)
    → is_dtree_storage p.storage ≡ false
    → lookup k (update_named pools p).capacities ≡ reported pools p.name k (lookup k p.capacities)
unfolding update_named update_capacities
update_named-lookup [] p k d = refl
update_named-lookup (pool ∷ rest) p k d = elim (Bool-cases (p.name == pool.name)) [
  | inl e ↦
      rw (e, d, update_named)
        (update_named-lookup rest
            (record p { capacities = update_entries same_bytes p.capacities pool.capacities }) k d
          ∙ ap (reported rest p.name k) (update_entries-lookup p.capacities pool.capacities k))
  | inr e ↦ rw (e, update_named) (update_named-lookup rest p k d)
]

update_named_dtree :
    (pools : List ContentPool) (p : StoragePool)
    → is_dtree_storage p.storage ≡ true
    → update_named pools p ≡ p
unfolding update_named update_capacities
update_named_dtree [] p d = refl
update_named_dtree (pool ∷ rest) p d = elim (Bool-cases (p.name == pool.name)) [
  | inl e ↦ rw (e, d) (update_named_dtree rest p d)
  | inr e ↦ rw e (update_named_dtree rest p d)
]

-- Updating a pool, not of a dtree storage, from a content whose status reports pools gives each of its
-- capacities the last value that a reported pool of its name has for it, and keeps the capacities
-- that none of these reports.
pub update_pool_by_sbct-capacities :
    (content : Content) (status : ContentStatus) (p : StoragePool) (k : String)
    → content.status ≡ some status
    → is_empty status.pools ≡ false
    → is_dtree_storage p.storage ≡ false
    → lookup k (update_pool_by_sbct content p).capacities
      ≡ reported status.pools p.name k (lookup k p.capacities)
unfolding update_pool_by_sbct update_capabilities
update_pool_by_sbct-capacities content status p k e n d =
    rw (e, n, update_pool_by_sbct)
      (update_named-lookup status.pools
        (record p { capabilities = update_entries same_flag p.capabilities status.capabilities }) k
        d)
