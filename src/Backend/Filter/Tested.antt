-- ===== src/Backend/Filter/Tested.antt =====
-- Each capability filter keeps the pools that pass one test, where it keeps any.
use e_sdk_k8s_plugin.Prelude.{
  ℕ, Bool, true, false, not, ◌&&◌, ◌||◌, List, [], ◌∷◌, String, ◌==◌, if◌then◌else◌, keep, is_none,
  is_empty, ◌≡◌, refl, sym, ◌∙◌, arith, Bool-cases, inl, inr, keep-true,
}
use e_sdk_k8s_plugin.Prelude.Result.{Result, ok, Result-cases}
use e_sdk_k8s_plugin.Strconv.{str_to_bool}
use e_sdk_k8s_plugin.Backend.Model.{World, Env, has_capability, SelectError}
use e_sdk_k8s_plugin.Backend.Quota.{is_storage_quota_available}
use e_sdk_k8s_plugin.Backend.Filter.{
  Filter, serves_volume_type, serves_alloc_type, serves_nfs_protocol, filter_by_backend_name,
  filter_by_storage_pool, filter_by_volume_type, filter_by_alloc_type, supports_qos, filter_by_qos,
  supports_metro, filter_by_metro, supports_replication, filter_by_replication,
  filter_by_application_type, quota_loop, filter_by_storage_quota, filter_by_support_clone,
  filter_by_nfs_protocol, primary_filter_funcs, secondary_filter_funcs,
}

abbrev pub Test : Type 0
Test = String → ℕ → Bool

-- A filter that succeeds has kept the pools that pass, and it does succeed when one passes.
pub record Agrees (f : Filter) (t : Test) : Type 0 where
  pub sound : (v : String) (ps qs : List ℕ) → f v ps ≡ ok qs → qs ≡ keep (t v) ps
  pub complete :
      (v : String) (ps : List ℕ) → is_empty (keep (t v) ps) ≡ false → f v ps ≡ ok (keep (t v) ps)

ok-injective : {A : Type 0} {a b : A} → ◌≡◌ {A = Result SelectError A} (ok a) (ok b) → b ≡ a
ok-injective h = cc

Agrees-keep :
    (f : Filter) (t : Test)
    → ((v : String) (ps : List ℕ) → f v ps ≡ ok (keep (t v) ps))
    → Agrees f t
Agrees-keep f t eq = record {
  sound = λ v ps qs h. ok-injective (sym (eq v ps) ∙ h);
  complete = λ v ps h. eq v ps;
}

-- A filter that a parameter turns off.
keep_unless :
    (c : Bool) (s : ℕ → Bool) (ps : List ℕ)
    → keep (λ p. c || s p) ps ≡ (if c then ps else keep s ps)
keep_unless true s ps = keep-true ps
keep_unless false s ps = refl

Agrees-unless :
    (f : Filter) (c : String → Bool) (s : Test)
    → ((v : String) (ps : List ℕ) → f v ps ≡ (if c v then ok ps else ok (keep (s v) ps)))
    → Agrees f (λ v p. c v || s v p)
Agrees-unless f c s eq =
    Agrees-keep f _ (λ v ps. ground (arith, eq v ps, keep_unless (c v) (s v) ps))

module _ (env : Env) (w : World) where
  abbrev pub backend_test : Test
  backend_test v p = v == "" || v == (w.pool_at p).parent

  abbrev pub pool_test : Test
  pool_test v p = v == "" || v == (w.pool_at p).name

  abbrev pub volume_type_test : Test
  volume_type_test v p = serves_volume_type v (w.pool_at p).storage

  abbrev pub alloc_type_test : Test
  alloc_type_test v p = serves_alloc_type v (w.pool_at p)

  abbrev pub qos_test : Test
  qos_test v p = v == "" || supports_qos env w v p

  abbrev pub metro_test : Test
  metro_test v p = (v == "" || not (str_to_bool v)) || supports_metro env w p

  abbrev pub replication_test : Test
  replication_test v p = (v == "" || not (str_to_bool v)) || supports_replication env w p

  abbrev pub application_test : Test
  application_test v p =
      if not (v == "")
      then has_capability (w.pool_at p).capabilities "SupportApplicationType"
      else true

  abbrev pub has_quota : String → ℕ → Bool
  has_quota v p =
      has_capability (w.pool_at p).capabilities "SupportQuota"
      && is_none (is_storage_quota_available env v)

  abbrev pub quota_test : Test
  quota_test v p = v == "" || has_quota v p

  abbrev pub clone_test : Test
  clone_test v p = v == "" || has_capability (w.pool_at p).capabilities "SupportClone"

  abbrev pub nfs_test : Test
  nfs_test v p =
      v == "" || serves_nfs_protocol v (env.is_dme_a_series (w.pool_at p).plugin) (w.pool_at p)

  backend_Agrees : Agrees (filter_by_backend_name env w) backend_test
  unfolding filter_by_backend_name
  backend_Agrees = Agrees-keep _ _ (λ v ps. refl)

  pool_Agrees : Agrees (filter_by_storage_pool env w) pool_test
  unfolding filter_by_storage_pool
  pool_Agrees = Agrees-keep _ _ (λ v ps. refl)

  volume_type_Agrees : Agrees (filter_by_volume_type env w) volume_type_test
  unfolding filter_by_volume_type
  volume_type_Agrees = Agrees-keep _ _ (λ v ps. refl)

  alloc_type_Agrees : Agrees (filter_by_alloc_type env w) alloc_type_test
  unfolding filter_by_alloc_type
  alloc_type_Agrees = Agrees-keep _ _ (λ v ps. refl)

  application_Agrees : Agrees (filter_by_application_type env w) application_test
  unfolding filter_by_application_type
  application_Agrees = Agrees-keep _ _ (λ v ps. refl)

  metro_Agrees : Agrees (filter_by_metro env w) metro_test
  unfolding filter_by_metro
  metro_Agrees = Agrees-unless _ _ _ (λ v ps. refl)

  replication_Agrees : Agrees (filter_by_replication env w) replication_test
  unfolding filter_by_replication
  replication_Agrees = Agrees-unless _ _ _ (λ v ps. refl)

  clone_Agrees : Agrees (filter_by_support_clone env w) clone_test
  unfolding filter_by_support_clone
  clone_Agrees = Agrees-unless _ _ _ (λ v ps. refl)

  nfs_Agrees : Agrees (filter_by_nfs_protocol env w) nfs_test
  unfolding filter_by_nfs_protocol
  nfs_Agrees = Agrees-unless _ _ _ (λ v ps. refl)

  qos_Agrees : Agrees (filter_by_qos env w) qos_test
  unfolding filter_by_qos
  qos_Agrees = record {
    sound = λ v ps qs h. ground (arith, keep_unless (v == "") (supports_qos env w v) ps);
    complete = λ v ps h. ground (arith, keep_unless (v == "") (supports_qos env w v) ps);
  }

  quota_loop_complete :
      (v : String) (ps : List ℕ)
      → is_none (is_storage_quota_available env v) ≡ true
      → quota_loop env w v ps ≡ ok (keep (has_quota v) ps)
  unfolding quota_loop
  quota_loop_complete v [] h = refl
  quota_loop_complete v (p ∷ ps) h = ground (arith, quota_loop_complete v ps h)

  quota_loop_sound :
      (v : String) (ps qs : List ℕ) → quota_loop env w v ps ≡ ok qs → qs ≡ keep (has_quota v) ps
  unfolding quota_loop
  quota_loop_sound v [] qs h = cc
  quota_loop_sound v (p ∷ ps) qs h = elim (Result-cases (quota_loop env w v ps)) [
    | inl (rs, e) ↦ ground (arith, e, quota_loop_sound v ps rs e)
    | inr (x, e) ↦ ground (arith, e, quota_loop_complete v ps)
  ]

  keep_no_quota :
      (v : String) (ps : List ℕ)
      → is_none (is_storage_quota_available env v) ≡ false
      → keep (has_quota v) ps ≡ []
  keep_no_quota v [] h = refl
  keep_no_quota v (p ∷ ps) h = ground (arith, keep_no_quota v ps h)

  quota_Agrees : Agrees (filter_by_storage_quota env w) quota_test
  unfolding filter_by_storage_quota
  quota_Agrees = record {
    sound = λ v ps qs h.
        ground (arith, keep_unless (v == "") (has_quota v) ps, quota_loop_sound v ps qs);
    complete = λ v ps h. elim (Bool-cases (is_none (is_storage_quota_available env v))) [
      | inl e ↦ ground (arith, keep_unless (v == "") (has_quota v) ps, quota_loop_complete v ps e)
      | inr e ↦ ground (arith, keep_unless (v == "") (has_quota v) ps, keep_no_quota v ps e)
    ];
  }

-- Filters and their tests, one against one.
pub data Tested : List (String × Filter) → List (String × Test) → Type 0 where
  none_left : Tested [] []
  tested :
      {fs : List (String × Filter)} {ts : List (String × Test)} (key : String) (f : Filter)
      (t : Test)
      → Agrees f t
      → Tested fs ts
      → Tested ((key, f) ∷ fs) ((key, t) ∷ ts)

module _ (env : Env) (w : World) where
  abbrev pub primary_tests : List (String × Test)
  primary_tests =
      ("backend", backend_test env w)
      ∷ ("pool", pool_test env w)
      ∷ ("volumeType", volume_type_test env w)
      ∷ ("allocType", alloc_type_test env w)
      ∷ ("qos", qos_test env w)
      ∷ ("hyperMetro", metro_test env w)
      ∷ ("replication", replication_test env w)
      ∷ ("applicationType", application_test env w)
      ∷ ("storageQuota", quota_test env w)
      ∷ ("sourceVolumeName", clone_test env w)
      ∷ ("sourceSnapshotName", clone_test env w)
      ∷ ("nfsProtocol", nfs_test env w)
      ∷ []

  abbrev pub secondary_tests : List (String × Test)
  secondary_tests =
      ("volumeType", volume_type_test env w)
      ∷ ("allocType", alloc_type_test env w)
      ∷ ("qos", qos_test env w)
      ∷ ("replication", replication_test env w)
      ∷ ("applicationType", application_test env w)
      ∷ []

  pub primary_Tested : Tested (primary_filter_funcs env w) primary_tests
  primary_Tested = tested _ _ _ (backend_Agrees env w) (
      tested _ _ _ (pool_Agrees env w) (
        tested _ _ _ (volume_type_Agrees env w) (
          tested _ _ _ (alloc_type_Agrees env w) (
            tested _ _ _ (qos_Agrees env w) (
              tested _ _ _ (metro_Agrees env w) (
                tested _ _ _ (replication_Agrees env w) (
                  tested _ _ _ (application_Agrees env w) (
                    tested _ _ _ (quota_Agrees env w) (
                      tested _ _ _ (clone_Agrees env w) (
                        tested _ _ _ (clone_Agrees env w)
                          (tested _ _ _ (nfs_Agrees env w) none_left)))))))))))

  pub secondary_Tested : Tested (secondary_filter_funcs env w) secondary_tests
  secondary_Tested = tested _ _ _ (volume_type_Agrees env w) (
      tested _ _ _ (alloc_type_Agrees env w) (
        tested _ _ _ (qos_Agrees env w) (
          tested _ _ _ (replication_Agrees env w)
            (tested _ _ _ (application_Agrees env w) none_left))))
