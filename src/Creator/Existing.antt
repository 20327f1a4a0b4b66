-- ===== src/Creator/Existing.antt =====
-- What the failure of a creation does to a filesystem that was there before.
use e_sdk_k8s_plugin.Prelude.{
  ℕ, zero, suc, Bool, true, false, Option, none, some, List, [], ◌∷◌, String, get_elem?, All, ◌≡◌,
  refl, ap, sym, ◌∙◌, inl, inr, Option-cases, subst,
}
use e_sdk_k8s_plugin.Prelude.Int.{ℤ}
use e_sdk_k8s_plugin.Prelude.Dict.{Dict}
use e_sdk_k8s_plugin.Prelude.Result.{ok, err, Result-cases}
use e_sdk_k8s_plugin.Prelude.Io.{Io}
use e_sdk_k8s_plugin.Flow.Transaction.{
  Transaction, TransactionStep, new_transaction, then as add_step, commit, commit_loop, rollback,
  rollback_loop, undo, execute,
}
use e_sdk_k8s_plugin.Creator.{
  FilesystemCreator, Nas, Shared, id_of, create_filesystem, get_pool_id, creation, create_resources,
  shared, assign, filesystem_exec, filesystem_cancel, nfs_steps_if, qos_steps_if, create_nfs_share,
  create_fs_qos,
}

module _ {W : Type 0} where
  -- A step that leaves the ID of the filesystem.
  abbrev KeepsId : TransactionStep (Shared W) String → Type 0
  KeepsId step =
      ((s : Shared W) → (execute step.exec s).0.fs_id ≡ s.fs_id)
      × ((s : Shared W) → (undo (some step) s).fs_id ≡ s.fs_id)

  commit_loop-fs_id :
      (steps : List (TransactionStep (Shared W) String)) (at : ℕ) (s : Shared W)
      → All KeepsId steps
      → (commit_loop steps at s).world.fs_id ≡ s.fs_id
  unfolding commit_loop
  commit_loop-fs_id [] at s k = refl
  commit_loop-fs_id (step ∷ steps) at s (k, ks) = elim (Option-cases (execute step.exec s).1) [
    | inl e ↦ rw (e, commit_loop) (commit_loop-fs_id steps (suc at) _ ks ∙ k.0 s)
    | inr (x, e) ↦ rw (e, commit_loop) (k.0 s)
  ]

  undo_at :
      (steps : List (TransactionStep (Shared W) String)) (i : ℕ) (s : Shared W)
      → All KeepsId steps
      → (undo (get_elem? steps i) s).fs_id ≡ s.fs_id
  undo_at [] i s k = refl
  undo_at (step ∷ steps) zero s k = k.0.1 s
  undo_at (step ∷ steps) (suc i) s k = undo_at steps i s k.1

  -- The last cancel is that of the first step, and sees the ID that the others left.
  rollback_loop-first :
      (first : TransactionStep (Shared W) String) (steps : List (TransactionStep (Shared W) String))
      (i : ℕ) (s : Shared W)
      → All KeepsId steps
      → (v : Shared W) × (rollback_loop (suc i) (first ∷ steps) s ≡ undo (some first) v)
        × (v.fs_id ≡ s.fs_id)
  unfolding rollback_loop
  rollback_loop-first first steps zero s k = (s, refl, refl)
  rollback_loop-first first steps (suc i) s k =
      let (v, e, h) = rollback_loop-first first steps i (undo (get_elem? steps i) s) k in
      (v, e, h ∙ undo_at steps i s k)

  -- The loop behind a first step counts it.
  commit_loop-at :
      (steps : List (TransactionStep (Shared W) String)) (at : ℕ) (s : Shared W)
      → (n : ℕ) × ((commit_loop steps (suc at) s).at ≡ suc n)
  unfolding commit_loop
  commit_loop-at [] at s = (at, refl)
  commit_loop-at (step ∷ steps) at s = elim (Option-cases (execute step.exec s).1) [
    | inl e ↦ rw (e, commit_loop) (commit_loop-at steps (suc at) _)
    | inr (x, e) ↦ rw (e, commit_loop) (at, refl)
  ]

module _ {W : Type 0} (cli : Nas W) (c : FilesystemCreator) where
  -- The steps behind the creation of the filesystem.
  abbrev later_steps : Bool → Option (Dict ℤ) → Bool → List (TransactionStep (Shared W) String)
  later_steps qos q nfs = (qos_steps_if cli c qos q (nfs_steps_if cli c nfs new_transaction)).steps

  abbrev first_step : TransactionStep (Shared W) String
  first_step = record {
    exec = some (filesystem_exec cli c);
    on_rollback = some (filesystem_cancel cli c);
  }

  steps_lem :
      (qos : Bool) (q : Option (Dict ℤ)) (nfs : Bool)
      → qos_steps_if cli c qos q (
          nfs_steps_if cli c nfs (
            add_step new_transaction
              (some (filesystem_exec cli c))
              (some (filesystem_cancel cli c))))
        ≡ record { step_at = 0; steps = first_step ∷ later_steps qos q nfs }
  unfolding qos_steps_if nfs_steps_if add_step new_transaction
  steps_lem false q false = refl
  steps_lem false q true = refl
  steps_lem true none false = refl
  steps_lem true none true = refl
  steps_lem true (some _) false = refl
  steps_lem true (some _) true = refl

  assign_keeps :
      (call : Io W String String) (set : String → Shared W → Shared W) (s : Shared W)
      → ((id : String) (x : Shared W) → (set id x).fs_id ≡ x.fs_id)
      → (assign cli c call set s).0.fs_id ≡ s.fs_id
  assign_keeps call set s h = elim (Result-cases (call s.world).1) [
    | inl (id, e) ↦ rw (e, assign) (h id _)
    | inr (x, e) ↦ rw (e, assign) (h "" _)
  ]

  share_keeps :
      (s : Shared W)
      → (assign cli c
          (create_nfs_share cli c s.fs_id c.v_store_id)
          (λ id s. record s { share_id = id })
          s).0.fs_id
        ≡ s.fs_id
  share_keeps s =
      assign_keeps (create_nfs_share cli c s.fs_id c.v_store_id)
        (λ id s. record s { share_id = id }) s (λ id x. refl)

  qos_keeps :
      (s : Shared W)
      → (assign cli c
          (create_fs_qos cli c s.fs_id c.v_store_id)
          (λ id s. record s { qos_id = id })
          s).0.fs_id
        ≡ s.fs_id
  qos_keeps s =
      assign_keeps (create_fs_qos cli c s.fs_id c.v_store_id) (λ id s. record s { qos_id = id }) s
        (λ id x. refl)

  later_keep : (qos : Bool) (q : Option (Dict ℤ)) (nfs : Bool) → All KeepsId (later_steps qos q nfs)
  unfolding qos_steps_if nfs_steps_if add_step new_transaction
  later_keep false q false = tt
  later_keep false q true = ((share_keeps, λ s. refl), ((λ s. refl, λ s. refl), tt))
  later_keep true none false = tt
  later_keep true none true = ((share_keeps, λ s. refl), ((λ s. refl, λ s. refl), tt))
  later_keep true (some _) false = ((qos_keeps, λ s. refl), tt)
  later_keep true (some _) true =
      ((share_keeps, λ s. refl), ((λ s. refl, λ s. refl), ((qos_keeps, λ s. refl), tt)))

  -- A rollback after a first step that succeeded ends with the cancel of that step.
  undone_first :
      (first : TransactionStep (Shared W) String) (later : List (TransactionStep (Shared W) String))
      (t : Transaction (Shared W) String) (w : Shared W)
      → t ≡ record { step_at = 0; steps = first ∷ later }
      → All KeepsId later
      → (execute first.exec w).1 ≡ none
      → (v : Shared W) × (rollback (commit t w).0 (commit t w).1 ≡ undo (some first) v)
        × (v.fs_id ≡ (execute first.exec w).0.fs_id)
  unfolding commit rollback commit_loop
  undone_first first later t w eq keep done =
      subst
        (λ t.
          (v : Shared W) × (rollback (commit t w).0 (commit t w).1 ≡ undo (some first) v)
          × (v.fs_id ≡ (execute first.exec w).0.fs_id))
        (sym eq)
        (rw (done, commit_loop, commit, rollback)
          (let w1 = (execute first.exec w).0 in
            let p = commit_loop later 1 w1 in
            let (n, a) = commit_loop-at later 0 w1 in
            let (v, e, h) = rollback_loop-first first later n p.world keep in
            (
              v,
              ap (λ i. rollback_loop i (first ∷ later) p.world) a ∙ e,
              h ∙ commit_loop-fs_id later 1 w1 keep,
            )))

  found_filesystem :
      (w : W) (pool : String) (existing : Dict String)
      → (get_pool_id cli c c.storage_pool_name w).1 ≡ ok pool
      → (cli.get_file_system_by_name c.fs_name (get_pool_id cli c c.storage_pool_name w).0).1
        ≡ ok (some existing)
      → (create_filesystem cli c w).1 ≡ ok (id_of existing)
  unfolding create_filesystem
  found_filesystem w pool existing p h = rw (p, h, create_filesystem)

  first_id :
      (w : W) (id : String)
      → (create_filesystem cli c w).1 ≡ ok id
      → (execute first_step.exec (shared cli c w)).0.fs_id ≡ id
  first_id w id made = rw (made, assign)

  -- If `createResources` finds a filesystem of its name on the array and then returns an error, then the
  -- last thing that it did is to delete that filesystem, which it had not created.
  pub create_resources-existing :
      (w : W) (pool : String) (existing : Dict String) (e : String)
      → (get_pool_id cli c c.storage_pool_name w).1 ≡ ok pool
      → (cli.get_file_system_by_name c.fs_name (get_pool_id cli c c.storage_pool_name w).0).1
        ≡ ok (some existing)
      → (create_resources cli c w).1 ≡ err e
      → (v : W) × ((create_resources cli c w).0
          ≡ (cli.delete_file_system (id_of existing) c.v_store_id v).0)
  unfolding create_resources creation
  create_resources-existing w pool existing e p h fail =
      let made = found_filesystem w pool existing p h in
      let (v, back, same) =
        undone_first first_step (later_steps c.is_create_qos c.qos c.is_create_nfs_share)
          (creation cli c) (shared cli c w) (steps_lem c.is_create_qos c.qos c.is_create_nfs_share)
          (later_keep c.is_create_qos c.qos c.is_create_nfs_share) (rw (made, assign)) in
      elim (Option-cases (commit (creation cli c) (shared cli c w)).2) [
        | inl n ↦ absurd (cc (rw (n, create_resources) at fail))
        | inr (x, n) ↦
            rw (n, create_resources)
              (
                v.world,
                ap (λ s. s.world) back
                    ∙ ap (λ id. (cli.delete_file_system id c.v_store_id v.world).0)
                        (same ∙ first_id w (id_of existing) made),
              )
      ]
