-- ===== src/Modify/Classes/Store.antt =====
-- What the Kubernetes API documents of storage classes: a name holds at most one object, creating
-- never overwrites, and a call that fails for another reason may or may not have taken effect.
use e_sdk_k8s_plugin.Prelude.{
  Bool, true, false, Option, none, some, String, ◌==◌, ◌≡◌, ◌≢◌, ◌⊎◌, if◌then◌else◌, refl, inl, inr,
  ap, ◌∙◌, arith, eq_iff, Bool-cases,
}
use e_sdk_k8s_plugin.Prelude.Dict.{Dict}
use e_sdk_k8s_plugin.Prelude.Result.{Result, ok, err}
use e_sdk_k8s_plugin.Modify.Model.{
  Api, StorageClass, Fault, not_found, already_exists, nil_pointer, other,
}
use e_sdk_k8s_plugin.Modify.Classes.{is_not_found, is_already_exists}

-- The parameters of a storage class that exists under a name.
abbrev pub Classes : Type 0
Classes = String → Option (Option (Dict String))

-- The classes that `create` and `delete` leave.
abbrev pub created : Classes → StorageClass → Classes
created classes c n = if c.name == n then some c.parameters else classes n

abbrev pub deleted : Classes → String → Classes
deleted classes m n = if m == n then none else classes n

abbrev pub Same : Classes → Classes → Type 0
Same xs ys = (n : String) → xs n ≡ ys n

abbrev pub Read : Classes → String → Classes → Result Fault StorageClass → Type 0
Read before n after (ok c) = Same after before × (before n ≡ some c.parameters) × (c.name ≡ n)
Read before n after (err not_found) = Same after before × (before n ≡ none)
Read before n after (err _) = Same after before

abbrev pub Create : Classes → StorageClass → Classes → Result Fault StorageClass → Type 0
Create before c after (ok _) = Same after (created before c) × (before c.name ≡ none)
Create before c after (err already_exists) = Same after before × (before c.name ≢ none)
Create before c after (err _) =
    Same after before ⊎ (Same after (created before c) × (before c.name ≡ none))

abbrev pub Delete : Classes → String → Classes → Result Fault (Unit {0}) → Type 0
Delete before n after (ok _) = Same after (deleted before n)
Delete before n after (err not_found) = Same after before × (before n ≡ none)
Delete before n after (err _) = Same after before ⊎ Same after (deleted before n)

pub record ClassLaws {W : Type 0} (api : Api W) (classes : W → Classes) : Type 0 where
  pub read :
      (n : String) (w : W) → Read (classes w) n (classes (api.class_of n w).0) (api.class_of n w).1
  pub create :
      (c : StorageClass) (w : W)
      → Create (classes w) c (classes (api.create_class c w).0) (api.create_class c w).1
  pub delete :
      (n : String) (w : W)
      → Delete (classes w) n (classes (api.delete_class n w).0) (api.delete_class n w).1

-- The call succeeded or failed in a way that is let pass.
abbrev pub passed : {A : Type 0} → (Fault → Bool) → Result Fault A → Bool
passed passes (ok _) = true
passed passes (err e) = passes e

module _ (before after : Classes) where
  created_kept :
      (c : StorageClass) (n : String) (p : Option (Dict String))
      → before c.name ≡ none
      → before n ≡ some p
      → created before c n ≡ some p
  created_kept c n p free h = elim (Bool-cases (c.name == n)) [
    | inl t ↦ absurd (cc (ap before ((eq_iff c.name n).0 t)))
    | inr f ↦ rw f h
  ]

  created_here : (c : StorageClass) → created before c c.name ≡ some c.parameters
  created_here c = ground (arith, eq_iff c.name c.name)

  deleted_here : (m : String) → deleted before m m ≡ none
  deleted_here m = ground (arith, eq_iff m m)

  -- Creating a class leaves every class that is there.
  pub create_kept :
      (c : StorageClass) (r : Result Fault StorageClass) (n : String) (p : Option (Dict String))
      → Create before c after r
      → before n ≡ some p
      → after n ≡ some p
  create_kept c (ok _) n p law h = law.0 n ∙ created_kept c n p law.1 h
  create_kept c (err already_exists) n p law h = law.0 n ∙ h
  create_kept c (err not_found) n p (inl s) h = s n ∙ h
  create_kept c (err not_found) n p (inr s) h = s.0 n ∙ created_kept c n p s.1 h
  create_kept c (err nil_pointer) n p (inl s) h = s n ∙ h
  create_kept c (err nil_pointer) n p (inr s) h = s.0 n ∙ created_kept c n p s.1 h
  create_kept c (err (other _)) n p (inl s) h = s n ∙ h
  create_kept c (err (other _)) n p (inr s) h = s.0 n ∙ created_kept c n p s.1 h

  -- A class that was created, or was there with the same parameters, is there.
  pub create_made :
      (c : StorageClass) (r : Result Fault StorageClass)
      → passed is_already_exists r ≡ true
      → Create before c after r
      → (before c.name ≡ none) ⊎ (before c.name ≡ some c.parameters)
      → after c.name ≡ some c.parameters
  create_made c (ok _) t law b = law.0 c.name ∙ created_here c
  create_made c (err already_exists) t law (inl b) = absurd (law.1 b)
  create_made c (err already_exists) t law (inr b) = law.0 c.name ∙ b
  create_made c (err not_found) t law b = cc
  create_made c (err nil_pointer) t law b = cc
  create_made c (err (other _)) t law b = cc

  -- After the deletion of another class, a class is as it was.
  pub delete_kept :
      (m : String) (r : Result Fault (Unit {0})) (n : String)
      → Delete before m after r
      → (m == n) ≡ false
      → after n ≡ before n
  delete_kept m (ok _) n law f = law n ∙ rw f
  delete_kept m (err not_found) n law f = law.0 n
  delete_kept m (err already_exists) n (inl s) f = s n
  delete_kept m (err already_exists) n (inr s) f = s n ∙ rw f
  delete_kept m (err nil_pointer) n (inl s) f = s n
  delete_kept m (err nil_pointer) n (inr s) f = s n ∙ rw f
  delete_kept m (err (other _)) n (inl s) f = s n
  delete_kept m (err (other _)) n (inr s) f = s n ∙ rw f

  -- After a deletion that succeeds or finds nothing, the class is gone.
  pub delete_done :
      (m : String) (r : Result Fault (Unit {0}))
      → passed is_not_found r ≡ true
      → Delete before m after r
      → after m ≡ none
  delete_done m (ok _) t law = law m ∙ deleted_here m
  delete_done m (err not_found) t law = law.0 m ∙ law.1
  delete_done m (err already_exists) t law = cc
  delete_done m (err nil_pointer) t law = cc
  delete_done m (err (other _)) t law = cc

  -- A class that is not there is not made by reading, by deleting, or by creating another.
  pub create_absent :
      (c : StorageClass) (r : Result Fault StorageClass) (n : String)
      → Create before c after r
      → (c.name == n) ≡ false
      → before n ≡ none
      → after n ≡ none
  create_absent c (ok _) n law f h = law.0 n ∙ rw f h
  create_absent c (err already_exists) n law f h = law.0 n ∙ h
  create_absent c (err not_found) n (inl s) f h = s n ∙ h
  create_absent c (err not_found) n (inr s) f h = s.0 n ∙ rw f h
  create_absent c (err nil_pointer) n (inl s) f h = s n ∙ h
  create_absent c (err nil_pointer) n (inr s) f h = s.0 n ∙ rw f h
  create_absent c (err (other _)) n (inl s) f h = s n ∙ h
  create_absent c (err (other _)) n (inr s) f h = s.0 n ∙ rw f h

  deleted_absent : (m n : String) → before n ≡ none → deleted before m n ≡ none
  deleted_absent m n h = ground arith

  pub delete_absent :
      (m : String) (r : Result Fault (Unit {0})) (n : String)
      → Delete before m after r
      → before n ≡ none
      → after n ≡ none
  delete_absent m (ok _) n law h = law n ∙ deleted_absent m n h
  delete_absent m (err not_found) n law h = law.0 n ∙ h
  delete_absent m (err already_exists) n (inl s) h = s n ∙ h
  delete_absent m (err already_exists) n (inr s) h = s n ∙ deleted_absent m n h
  delete_absent m (err nil_pointer) n (inl s) h = s n ∙ h
  delete_absent m (err nil_pointer) n (inr s) h = s n ∙ deleted_absent m n h
  delete_absent m (err (other _)) n (inl s) h = s n ∙ h
  delete_absent m (err (other _)) n (inr s) h = s n ∙ deleted_absent m n h

  pub Read-Same :
      (n : String) (r : Result Fault StorageClass) → Read before n after r → Same after before
  Read-Same n (ok _) law = law.0
  Read-Same n (err not_found) law = law.0
  Read-Same n (err already_exists) law = law
  Read-Same n (err nil_pointer) law = law
  Read-Same n (err (other _)) law = law

  -- Reading a class that is there gives it or fails for another reason.
  pub Read-found :
      (n : String) (r : Result Fault StorageClass) (p : Option (Dict String))
      → Read before n after r
      → before n ≡ some p
      → ((c : StorageClass) × (r ≡ ok c) × (c.name ≡ n) × (c.parameters ≡ p))
        ⊎ ((e : Fault) × (r ≡ err e) × (is_not_found e ≡ false))
  Read-found n (ok c) p law h = inl (c, refl, law.2, cc)
  Read-found n (err not_found) p law h = absurd (cc law.1)
  Read-found n (err already_exists) p law h = inr (_, refl, refl)
  Read-found n (err nil_pointer) p law h = inr (_, refl, refl)
  Read-found n (err (other _)) p law h = inr (_, refl, refl)

  -- Reading a class that is not there fails.
  pub Read-missing :
      (n : String) (r : Result Fault StorageClass)
      → Read before n after r
      → before n ≡ none
      → (e : Fault) × (r ≡ err e)
  Read-missing n (ok c) law h = absurd (cc law.1)
  Read-missing n (err e) law h = (e, refl)

  -- What a read returns stands under the name that was asked for.
  pub Read-name :
      (n : String) (r : Result Fault StorageClass) (c : StorageClass)
      → Read before n after r
      → r ≡ ok c
      → (c.name == n) ≡ true
  Read-name n (ok d) c law e = ground (arith, eq_iff c.name n, law.2)
  Read-name n (err d) c law e = cc
