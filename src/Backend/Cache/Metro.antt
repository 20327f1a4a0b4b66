-- ===== src/Backend/Cache/Metro.antt =====
-- The pairing of metro backends in the cache.
use e_sdk_k8s_plugin.Prelude.{
  ℕ, ◌≤◌, ◌<◌, true, false, some, List, [], ◌∷◌, String, eqb, eqb_iff, ◌⊎◌, ◌≡◌, ◌≢◌, refl, ap, sym,
  subst, ◌∙◌, arith, eq_iff, Bool-cases, inl, inr,
}
use e_sdk_k8s_plugin.Prelude.Dict.{lookup, insert, lookup-insert}
use e_sdk_k8s_plugin.Backend.Model.{Backend, World}
use e_sdk_k8s_plugin.Backend.Cache.{
  is_metro_pair, waits_for_metro, pair_metro, metro_inner, allocate, metro_outer,
  update_cache_backend_metro, list,
}

-- The object at `m` is the metro partner of `b`: a backend of the same storage and another name, and
-- each of the two is configured with the name of the other.
pub record IsPartner (w : World) (b : Backend) (m : ℕ) : Type 0 where
  pub allocated : m < w.next_backend
  pub forth : (w.backend_at m).name ≡ b.metro_backend_name
  pub back : (w.backend_at m).metro_backend_name ≡ b.name
  pub storage : (w.backend_at m).storage ≡ b.storage
  pub apart : (w.backend_at m).name ≢ b.name

-- Every cached backend stands under its own name, and its metro backend, if it has one, is its partner.
pub record IsConsistent (w : World) : Type 0 where
  pub keyed : (k : String) (b : Backend) → lookup k w.cache ≡ some b → b.name ≡ k
  pub paired :
      (k : String) (b : Backend) (m : ℕ)
      → lookup k w.cache ≡ some b
      → b.metro_backend ≡ some m
      → IsPartner w b m

-- Memory where the objects so far have kept what a pairing depends on.
pub record Extends (w w' : World) : Type 0 where
  pub more : w.next_backend ≤ w'.next_backend
  pub name : (a : ℕ) → a < w.next_backend → (w'.backend_at a).name ≡ (w.backend_at a).name
  pub metro :
      (a : ℕ)
      → a < w.next_backend
      → (w'.backend_at a).metro_backend_name ≡ (w.backend_at a).metro_backend_name
  pub storage : (a : ℕ) → a < w.next_backend → (w'.backend_at a).storage ≡ (w.backend_at a).storage

IsPartner-Extends :
    (w w' : World) (b : Backend) (m : ℕ) → Extends w w' → IsPartner w b m → IsPartner w' b m
IsPartner-Extends w w' b m x p = record {
  allocated = omega (arith, x.more, p.allocated);
  forth = x.name m p.allocated ∙ p.forth;
  back = x.metro m p.allocated ∙ p.back;
  storage = x.storage m p.allocated ∙ p.storage;
  apart = λ e. p.apart (sym (x.name m p.allocated) ∙ e);
}

abbrev Paired : Backend → Backend → Type 0
Paired i j =
    (i.name ≢ j.name)
    × (i.storage ≡ j.storage)
    × (i.metro_backend_name ≡ j.name)
    × (j.metro_backend_name ≡ i.name)

is_metro_pair-Paired : (i j : Backend) → is_metro_pair i j ≡ true → Paired i j
unfolding is_metro_pair
is_metro_pair-Paired i j h = (
  λ e. ground (arith, eq_iff i.name j.name),
  ground (arith, eq_iff i.storage j.storage),
  ground (arith, eq_iff i.metro_backend_name j.name),
  ground (arith, eq_iff j.metro_backend_name i.name),
)

module _ (at : ℕ) (j : Backend) (w : World) (lt : at < w.next_backend) where
  pair_metro-Extends : Extends w (pair_metro at j w)
  unfolding pair_metro
  pair_metro-Extends = record {
    more = omega arith;
    name = λ a l. ground (arith, eqb_iff a at);
    metro = λ a l. ground (arith, eqb_iff a at);
    storage = λ a l. ground (arith, eqb_iff a at);
  }

  abbrev first : Backend
  first = record (w.backend_at at) { metro_backend = some w.next_backend }

  abbrev second : Backend
  second = record j { metro_backend = some at }

  first-IsPartner :
      is_metro_pair (w.backend_at at) j ≡ true → IsPartner (pair_metro at j w) first w.next_backend
  unfolding pair_metro
  first-IsPartner h =
      let (ne, st, fo, ba) = is_metro_pair-Paired (w.backend_at at) j h in
      let e : eqb w.next_backend at ≡ false = ground (arith, eqb_iff w.next_backend at) in
      let d : eqb w.next_backend w.next_backend ≡ true =
        ground (arith, eqb_iff w.next_backend w.next_backend) in
      record {
        allocated = omega arith;
        forth = rw (e, d) (sym fo);
        back = rw (e, d) ba;
        storage = rw (e, d) (sym st);
        apart = λ q. ne (sym (rw (e, d) at q));
      }

  second-IsPartner :
      is_metro_pair (w.backend_at at) j ≡ true → IsPartner (pair_metro at j w) second at
  unfolding pair_metro
  second-IsPartner h =
      let (ne, st, fo, ba) = is_metro_pair-Paired (w.backend_at at) j h in
      let e : eqb at at ≡ true = ground (arith, eqb_iff at at) in
      record {
        allocated = omega arith;
        forth = rw e (sym ba);
        back = rw e fo;
        storage = rw e st;
        apart = λ q. ne (rw e at q);
      }

  cache_cases :
      (k : String) (b : Backend)
      → lookup k (pair_metro at j w).cache ≡ some b
      → ((k ≡ j.name) × (b ≡ second))
        ⊎ (((k ≡ (w.backend_at at).name) × (b ≡ first)) ⊎ (lookup k w.cache ≡ some b))
  unfolding pair_metro
  cache_cases k b h = ground (
    arith,
    lookup-insert j.name k second (insert (w.backend_at at).name first w.cache),
    lookup-insert (w.backend_at at).name k first w.cache,
    eq_iff j.name k,
    eq_iff (w.backend_at at).name k,
  )

  pair_metro-IsConsistent :
      is_metro_pair (w.backend_at at) j ≡ true → IsConsistent w → IsConsistent (pair_metro at j w)
  pair_metro-IsConsistent h c = record {
    keyed = λ k b e. elim (cache_cases k b e) [
      | inl (q, r) ↦ ap (λ z. z.name) r ∙ sym q
      | inr (inl (q, r)) ↦ ap (λ z. z.name) r ∙ sym q
      | inr (inr f) ↦ c.keyed k b f
    ];
    paired = λ k b m e g. elim (cache_cases k b e) [
      | inl (q, r) ↦ partner second at b m r refl g (second-IsPartner h)
      | inr (inl (q, r)) ↦ partner first w.next_backend b m r refl g (first-IsPartner h)
      | inr (inr f) ↦
          IsPartner-Extends w (pair_metro at j w) b m pair_metro-Extends (c.paired k b m f g)
    ];
  }
    where
      partner :
          (x : Backend) (n : ℕ) (b : Backend) (m : ℕ)
          → b ≡ x
          → x.metro_backend ≡ some n
          → b.metro_backend ≡ some m
          → IsPartner (pair_metro at j w) x n
          → IsPartner (pair_metro at j w) b m
      partner x n b m r s g p =
          subst (λ y. IsPartner (pair_metro at j w) y m) (sym r)
            (subst (λ z. IsPartner (pair_metro at j w) x z)
              (same (sym s ∙ sym (ap (λ z. z.metro_backend) r) ∙ g)) p)
        where
          same : some n ≡ some m → n ≡ m
          same e = cc

metro_inner-IsConsistent :
    (at : ℕ) (js : List Backend) (w : World)
    → at < w.next_backend
    → IsConsistent w
    → IsConsistent (metro_inner at js w)
unfolding metro_inner
metro_inner-IsConsistent at [] w lt c = c
metro_inner-IsConsistent at (j ∷ js) w lt c =
    elim (Bool-cases (is_metro_pair (w.backend_at at) j)) [
      | inl h ↦ rw h (
          metro_inner-IsConsistent at js (pair_metro at j w)
            (omega (arith, (pair_metro-Extends at j w lt).more))
            (pair_metro-IsConsistent at j w lt h c))
      | inr h ↦ rw h (metro_inner-IsConsistent at js w lt c)
    ]

allocate-IsConsistent : (i : Backend) (w : World) → IsConsistent w → IsConsistent (allocate i w)
unfolding allocate
allocate-IsConsistent i w c = record {
  keyed = c.keyed;
  paired = λ k b m e g. IsPartner-Extends w (allocate i w) b m extends (c.paired k b m e g);
}
  where
    extends : Extends w (allocate i w)
    extends = record {
      more = omega arith;
      name = λ a l. ground (arith, eqb_iff a w.next_backend);
      metro = λ a l. ground (arith, eqb_iff a w.next_backend);
      storage = λ a l. ground (arith, eqb_iff a w.next_backend);
    }

metro_outer-IsConsistent :
    (backends is : List Backend) (w : World)
    → IsConsistent w
    → IsConsistent (metro_outer backends is w)
unfolding metro_outer
metro_outer-IsConsistent backends [] w c = c
metro_outer-IsConsistent backends (i ∷ is) w c = elim (Bool-cases (waits_for_metro i)) [
  | inl h ↦ rw h (
      metro_outer-IsConsistent backends is (metro_inner w.next_backend backends (allocate i w)) (
        metro_inner-IsConsistent w.next_backend backends (allocate i w)
          (unfold allocate in omega arith) (allocate-IsConsistent i w c)))
  | inr h ↦ rw h (metro_outer-IsConsistent backends is w c)
]

pub update_cache_backend_metro-IsConsistent :
    (w : World) → IsConsistent w → IsConsistent (update_cache_backend_metro w)
unfolding update_cache_backend_metro
update_cache_backend_metro-IsConsistent w c = metro_outer-IsConsistent (list w) (list w) w c
