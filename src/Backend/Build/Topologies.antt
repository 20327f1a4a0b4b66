-- ===== src/Backend/Build/Topologies.antt =====
-- The topologies that a protocol adds to a backend, as the topology filter reads them.
use package.text.Mathlib.TextPositions.{starts_with-append}
use e_sdk_k8s_plugin.Prelude.{
  true, false, some, List, [], ◌∷◌, ◌++◌, String, ◌==◌, ◌⊎◌, ◌≡◌, refl, ap, sym, subst, ◌∙◌, arith,
  eq_iff, In, head, tail, map, Bool-cases, inl, inr,
}
use e_sdk_k8s_plugin.Prelude.Dict.{Dict, lookup, insert, lookup-insert}
use e_sdk_k8s_plugin.Prelude.Result.{Result, ok}
use e_sdk_k8s_plugin.Backend.Model.{Backend, text}
use e_sdk_k8s_plugin.Backend.Topology.{
  is_protocol, is_topology_supported_by_backend, protocol_topology_prefix,
}
use e_sdk_k8s_plugin.Backend.Topology.Support.{Supports, is_topology_supported_by_backend_iff}
use e_sdk_k8s_plugin.Backend.Build.{
  BuildError, protocol_key, protocol_topologies, add_protocol_topology, field_at,
}

-- A topology that asks for no protocol.
abbrev pub IsPlain : Dict String → Type 0
IsPlain t = (k v : String) → In (k, v) t → is_protocol (k, v) ≡ false

protocol_key-is_protocol : (p v : String) → is_protocol (protocol_key p, v) ≡ true
protocol_key-is_protocol p v = starts_with-append protocol_topology_prefix p

In-insert : (key v : String) (m : Dict String) → In (key, v) (insert key v m)
unfolding insert
In-insert key v [] = head refl
In-insert key v ((j, w) ∷ m) = elim (Bool-cases (j == key)) [
  | inl e ↦ rw e (head refl)
  | inr e ↦ rw e (tail (In-insert key v m))
]

In-map :
    (f : Dict String → Dict String) (t : Dict String) (ts : List (Dict String))
    → In t ts
    → In (f t) (map f ts)
In-map f t [] m = elim m [ ]
In-map f t (u ∷ ts) (head e) = head (ap f e)
In-map f t (u ∷ ts) (tail m) = tail (In-map f t ts m)

In-append_left : (t : Dict String) (ts us : List (Dict String)) → In t ts → In t (ts ++ us)
In-append_left t [] us m = elim m [ ]
In-append_left t (u ∷ ts) us (head e) = head e
In-append_left t (u ∷ ts) us (tail m) = tail (In-append_left t ts us m)

In-append_right : (t : Dict String) (ts us : List (Dict String)) → In t us → In t (ts ++ us)
In-append_right t [] us m = m
In-append_right t (u ∷ ts) us m = tail (In-append_right t ts us m)

In-cons :
    (k v j u : String) (t : Dict String)
    → In (k, v) ((j, u) ∷ t)
    → ((k ≡ j) × (v ≡ u)) ⊎ In (k, v) t
In-cons k v j u t (head e) = inl (ap (λ z. z.0) e, ap (λ z. z.1) e)
In-cons k v j u t (tail m) = inr m

module _ (p driver : String) (t : Dict String) (plain : IsPlain t) where
  plain_key : (k v : String) → In (k, v) t → (protocol_key p == k) ≡ false
  plain_key k v m = elim (Bool-cases (protocol_key p == k)) [
    | inl e ↦
        let same = (eq_iff (protocol_key p) k).0 e in
        let yes = ap (λ z. is_protocol (z, v)) (sym same) ∙ protocol_key-is_protocol p v in
        absurd (cc (plain k v m, yes))
    | inr e ↦ e
  ]

  Supports-insert :
      (s : Dict String)
      → Supports t s
      → Supports ((protocol_key p, driver) ∷ t) (insert (protocol_key p) driver s)
  Supports-insert s h = record {
    plain = λ k v m np. elim (In-cons k v (protocol_key p) driver t m) [
      | inl (e, f) ↦ absurd (cc (np, ap (λ z. is_protocol (z, v)) e ∙ protocol_key-is_protocol p v))
      | inr i ↦ lookup-insert (protocol_key p) k driver s ∙ rw (plain_key k v i) (h.plain k v i np)
    ];
    protocol = λ k v m q. (
      protocol_key p,
      driver,
      In-insert (protocol_key p) driver s,
      protocol_key-is_protocol p driver,
      found,
    );
  }
    where
      found : lookup (protocol_key p) ((protocol_key p, driver) ∷ t) ≡ some driver
      found = unfold lookup in ground (arith, eq_iff (protocol_key p) (protocol_key p))

-- If a backend supports a topology that asks for no protocol, then with its configured protocol added it
-- supports that topology together with the protocol.
pub add_protocol_topology-supports :
    (driver : String) (b b' : Backend) (p : String) (t : Dict String)
    → field_at "protocol" b.parameters ≡ some (text p)
    → IsPlain t
    → is_topology_supported_by_backend b.supported_topologies t ≡ true
    → add_protocol_topology driver b ≡ ok b'
    → is_topology_supported_by_backend b'.supported_topologies ((protocol_key p, driver) ∷ t) ≡ true
unfolding add_protocol_topology protocol_topologies
add_protocol_topology-supports driver b b' p t f plain s a =
    let (u, m, h) = (is_topology_supported_by_backend_iff b.supported_topologies t).0 s in
    let key = protocol_key p in
    let u' = insert key driver u in
    let combos = map (insert key driver) b.supported_topologies in
    let topologies = b.supported_topologies ++ combos ++ ((key, driver) ∷ []) ∷ [] in
    let eq : b'.supported_topologies ≡ topologies =
      ap (λ z. z.supported_topologies) (ok-built (rw (f, add_protocol_topology) at a)) in
    (is_topology_supported_by_backend_iff b'.supported_topologies ((key, driver) ∷ t)).1 (
      u',
      subst (In u') (sym eq) (
          In-append_left u' (b.supported_topologies ++ combos) _ (
            In-append_right u' b.supported_topologies combos
              (In-map (insert key driver) u b.supported_topologies m))),
      Supports-insert p driver t plain u h,
    )
  where
    ok-built : {x y : Backend} → ◌≡◌ {A = Result BuildError Backend} (ok x) (ok y) → y ≡ x
    ok-built e = cc
