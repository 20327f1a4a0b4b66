-- ===== src/Backend/Topology/Support.antt =====
-- When a backend supports a topology.
use e_sdk_k8s_plugin.Prelude.{
  true, false, not, ◌&&◌, some, List, [], ◌∷◌, String, ◌≡◌, ◌↔◌, refl, sym, ◌∙◌, arith, eq_iff,
  keep, all, is_empty, In, In-keep, In-keep_intro, any_found, any_intro, all_at, all_intro,
  is_empty-keep-false, is_empty-keep-In, Bool-cases, inl, inr, Option-cases,
}
use e_sdk_k8s_plugin.Prelude.Dict.{Dict, lookup}
use e_sdk_k8s_plugin.Backend.Topology.{
  is_protocol, extract_protocol_topology, has_entry, check_protocol_support, is_supported_by,
  is_topology_supported_by_backend,
}

-- What the comment of `isTopologySupportedByBackend` asks of one supported topology: it has every
-- entry that is no protocol, and if protocols are asked for, it has one of them.
pub record Supports (topology supported : Dict String) : Type 0 where
  pub plain :
      (k v : String) → In (k, v) topology → is_protocol (k, v) ≡ false → lookup k supported ≡ some v
  pub protocol :
      (k v : String)
      → In (k, v) topology
      → is_protocol (k, v) ≡ true
      → (j u : String) × In (j, u) supported
        × (is_protocol (j, u) ≡ true)
        × (lookup j topology ≡ some u)

has_entry_iff :
    (m : Dict String) (k v : String) → (has_entry m (k, v) ≡ true) ↔ (lookup k m ≡ some v)
has_entry_iff m k v = elim (Option-cases (lookup k m)) [
  | inl e ↦ rw e (λ h. cc, λ h. cc)
  | inr (u, e) ↦ rw e (λ h. ground (arith, eq_iff v u), λ h. ground (arith, eq_iff v u))
]

-- The protocol entries alone have the same value at a protocol key.
lookup-keep_protocol :
    (m : Dict String) (k v : String)
    → is_protocol (k, v) ≡ true
    → lookup k (keep is_protocol m) ≡ lookup k m
unfolding lookup
lookup-keep_protocol [] k v h = refl
lookup-keep_protocol ((j, u) ∷ m) k v h = ground (arith, eq_iff j k, lookup-keep_protocol m k v h)

abbrev plain_entries : Dict String → Dict String
plain_entries = keep (λ e. not (is_protocol e))

abbrev protocol_entries : Dict String → Dict String
protocol_entries = keep is_protocol

module _ (topology supported : Dict String) where
  abbrev IsSupported : Type 0
  IsSupported =
      is_supported_by (protocol_entries topology) (plain_entries topology) supported ≡ true

  Supports-sound : IsSupported → Supports topology supported
  unfolding is_supported_by
  Supports-sound h = record {
    plain = λ k v m np. (has_entry_iff supported k v).0 (
        all_at (has_entry supported) (k, v) (plain_entries topology)
          (In-keep_intro (λ e. not (is_protocol e)) (k, v) topology m (rw np)) (ground arith));
    protocol = λ k v m p.
        let ne = is_empty-keep-In is_protocol (k, v) topology m p in
        let ((j, u), i, t) =
          any_found (λ e. is_protocol e && has_entry (protocol_entries topology) e) supported
            (unfold check_protocol_support in ground arith) in
        let q : is_protocol (j, u) ≡ true = ground arith in
        (
          j,
          u,
          i,
          q,
          sym (lookup-keep_protocol topology j u q)
              ∙ (has_entry_iff (protocol_entries topology) j u).0 (ground arith),
        );
  }

  Supports-protocols :
      Supports topology supported
      → is_empty (protocol_entries topology) ≡ false
      → check_protocol_support supported (protocol_entries topology) ≡ true
  unfolding check_protocol_support
  Supports-protocols s ne =
      let ((k, v), m, p) = is_empty-keep-false is_protocol topology ne in
      let (j, u, i, q, e) = s.protocol k v m p in
      any_intro (λ e. is_protocol e && has_entry (protocol_entries topology) e) (j, u) supported i
        (rw q (
          (has_entry_iff (protocol_entries topology) j u).1
            (lookup-keep_protocol topology j u q ∙ e)))

  Supports-rest :
      Supports topology supported → all (has_entry supported) (plain_entries topology) ≡ true
  Supports-rest s =
      all_intro (has_entry supported) (plain_entries topology)
        (λ e m. rest_entry s e (In-keep (λ e. not (is_protocol e)) e topology m))
    where
      rest_entry :
          Supports topology supported
          → (e : String × String) → In e topology × (not (is_protocol e) ≡ true)
          → has_entry supported e ≡ true
      rest_entry s (k, v) (m, np) = (has_entry_iff supported k v).1 (s.plain k v m (ground arith))

  Supports-complete : Supports topology supported → IsSupported
  Supports-complete s = elim (Bool-cases (is_empty (protocol_entries topology))) [
    | inl e ↦ unfold is_supported_by in ground (arith, Supports-rest s)
    | inr e ↦
        unfold is_supported_by in
        rw (e, Supports-rest s) (unfold is_supported_by in ground (arith, Supports-protocols s e))
  ]

-- A backend supports a topology exactly when one of its supported topologies has every entry of it
-- that is no protocol and, if the topology asks for protocols, one of these protocols.
pub is_topology_supported_by_backend_iff :
    (supported_topologies : List (Dict String)) (topology : Dict String)
    → (is_topology_supported_by_backend supported_topologies topology ≡ true)
      ↔ ((s : Dict String) × In s supported_topologies × Supports topology s)
unfolding is_topology_supported_by_backend extract_protocol_topology
is_topology_supported_by_backend_iff supported_topologies topology =
    let test = is_supported_by (protocol_entries topology) (plain_entries topology) in
    (
      λ h.
          let (s, m, t) = any_found test supported_topologies h in
          (s, m, Supports-sound topology s t),
      λ r. any_intro test r.0 supported_topologies r.1 (Supports-complete topology r.0 r.2),
    )
