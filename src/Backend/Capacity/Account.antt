-- ===== src/Backend/Capacity/Account.antt =====
-- The free capacity of a pool after a thick volume has been placed on it.
use e_sdk_k8s_plugin.Prelude.{
  ℕ, Option, none, some, [], String, ◌≡◌, ◌≢◌, refl, ap, sym, subst, ◌∙◌, arith, eq_iff,
  Option-cases, inl, inr,
}
use e_sdk_k8s_plugin.Prelude.Int.{ℤ, pos, ◌-ℤ◌, ◌≤ℤ◌, wrap, wrap_lem, wrap-IsInt64, IsInt64}
use e_sdk_k8s_plugin.Prelude.Dict.{Dict, insert, lookup-insert, get_or}
use e_sdk_k8s_plugin.Strconv.{Bytes, parse_int, parse_int_with_default, format_int}
use e_sdk_k8s_plugin.Strconv.RoundTrip.{parse_int_with_default-format_int, parse_int-IsInt64}
use e_sdk_k8s_plugin.Backend.Model.{StoragePool, World, Parameters, text_param}
use e_sdk_k8s_plugin.Backend.Capacity.{free_capacity, update_select_pool}
use e_sdk_k8s_plugin.Backend.Capacity.Weight.{free}

get_or-insert {ℓ} : {V : Type ℓ} (k : String) (v d : V) (m : Dict V) → get_or (insert k v m) k d ≡ v
get_or-insert k v d m = ground (arith, lookup-insert k k v m, eq_iff k k)

-- What is written as the free capacity is what is read.
pub free_capacity-insert :
    (pool : StoragePool) (z : ℤ)
    → free_capacity
        (record pool { capacities = insert "FreeCapacity" (format_int (wrap z)) pool.capacities })
      ≡ wrap z
unfolding free_capacity
free_capacity-insert pool z =
    ap (λ s. parse_int_with_default s (pos 0))
      (get_or-insert "FreeCapacity" (format_int (wrap z)) [] pool.capacities)
    ∙ parse_int_with_default-format_int (wrap z) (pos 0) (wrap-IsInt64 z)

with_default-IsInt64 : (s : Bytes) → IsInt64 (parse_int_with_default s (pos 0))
unfolding parse_int_with_default
with_default-IsInt64 s = elim (Option-cases (parse_int s)) [
  | inl e ↦ rw (e, parse_int_with_default) (omega arith)
  | inr (z, e) ↦ rw (e, parse_int_with_default) (parse_int-IsInt64 s z e)
]

pub free_capacity-IsInt64 : (pool : StoragePool) → IsInt64 (free_capacity pool)
unfolding free_capacity
free_capacity-IsInt64 pool = with_default-IsInt64 _

-- The difference does not leave the range of an int64.
sub-IsInt64 : (a b : ℤ) → IsInt64 a → pos 0 ≤ℤ b → b ≤ℤ a → IsInt64 (a -ℤ b)
unfolding ◌-ℤ◌
sub-IsInt64 a b h nonneg le = ground arith

sub_nonneg : (a b : ℤ) → b ≤ℤ a → pos 0 ≤ℤ (a -ℤ b)
unfolding ◌-ℤ◌
sub_nonneg a b le = ground arith

update_same :
    (request_size : ℤ) (parameters : Parameters) (p : ℕ) (w : World)
    → text_param parameters "allocType" ≡ "thick"
    → (update_select_pool request_size parameters (some p) w).pool_at p ≡ record (w.pool_at p) {
      capacities =
          insert "FreeCapacity"
            (format_int (wrap (free w p -ℤ request_size)))
            (w.pool_at p).capacities;
    }
unfolding update_select_pool
update_same request_size parameters p w thick =
    ground (arith, eq_iff (text_param parameters "allocType") "thick")

pub update_other :
    (request_size : ℤ) (parameters : Parameters) (p q : ℕ) (w : World)
    → q ≢ p
    → (update_select_pool request_size parameters (some p) w).pool_at q ≡ w.pool_at q
unfolding update_select_pool
update_other request_size parameters p q w ne = ground arith

-- With any other allocation type nothing is written.
pub update_thin :
    (request_size : ℤ) (parameters : Parameters) (o : Option ℕ) (w : World)
    → text_param parameters "allocType" ≢ "thick"
    → update_select_pool request_size parameters o w ≡ w
unfolding update_select_pool
update_thin request_size parameters none w thin = refl
update_thin request_size parameters (some p) w thin =
    ground (arith, eq_iff (text_param parameters "allocType") "thick")

-- Placing a thick volume whose size is at least 0 and at most the free capacity of the pool lowers that
-- capacity by exactly the size, without wrapping and not below 0, and leaves every other pool alone.
pub update_select_pool_thick :
    (request_size : ℤ) (parameters : Parameters) (p : ℕ) (w : World)
    → text_param parameters "allocType" ≡ "thick"
    → pos 0 ≤ℤ request_size
    → request_size ≤ℤ free w p
    → let w' = update_select_pool request_size parameters (some p) w in
      (free w' p ≡ free w p -ℤ request_size)
      × (pos 0 ≤ℤ free w' p)
      × ((q : ℕ) → q ≢ p → w'.pool_at q ≡ w.pool_at q)
update_select_pool_thick request_size parameters p w thick nonneg le =
    let exact : free (update_select_pool request_size parameters (some p) w) p
        ≡ free w p -ℤ request_size =
      ap free_capacity (update_same request_size parameters p w thick)
      ∙ free_capacity-insert (w.pool_at p) (free w p -ℤ request_size)
      ∙ wrap_lem (free w p -ℤ request_size)
          (sub-IsInt64 (free w p) request_size (free_capacity-IsInt64 (w.pool_at p)) nonneg le) in
    (
      exact,
      subst (λ z. pos 0 ≤ℤ z) (sym exact) (sub_nonneg (free w p) request_size le),
      λ q ne. update_other request_size parameters p q w ne,
    )
