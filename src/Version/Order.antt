-- ===== src/Version/Order.antt =====
-- `CompareVersions` compares the lists of segments from left to right, never panics and is
-- antisymmetric.
use Prim.Native.Nat.{Ordering, lt, eq, gt, max}
use e_sdk_k8s_plugin.Prelude.{ℕ, zero, suc, ◌≡◌, refl, ap, ◌∙◌, arith, some, List, [], ◌∷◌, length}
use e_sdk_k8s_plugin.Strconv.{Bytes}
use e_sdk_k8s_plugin.Version.{
  split_dots, strings_compare, compare_segments, compare_segment_value, compare_loop,
  compare_versions,
}

-- The first segments that differ decide; a version that ends first is less.
abbrev pub lex : List Bytes → List Bytes → Ordering
lex [] [] = eq
lex [] (y ∷ ys) = lt
lex (x ∷ xs) [] = gt
lex (x ∷ xs) (y ∷ ys) = elim (compare_segments x y) [ lt ↦ lt | gt ↦ gt | eq ↦ lex xs ys ]

compare_segment_value_shift :
    (x y : Bytes) (xs ys : List Bytes) (i : ℕ)
    → compare_segment_value (x ∷ xs) (y ∷ ys) (suc i) ≡ compare_segment_value xs ys i
unfolding compare_segment_value
compare_segment_value_shift x y xs ys i = ground arith

compare_loop_shift :
    (n : ℕ) (x y : Bytes) (xs ys : List Bytes) (i : ℕ)
    → compare_loop n (x ∷ xs) (y ∷ ys) (suc i) ≡ compare_loop n xs ys i
unfolding compare_loop
compare_loop_shift zero x y xs ys i = refl
compare_loop_shift (suc n) x y xs ys i =
    ground (arith, compare_segment_value_shift x y xs ys i, compare_loop_shift n x y xs ys (suc i))

compare_segment_value_first :
    (x y : Bytes) (xs ys : List Bytes)
    → compare_segment_value (x ∷ xs) (y ∷ ys) 0 ≡ some (compare_segments x y)
unfolding compare_segment_value
compare_segment_value_first x y xs ys = ground arith

max-suc : (a b : ℕ) → max (suc a) (suc b) ≡ suc (max a b)
max-suc a b = omega arith

compare_loop_step :
    (n : ℕ) (x y : Bytes) (xs ys : List Bytes)
    → compare_loop (suc n) (x ∷ xs) (y ∷ ys) 0
      ≡ (elim (compare_segments x y) [ lt ↦ some lt | gt ↦ some gt | eq ↦ compare_loop n xs ys 0 ])
unfolding compare_loop
compare_loop_step n x y xs ys =
    ground (arith, compare_segment_value_first x y xs ys, compare_loop_shift n x y xs ys 0)

compare_loop_left :
    (n : ℕ) (y : Bytes) (ys : List Bytes) → compare_loop (suc n) [] (y ∷ ys) 0 ≡ some lt
unfolding compare_loop compare_segment_value
compare_loop_left n y ys = ground arith

compare_loop_right :
    (n : ℕ) (x : Bytes) (xs : List Bytes) → compare_loop (suc n) (x ∷ xs) [] 0 ≡ some gt
unfolding compare_loop compare_segment_value
compare_loop_right n x xs = ground arith

max_left : (a : ℕ) → max 0 (suc a) ≡ suc a
max_left a = omega arith

max_right : (a : ℕ) → max (suc a) 0 ≡ suc a
max_right a = omega arith

compare_loop-lex :
    (xs ys : List Bytes) → compare_loop (max (length xs) (length ys)) xs ys 0 ≡ some (lex xs ys)
compare_loop-lex [] [] = unfold compare_loop in refl
compare_loop-lex [] (y ∷ ys) = rw (max_left (length ys)) (compare_loop_left _ y ys)
compare_loop-lex (x ∷ xs) [] = rw (max_right (length xs)) (compare_loop_right _ x xs)
compare_loop-lex (x ∷ xs) (y ∷ ys) = rw (max-suc (length xs) (length ys)) (
    ground
      (arith, compare_loop_step (max (length xs) (length ys)) x y xs ys, compare_loop-lex xs ys))

-- The loop never indexes out of range, and its result is the comparison from left to right in which
-- the first differing segments decide and a version that is a prefix of the other is less.
pub compare_versions-lex :
    (v1 v2 : Bytes) → compare_versions v1 v2 ≡ some (lex (split_dots v1) (split_dots v2))
unfolding compare_versions
compare_versions-lex v1 v2 = compare_loop-lex (split_dots v1) (split_dots v2)

abbrev pub swap : Ordering → Ordering
swap lt = gt
swap eq = eq
swap gt = lt

strings_compare-swap : (s t : Bytes) → strings_compare t s ≡ swap (strings_compare s t)
unfolding strings_compare
strings_compare-swap [] [] = refl
strings_compare-swap [] (d ∷ t) = refl
strings_compare-swap (c ∷ s) [] = refl
strings_compare-swap (c ∷ s) (d ∷ t) = ground (arith, strings_compare-swap s t)

compare_segments-swap : (x y : Bytes) → compare_segments y x ≡ swap (compare_segments x y)
unfolding compare_segments
compare_segments-swap x y = ground (arith, strings_compare-swap x y)

lex-swap : (xs ys : List Bytes) → lex ys xs ≡ swap (lex xs ys)
lex-swap [] [] = refl
lex-swap [] (y ∷ ys) = refl
lex-swap (x ∷ xs) [] = refl
lex-swap (x ∷ xs) (y ∷ ys) = ground (arith, compare_segments-swap x y, lex-swap xs ys)

-- Comparing in the other order gives the opposite result, so every pair of versions is compared the
-- same way from both sides, and a version is equal to itself.
compare_versions-swap :
    (v1 v2 : Bytes)
    → (o : Ordering) × (compare_versions v1 v2 ≡ some o) × (compare_versions v2 v1 ≡ some (swap o))
compare_versions-swap v1 v2 = (
  lex (split_dots v1) (split_dots v2),
  compare_versions-lex v1 v2,
  compare_versions-lex v2 v1 ∙ ap some (lex-swap (split_dots v1) (split_dots v2)),
)
