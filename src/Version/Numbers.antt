-- ===== src/Version/Numbers.antt =====
-- `CompareVersions` on versions that are numbers with dots between them.
use Prim.Native.Nat.{Ordering, lt, eq, gt}
use e_sdk_k8s_plugin.Prelude.{
  ℕ, zero, suc, ◌/◌, ◌%◌, ◌+◌, true, false, ◌≡◌, refl, ap, ◌∙◌, arith, some, List, [], ◌∷◌, ◌++◌,
  eqb, ltb, if◌then◌else◌, map, All, append-nil, Bool-cases, inl, inr,
}
use e_sdk_k8s_plugin.Prelude.Int.{ℤ, pos, negsuc, ltb_ℤ, IsInt64}
use e_sdk_k8s_plugin.Strconv.{Bytes, digits, format_int}
use e_sdk_k8s_plugin.Strconv.RoundTrip.{parse_int-format_int}
use e_sdk_k8s_plugin.Version.{split_from, split_dots, compare_segments, compare_versions}
use e_sdk_k8s_plugin.Version.Order.{lex, compare_versions-lex}

abbrev NoDot : Bytes → Type 0
NoDot s = All (λ c. eqb c b'.' ≡ false) s

digits-NoDot : (fuel n : ℕ) (out : Bytes) → NoDot out → NoDot (digits fuel n out)
unfolding digits
digits-NoDot zero n out h = h
digits-NoDot (suc fuel) n out h =
    let digit : eqb (b'0' + n % 10) b'.' ≡ false = ground arith in
    elim (Bool-cases (ltb n 10)) [
      | inl t ↦ rw t (digit, h)
      | inr f ↦ rw f (digits-NoDot fuel (n / 10) _ (digit, h))
    ]

format_int-NoDot : (z : ℤ) → NoDot (format_int z)
unfolding format_int
format_int-NoDot (pos n) = digits-NoDot (suc n) n [] tt
format_int-NoDot (negsuc n) = (ground arith, digits-NoDot (suc (suc n)) (suc n) [] tt)

append_more : (s t : Bytes) (c : ℕ) → (s ++ c ∷ []) ++ t ≡ s ++ c ∷ t
append_more [] t c = refl
append_more (d ∷ s) t c = ap (λ zs. d ∷ zs) (append_more s t c)

split_last : (cur s : Bytes) → NoDot s → split_from cur s ≡ (cur ++ s) ∷ []
unfolding split_from
split_last cur [] h = ground (arith, append-nil cur)
split_last cur (c ∷ s) h =
    rw h.0 (split_last (cur ++ c ∷ []) s h.1 ∙ ap (λ z. z ∷ []) (append_more cur s c))

split_first :
    (cur s t : Bytes) → NoDot s → split_from cur (s ++ b'.' ∷ t) ≡ (cur ++ s) ∷ split_from [] t
unfolding split_from
split_first cur [] t h = ground (arith, append-nil cur)
split_first cur (c ∷ s) t h =
    rw h.0
      (split_first (cur ++ c ∷ []) s t h.1 ∙ ap (λ z. z ∷ split_from [] t) (append_more cur s c))

-- Numbers in decimal with dots between them.
abbrev pub dotted : ℤ → List ℤ → Bytes
dotted z [] = format_int z
dotted z (y ∷ ys) = format_int z ++ b'.' ∷ dotted y ys

split_dotted : (z : ℤ) (zs : List ℤ) → split_from [] (dotted z zs) ≡ map format_int (z ∷ zs)
split_dotted z [] = split_last [] (format_int z) (format_int-NoDot z)
split_dotted z (y ∷ ys) =
    split_first [] (format_int z) (dotted y ys) (format_int-NoDot z)
    ∙ ap (λ zs. format_int z ∷ zs) (split_dotted y ys)

-- The order of lists of integers: the first difference decides, and a prefix is less.
abbrev pub order : List ℤ → List ℤ → Ordering
order [] [] = eq
order [] (y ∷ ys) = lt
order (x ∷ xs) [] = gt
order (x ∷ xs) (y ∷ ys) = elim (ltb_ℤ x y) [
  | true ↦ lt
  | false ↦ elim (ltb_ℤ y x) [ true ↦ gt | false ↦ order xs ys ]
]

compare_printed :
    (x y : ℤ)
    → IsInt64 x
    → IsInt64 y
    → compare_segments (format_int x) (format_int y)
      ≡ (if ltb_ℤ y x then gt else if ltb_ℤ x y then lt else eq)
unfolding compare_segments
compare_printed x y hx hy =
    rw (parse_int-format_int x hx, parse_int-format_int y hy, compare_segments) refl

lex-order :
    (xs ys : List ℤ)
    → All IsInt64 xs
    → All IsInt64 ys
    → lex (map format_int xs) (map format_int ys) ≡ order xs ys
lex-order [] [] hx hy = refl
lex-order [] (y ∷ ys) hx hy = refl
lex-order (x ∷ xs) [] hx hy = refl
lex-order (x ∷ xs) (y ∷ ys) hx hy =
    ground (arith, compare_printed x y hx.0 hy.0, lex-order xs ys hx.1 hy.1)

-- Versions that are int64 numbers, at least one, in decimal with dots between them are compared as the lists
-- of these numbers: the first two that differ decide, whatever their number of digits, and a
-- version that ends first is less.
pub compare_versions-dotted :
    (x y : ℤ) (xs ys : List ℤ)
    → All IsInt64 (x ∷ xs)
    → All IsInt64 (y ∷ ys)
    → compare_versions (dotted x xs) (dotted y ys) ≡ some (order (x ∷ xs) (y ∷ ys))
unfolding split_dots
compare_versions-dotted x y xs ys hx hy =
    compare_versions-lex (dotted x xs) (dotted y ys)
    ∙ rw (split_dotted x xs, split_dotted y ys) (ap some (lex-order (x ∷ xs) (y ∷ ys) hx hy))
