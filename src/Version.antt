-- ===== src/Version.antt =====
-- `CompareVersions` of utils/version/version.go. A result -1, 0 or 1 is the ordering `lt`, `eq` or `gt`;
-- an index out of range panics, which is `none`.
pub mod Order
mod Numbers
mod Tests
use Prim.Native.Nat.{Ordering, lt, eq, gt, max}
use e_sdk_k8s_plugin.Prelude.{
  ℕ, zero, suc, ◌+◌, ◌++◌, Bool, true, false, ◌&&◌, Option, none, some, List, [], ◌∷◌, eqb, ltb,
  leb, length, if◌then◌else◌, get_elem?,
}
use e_sdk_k8s_plugin.Prelude.Int.{ℤ, ltb_ℤ}
use e_sdk_k8s_plugin.Strconv.{Bytes, parse_int}

-- `strings.Split(s, ".")`: the parts, of which there is always one.
pub split_from : Bytes → Bytes → List Bytes
split_from cur [] = cur ∷ []
split_from cur (c ∷ s) =
    let cut = cur ∷ split_from [] s in
    let add = split_from (cur ++ c ∷ []) s in if eqb c b'.' then cut else add

unfoldable pub split_dots : Bytes → List Bytes
unfolding split_from
split_dots s = split_from [] s

-- `strings.Compare`: the lexicographic order of bytes.
pub strings_compare : Bytes → Bytes → Ordering
strings_compare [] [] = eq
strings_compare [] (d ∷ t) = lt
strings_compare (c ∷ s) [] = gt
strings_compare (c ∷ s) (d ∷ t) =
    let rest = strings_compare s t in if ltb c d then lt else if ltb d c then gt else rest

-- The comparison of two segments that are both there.
pub compare_segments : Bytes → Bytes → Ordering
compare_segments str1 str2 = elim (parse_int str1) [
  | none ↦ strings_compare str1 str2
  | some num1 ↦ elim (parse_int str2) [
    | none ↦ strings_compare str1 str2
    | some num2 ↦ if ltb_ℤ num2 num1 then gt else if ltb_ℤ num1 num2 then lt else eq
  ]
]

-- `segments1[index], segments2[index]`
abbrev index_both : Option Bytes → Option Bytes → Option Ordering
index_both (some str1) (some str2) = some (compare_segments str1 str2)
index_both none o = none
index_both (some str1) none = none

unfoldable pub compare_segment_value : List Bytes → List Bytes → ℕ → Option Ordering
compare_segment_value segments1 segments2 index =
    if leb (length segments1) index && ltb index (length segments2)
    then some lt
    else if ltb index (length segments1) && leb (length segments2) index
    then some gt
    else index_both (get_elem? segments1 index) (get_elem? segments2 index)

-- The rounds of the loop that are left, from index `i` on.
pub compare_loop : ℕ → List Bytes → List Bytes → ℕ → Option Ordering
compare_loop zero segments1 segments2 i = some eq
compare_loop (suc n) segments1 segments2 i =
    let rest = compare_loop n segments1 segments2 (suc i) in
    elim (compare_segment_value segments1 segments2 i) [
      | none ↦ none
      | some lt ↦ some lt
      | some gt ↦ some gt
      | some eq ↦ rest
    ]

unfoldable pub compare_versions : Bytes → Bytes → Option Ordering
compare_versions v1 v2 =
    let segments1 = split_dots v1 in
    let segments2 = split_dots v2 in
    compare_loop (max (length segments1) (length segments2)) segments1 segments2 0
