-- ===== src/Version/Tests.antt =====
-- Versions that the storage reports, and three versions that are not numbers.
use Prim.Native.Nat.{lt, gt}
use e_sdk_k8s_plugin.Prelude.{◌≡◌, refl, some, [], ◌∷◌, arith}
use e_sdk_k8s_plugin.Prelude.Int.{pos}
use e_sdk_k8s_plugin.Strconv.{codes, parse_int}
use e_sdk_k8s_plugin.Version.{
  split_dots, strings_compare, compare_segments, compare_segment_value, compare_loop,
  compare_versions,
}
use e_sdk_k8s_plugin.Version.Order.{lex, compare_versions-lex}
use e_sdk_k8s_plugin.Version.Numbers.{dotted, compare_versions-dotted}

newer : compare_versions (codes "6.1.10") (codes "6.1.9") ≡ some gt
unfolding compare_versions compare_loop compare_segment_value compare_segments split_dots parse_int
newer = refl

longer : compare_versions (codes "6.1") (codes "6.1.0") ≡ some lt
unfolding compare_versions compare_loop compare_segment_value compare_segments split_dots parse_int
longer = refl

-- A segment that is no number makes the comparison go round in a circle: 2 < 10 < 1a < 2.
circle :
    (compare_versions (codes "2") (codes "10") ≡ some lt)
    × (compare_versions (codes "10") (codes "1a") ≡ some lt)
    × (compare_versions (codes "1a") (codes "2") ≡ some lt)
unfolding compare_versions compare_loop compare_segment_value compare_segments split_dots parse_int
    strings_compare
circle = (refl, refl, refl)

compare_versions-lex_example :
    compare_versions (codes "6.1.10") (codes "6.1.9")
    ≡ some (lex (split_dots (codes "6.1.10")) (split_dots (codes "6.1.9")))
compare_versions-lex_example = compare_versions-lex (codes "6.1.10") (codes "6.1.9")

compare_versions-dotted_example :
    compare_versions (dotted (pos 6) (pos 10 ∷ [])) (dotted (pos 6) (pos 9 ∷ pos 1 ∷ [])) ≡ some gt
compare_versions-dotted_example =
    compare_versions-dotted (pos 6) (pos 6) (pos 10 ∷ []) (pos 9 ∷ pos 1 ∷ [])
      (omega arith, (omega arith, tt)) (omega arith, (omega arith, (omega arith, tt)))
