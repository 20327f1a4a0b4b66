-- ===== src/Strconv/RoundTrip.antt =====
-- An int64 is read back from its decimal print.
use e_sdk_k8s_plugin.Prelude.{
  ℕ, zero, suc, ◌+◌, ◌/◌, ◌%◌, ◌<◌, ◌≤◌, Bool, true, false, ◌≡◌, refl, arith, Option, none, some,
  [], ◌∷◌, ltb, Bool-cases, inl, inr, ◌∙◌,
}
use e_sdk_k8s_plugin.Prelude.Int.{ℤ, pos, negsuc, IsInt64}
use e_sdk_k8s_plugin.Strconv.{
  Bytes, digits_value, parse_uint, parse_int, digits, format_int, parse_int_with_default, in_range,
  split_sign,
}

digits_value-digits :
    (fuel n : ℕ) (out : Bytes) → n < fuel → digits_value 0 (digits fuel n out) ≡ digits_value n out
unfolding digits digits_value
digits_value-digits zero n out h = absurd (omega arith)
digits_value-digits (suc fuel) n out h =
    ground (arith, digits_value-digits fuel (n / 10) ((b'0' + n % 10) ∷ out))

-- A text that starts with a digit has no sign and is not empty.
abbrev StartsWithDigit : Bytes → Type 0
StartsWithDigit [] = ⊥
StartsWithDigit (c ∷ s) = (b'0' ≤ c) × (c ≤ b'9')

digits-StartsWithDigit : (fuel n : ℕ) (out : Bytes) → StartsWithDigit (digits (suc fuel) n out)
unfolding digits
digits-StartsWithDigit zero n out = ground arith
digits-StartsWithDigit (suc fuel) n out = elim (Bool-cases (ltb n 10)) [
  | inl e ↦ rw e (omega arith)
  | inr e ↦ rw e (digits-StartsWithDigit fuel (n / 10) ((b'0' + n % 10) ∷ out))
]

parse_uint-digits : (s : Bytes) → StartsWithDigit s → parse_uint s ≡ digits_value 0 s
unfolding parse_uint
parse_uint-digits [] h = absurd h
parse_uint-digits (c ∷ s) h = refl

split_sign-digits : (s : Bytes) → StartsWithDigit s → split_sign s ≡ (false, s)
split_sign-digits [] h = absurd h
split_sign-digits (c ∷ s) h = ground arith

uint_of_digits : (n : ℕ) → parse_uint (digits (suc n) n []) ≡ some n
uint_of_digits n =
    parse_uint-digits _ (digits-StartsWithDigit n n [])
    ∙ digits_value-digits (suc n) n [] (omega arith)
    ∙ (unfold digits_value in refl)

-- What `FormatInt` writes of an int64, `ParseInt` reads.
pub parse_int-format_int : (z : ℤ) → IsInt64 z → parse_int (format_int z) ≡ some z
unfolding parse_int format_int
parse_int-format_int (pos n) h =
    rw (split_sign-digits _ (digits-StartsWithDigit n n []), uint_of_digits n) (ground arith)
parse_int-format_int (negsuc n) h = rw (uint_of_digits (suc n)) (ground arith)

-- The decimal text of any int64 is read back as that number by `ParseIntWithDefault`, whatever the default is.
pub parse_int_with_default-format_int :
    (z d : ℤ) → IsInt64 z → parse_int_with_default (format_int z) d ≡ z
unfolding parse_int_with_default
parse_int_with_default-format_int z d h = rw (parse_int-format_int z h, parse_int_with_default)

in_range-IsInt64 : (neg : Bool) (o : Option ℕ) (z : ℤ) → in_range neg o ≡ some z → IsInt64 z
in_range-IsInt64 neg none z h = cc
in_range-IsInt64 true (some zero) z h = ground arith
in_range-IsInt64 true (some (suc n)) z h = ground arith
in_range-IsInt64 false (some n) z h = ground arith

-- What `ParseInt` accepts is in the range of an int64.
pub parse_int-IsInt64 : (s : Bytes) (z : ℤ) → parse_int s ≡ some z → IsInt64 z
unfolding parse_int
parse_int-IsInt64 s z h = let r = split_sign s in in_range-IsInt64 r.0 (parse_uint r.1) z h
