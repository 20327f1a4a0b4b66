-- ===== src/Strconv.antt =====
-- What the program uses of Go's `strconv` and `strings`, and the helpers of utils/utils.go over it. A
-- text whose characters matter is the list of its bytes; the integers are 64 bits wide.
pub mod RoundTrip
mod Tests
use Prim.Native.Char.{code}
use e_sdk_k8s_plugin.Prelude.{
  ℕ, zero, suc, ◌+◌, ◌-◌, ◌*◌, ◌/◌, ◌%◌, Bool, true, false, ◌&&◌, ◌||◌, Option, none, some, List,
  [], ◌∷◌, String, ◌==◌, eqb, ltb, leb, if◌then◌else◌, ◌++◌,
}
use e_sdk_k8s_plugin.Prelude.Int.{ℤ, pos, negsuc, two_63}

abbrev pub Bytes : Type 0
Bytes = List ℕ

abbrev pub codes : String → Bytes
codes String.[] = []
codes (String.◌∷◌ c s) = code c ∷ codes s

abbrev pub is_digit : ℕ → Bool
is_digit c = leb b'0' c && leb c b'9'

-- The number that the digits spell behind `n`; `none` at a byte that is no digit.
pub digits_value : ℕ → Bytes → Option ℕ
digits_value n [] = some n
digits_value n (c ∷ s) =
    let rest = digits_value (n * 10 + (c - b'0')) s in if is_digit c then rest else none

-- `strconv.ParseUint(s, 10, 64)` but for its range, which `ParseInt` narrows.
pub parse_uint : Bytes → Option ℕ
unfolding digits_value
parse_uint [] = none
parse_uint (c ∷ s) = digits_value 0 (c ∷ s)

abbrev pub split_sign : Bytes → Bool × Bytes
split_sign [] = (false, [])
split_sign (c ∷ s) =
    if eqb c b'+' then (false, s) else if eqb c b'-' then (true, s) else (false, c ∷ s)

abbrev pub negate : ℕ → ℤ
negate zero = pos 0
negate (suc n) = negsuc n

abbrev pub in_range : Bool → Option ℕ → Option ℤ
in_range neg none = none
in_range true (some n) = if leb n two_63 then some (negate n) else none
in_range false (some n) = if ltb n two_63 then some (pos n) else none

-- `strconv.ParseInt(s, 10, 64)` and `strconv.Atoi`; `none` is an error, of syntax or of range.
unfoldable pub parse_int : Bytes → Option ℤ
unfolding parse_uint
parse_int s = let r = split_sign s in in_range r.0 (parse_uint r.1)

-- The digits of `n` before `out`; the fuel is more than `n`, and each round divides `n` by ten.
unfoldable pub digits : ℕ → ℕ → Bytes → Bytes
digits zero n out = out
digits (suc fuel) n out =
    let out' = (b'0' + n % 10) ∷ out in
    let rest = digits fuel (n / 10) out' in if ltb n 10 then out' else rest

-- `strconv.FormatInt(z, 10)`.
unfoldable pub format_int : ℤ → Bytes
unfolding digits
format_int (pos n) = digits (suc n) n []
format_int (negsuc n) = b'-' ∷ digits (suc (suc n)) (suc n) []

-- `strconv.ParseBool`; `none` is its error.
unfoldable pub parse_bool : String → Option Bool
parse_bool s =
    if s == "1" || s == "t" || s == "T" || s == "TRUE" || s == "true" || s == "True"
    then some true
    else if s == "0" || s == "f" || s == "F" || s == "FALSE" || s == "false" || s == "False"
    then some false
    else none

-- `StrToBool`.
unfoldable pub str_to_bool : String → Bool
unfolding parse_bool
str_to_bool s = elim (parse_bool s) [ none ↦ false | some b ↦ b ]

-- `ParseIntWithDefault` in base 10 with 64 bits, and `AtoiWithDefault`.
unfoldable pub parse_int_with_default : Bytes → ℤ → ℤ
parse_int_with_default s default = elim (parse_int s) [ none ↦ default | some z ↦ z ]

-- Equality of two texts as their bytes.
abbrev pub same_bytes : Bytes → Bytes → Bool
same_bytes [] [] = true
same_bytes [] (d ∷ t) = false
same_bytes (c ∷ s) [] = false
same_bytes (c ∷ s) (d ∷ t) = eqb c d && same_bytes s t
