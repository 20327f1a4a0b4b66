-- ===== src/Strconv/Tests.antt =====
-- Texts that Go's documentation of `strconv` names.
use Prim.Native.Nat.{◌^◌, ◌-◌}
use e_sdk_k8s_plugin.Prelude.{◌≡◌, refl, none, some, false}
use e_sdk_k8s_plugin.Prelude.Int.{pos, negsuc}
use e_sdk_k8s_plugin.Strconv.{
  codes, parse_int, parse_int_with_default, format_int, parse_bool, str_to_bool,
}

smallest : parse_int (codes "-9223372036854775808") ≡ some (negsuc (2 ^ 63 - 1))
unfolding parse_int
smallest = refl

too_large : parse_int (codes "9223372036854775808") ≡ none
unfolding parse_int
too_large = refl

no_number : parse_int (codes "12GiB") ≡ none
unfolding parse_int
no_number = refl

printed : format_int (negsuc 1023) ≡ codes "-1024"
unfolding format_int
printed = refl

yes_is_no_bool : parse_bool "yes" ≡ none
unfolding parse_bool
yes_is_no_bool = refl

yes_is_false : str_to_bool "yes" ≡ false
unfolding str_to_bool
yes_is_false = refl

default_taken : parse_int_with_default (codes "12GiB") (pos 7) ≡ pos 7
unfolding parse_int parse_int_with_default
default_taken = refl
