-- ===== src/Tests/Text.antt =====
-- src/utility.ts at concrete inputs.
use node_celery_ts.Prelude.{arith, ◌≡◌, refl, some, ◌++◌}
use node_celery_ts.Text.{codes, is_space}
use node_celery_ts.Result.{Error, ok, err}
use node_celery_ts.Utility.{
  Radix, digit_value, is_digit_of, parse_int, match_octal, match_prefixed, match_decimal, get_radix,
  parse_integer, to_camel_case, step_of, round_even,
}
use node_celery_ts.Utility.Integers.{parse_integer-print_integer}

-- The examples of the comment on parseInteger.
reads_octal : parse_integer (codes "0644") ≡ ok (some 420)
unfolding parse_integer get_radix is_space match_octal is_digit_of parse_int digit_value
reads_octal = refl

reads_hexadecimal : parse_integer (codes "0X2a") ≡ ok (some 42)
unfolding parse_integer get_radix is_space match_octal match_prefixed is_digit_of parse_int
    digit_value
reads_hexadecimal = refl

-- 2 ^ 53 + 1, which no double has.
reads_nearest : parse_integer (codes "9007199254740993") ≡ ok (some 9_007_199_254_740_992)
unfolding parse_integer get_radix is_space match_octal match_prefixed match_decimal is_digit_of
    parse_int digit_value step_of round_even
reads_nearest = refl

not_octal : parse_integer (codes "089") ≡ err Error.parse_error
unfolding parse_integer get_radix is_space match_octal match_prefixed match_decimal is_digit_of
not_octal = refl

second_underscore : to_camel_case (codes "a_long_name") ≡ codes "aLong_name"
unfolding to_camel_case
second_underscore = refl

parse_integer-print_integer_example :
    parse_integer (codes " " ++ (codes "0X2A" ++ codes " ")) ≡ ok (some 42)
unfolding is_space
parse_integer-print_integer_example =
    parse_integer-print_integer Radix.hexadecimal 42 (codes " ") (codes "0X2A") (codes " ")
      (omega arith) refl refl refl
