-- ===== src/Utility/Decimal.antt =====
-- The decimal numeral that a template writes for a number, as the parsers of ports and databases in
-- src/uri.ts and src/redis/uri/tcp.ts meet it.
use node_celery_ts.Prelude.{
  ℕ, zero, suc, ◌<◌, ◌^◌, ◌==◌, ◌≡◌, refl, sym, ap, ap₂, ◌∙◌, true, some, [], ◌∷◌, arith,
  append-nil,
}
use node_celery_ts.Text.{Text, is_digit, lower, to_lower_case, all_of}
use node_celery_ts.Text.Laws.{and-left, and-right, if-else}
use node_celery_ts.Result.{ok}
use node_celery_ts.Utility.{Radix, is_digit_of, parse_int, parse_integer}
use node_celery_ts.Utility.Digits.{digits, all_of-digits, Leads, digits-Leads}
use node_celery_ts.Utility.Matches.{parse_int-digits}
use node_celery_ts.Utility.Integers.{print_integer, parse_integer-print_integer}

abbrev pub decimal : ℕ → Text
decimal n = digits 10 n n []

pub parse_int-decimal : (n : ℕ) → n < 2 ^ 53 → parse_int (decimal n) 10 ≡ some n
parse_int-decimal n exact = parse_int-digits Radix.decimal n exact

pub decimal-digits : (n : ℕ) → all_of is_digit (decimal n) ≡ true
unfolding is_digit_of
decimal-digits n = all_of-digits Radix.decimal n n [] (omega arith) refl

pub decimal-Leads : (n : ℕ) → Leads Radix.decimal n (decimal n)
decimal-Leads n = digits-Leads Radix.decimal n n [] (omega arith)

lower-digit : (c : ℕ) → is_digit c ≡ true → lower c ≡ c
lower-digit c h = ground arith

to_lower_case-digits : (s : Text) → all_of is_digit s ≡ true → to_lower_case s ≡ s
to_lower_case-digits [] h = refl
to_lower_case-digits (c ∷ s) h =
    ap₂ (λ d t. d ∷ t) (lower-digit c (and-left (is_digit c) _ h))
      (to_lower_case-digits s (and-right (is_digit c) _ h))

print_integer-decimal : (n : ℕ) → print_integer Radix.decimal n ≡ decimal n
print_integer-decimal zero = refl
print_integer-decimal (suc n) = if-else (suc n == 0) _ _ (ground arith)

pub parse_integer-decimal : (n : ℕ) → n < 2 ^ 53 → parse_integer (decimal n) ≡ ok (some n)
parse_integer-decimal n exact =
    ap parse_integer (sym (append-nil (decimal n)))
    ∙ parse_integer-print_integer Radix.decimal n [] (decimal n) [] exact refl refl
        (to_lower_case-digits (decimal n) (decimal-digits n) ∙ sym (print_integer-decimal n))
