-- ===== src/Utility/Integers.antt =====
-- parseInteger of src/utility.ts reads back what C prints: the numerals of the four bases, in
-- either case of their letters and with white space around them.
use node_celery_ts.Prelude.{
  ℕ, ◌≤◌, ◌<◌, ◌^◌, ◌==◌, ◌≡◌, inl, inr, refl, sym, ap, ap₂, ◌∙◌, true, ◌&&◌, not, Option, some, [],
  ◌∷◌, ◌++◌, arith, if◌then◌else◌, Bool-cases,
}
use node_celery_ts.Text.{Text, codes, is_space, trim, to_lower_case, all_of}
use node_celery_ts.Text.Laws.{
  and-left, and-right, is_visible, trim-padded, if-then, if-else, to_lower_case-padded,
}
use node_celery_ts.Result.{ok}
use node_celery_ts.Utility.{
  Radix, base, is_digit_of, parse_int, match_octal, match_prefixed, match_decimal, match_integer,
  get_radix, parse_integer, tag, or_else, parse_found,
}
use node_celery_ts.Utility.Digits.{
  digit, digits, visible-digit, value-digits, all_of-digits, Leads, digits-Leads,
}
use node_celery_ts.Utility.Matches.{
  parse_int-digits, parse_int-zero, match_prefixed-Leads, match_prefixed-other, skip,
  match_integer-decimal, zero_found,
}

abbrev pub print_integer : Radix → ℕ → Text
print_integer Radix.binary n = codes "0b" ++ digits 2 n n []
print_integer Radix.octal n = codes "0" ++ digits 8 n n []
print_integer Radix.decimal n = if n == 0 then codes "0" else digits 10 n n []
print_integer Radix.hexadecimal n = codes "0x" ++ digits 16 n n []

module _ (n : ℕ) where
  abbrev Found : Option (Radix × Text) → Type 0
  Found o = parse_found o ≡ ok (some n)

  found :
      (r : Radix) (o : Option Text) (s : Text) (rest : Option (Radix × Text))
      → o ≡ some s
      → parse_int s (base r) ≡ some n
      → Found (or_else (tag r o) rest)
  found r o s rest e h = ap (λ p. parse_found (or_else (tag r p) rest)) e ∙ ap ok h

  abbrev numeral : Radix → Text
  numeral r = digits (base r) n n []

  leads : (r : Radix) → Leads r n (numeral r)
  leads r = digits-Leads r n n [] (omega arith)

  all_of-numeral : (r : Radix) → all_of (is_digit_of r) (numeral r) ≡ true
  all_of-numeral r = all_of-digits r n n [] (omega arith) refl

  module _ (exact : n < 2 ^ 53) where
    prefixed-Found :
        (x : ℕ) (r : Radix) (rest : Option (Radix × Text))
        → Found (or_else (tag r (match_prefixed x r (b'0' ∷ x ∷ numeral r))) rest)
    prefixed-Found x r rest =
        found r _ _ rest (match_prefixed-Leads x r n (numeral r) (leads r) (all_of-numeral r))
          (parse_int-digits r n exact)

    binary-Found : Found (match_integer (print_integer Radix.binary n))
    unfolding match_octal is_digit_of match_prefixed
    binary-Found =
        ap parse_found (
          skip Radix.hexadecimal _ _
            (match_prefixed-other b'x' Radix.hexadecimal b'b' (numeral Radix.binary) refl))
        ∙ prefixed-Found b'b' Radix.binary
            (tag Radix.decimal (match_decimal (print_integer Radix.binary n)))

    hexadecimal-Found : Found (match_integer (print_integer Radix.hexadecimal n))
    unfolding match_octal is_digit_of
    hexadecimal-Found = prefixed-Found b'x' Radix.hexadecimal _

    octal-Found : Found (match_integer (print_integer Radix.octal n))
    unfolding match_octal
    octal-Found =
        found Radix.octal _ (b'0' ∷ numeral Radix.octal) _
          (if-then (all_of (is_digit_of Radix.octal) (numeral Radix.octal)) _ _
            (all_of-numeral Radix.octal))
          (parse_int-zero (numeral Radix.octal) n exact
            (value-digits Radix.octal n n [] (omega arith)))

    positive-Found : 1 ≤ n → Found (match_integer (numeral Radix.decimal))
    positive-Found h = from (leads Radix.decimal)
      where
        from :
            Leads Radix.decimal n (numeral Radix.decimal)
            → Found (match_integer (numeral Radix.decimal))
        from (d, t, e, l, p) =
            ap (λ s. parse_found (match_integer s)) e
            ∙ ap parse_found (
                match_integer-decimal (digit d) t (ground (arith, p h)) (ground (arith, p h))
                  (ap (all_of (is_digit_of Radix.decimal)) (sym e) ∙ all_of-numeral Radix.decimal))
            ∙ ap ok (ap (λ s. parse_int s 10) (sym e) ∙ parse_int-digits Radix.decimal n exact)

    decimal-Found : Found (match_integer (print_integer Radix.decimal n))
    decimal-Found = elim (Bool-cases (n == 0)) [
      | inl b ↦
          ap (λ s. parse_found (match_integer s)) (if-then (n == 0) _ _ b)
          ∙ zero_found
          ∙ ap (λ k. ok (some k)) (ground arith)
      | inr b ↦
          ap (λ s. parse_found (match_integer s)) (if-else (n == 0) _ _ (ap not b))
          ∙ positive-Found (ground arith)
    ]

    printed-Found : (r : Radix) → Found (match_integer (print_integer r n))
    printed-Found Radix.binary = binary-Found
    printed-Found Radix.octal = octal-Found
    printed-Found Radix.decimal = decimal-Found
    printed-Found Radix.hexadecimal = hexadecimal-Found

all_of-visible :
    (r : Radix) (s : Text) → all_of (is_digit_of r) s ≡ true → all_of is_visible s ≡ true
all_of-visible r [] h = refl
all_of-visible r (c ∷ s) h =
    ap₂ (λ a b. a && b) (visible-digit r c (and-left (is_digit_of r c) _ h))
      (all_of-visible r s (and-right (is_digit_of r c) _ h))

visible-numeral : (n : ℕ) (r : Radix) → all_of is_visible (numeral n r) ≡ true
visible-numeral n r = all_of-visible r _ (all_of-numeral n r)

visible-printed : (r : Radix) (n : ℕ) → all_of is_visible (print_integer r n) ≡ true
unfolding is_space
visible-printed Radix.binary n = visible-numeral n Radix.binary
visible-printed Radix.octal n = visible-numeral n Radix.octal
visible-printed Radix.decimal n = elim (Bool-cases (n == 0)) [
  | inl b ↦ ap (all_of is_visible) (if-then (n == 0) _ _ b)
  | inr b ↦
      ap (all_of is_visible) (if-else (n == 0) _ _ (ap not b)) ∙ visible-numeral n Radix.decimal
]
visible-printed Radix.hexadecimal n = visible-numeral n Radix.hexadecimal

-- parseInteger reads a numeral of C in base 2, 8, 10 or 16 for a number below 2 ^ 53, up to which
-- doubles are exact, as the number that it stands for, in either case of its letters and with any
-- white space before and after it.
pub parse_integer-print_integer :
    (r : Radix) (n : ℕ) (u s v : Text)
    → n < 2 ^ 53
    → all_of is_space u ≡ true
    → all_of is_space v ≡ true
    → to_lower_case s ≡ print_integer r n
    → parse_integer (u ++ (s ++ v)) ≡ ok (some n)
unfolding parse_integer get_radix
parse_integer-print_integer r n u s v exact hu hv e =
    ap (λ x. parse_found (match_integer (trim x)))
      (to_lower_case-padded u s v hu hv ∙ ap (λ x. u ++ (x ++ v)) e)
    ∙ ap (λ x. parse_found (match_integer x))
        (trim-padded u (print_integer r n) v hu (visible-printed r n) hv)
    ∙ printed-Found n exact r
