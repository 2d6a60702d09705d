-- ===== src/Utility/Matches.antt =====
-- The alternatives of the regular expression of getRadix in src/utility.ts, on numerals.
use node_celery_ts.Prelude.{
  ℕ, ◌<◌, ◌^◌, ◌==◌, ltb, leb, ◌≡◌, refl, sym, ap, ap₂, ◌∙◌, true, false, ◌&&◌, Option, none, some,
  [], ◌∷◌, arith, if◌then◌else◌, ==_refl,
}
use node_celery_ts.Text.{Text, all_of}
use node_celery_ts.Text.Laws.{and-right, if-then}
use node_celery_ts.Result.{ok}
use node_celery_ts.Utility.{
  Radix, base, digit_value, is_digit_of, parse_digits, parse_int, match_octal, match_prefixed,
  match_decimal, match_integer, tag, to_double, or_else, parse_found,
}
use node_celery_ts.Utility.Digits.{
  digit, digits, value-digit, base-le, value-digits, Leads, digits-Leads,
}

pub parse_int-Leads :
    (r : Radix) (n : ℕ) (s : Text)
    → Leads r n s
    → parse_int s (base r) ≡ some (to_double (parse_digits (base r) s 0))
unfolding parse_int
parse_int-Leads r n s (d, t, e, l, p) =
    ap (λ x. parse_int x (base r)) e
    ∙ if-then (ltb (digit_value (digit d)) (base r)) _ _ (ground (arith, value-digit d, base-le r))
    ∙ ap (λ x. some (to_double (parse_digits (base r) x 0))) (sym e)

to_double-exact : (n : ℕ) → n < 2 ^ 53 → to_double n ≡ n
to_double-exact n h = if-then (ltb n (2 ^ 53)) _ _ (ground arith)

-- The digits of a number that a double has exactly are read as the number.
pub parse_int-digits :
    (r : Radix) (n : ℕ) → n < 2 ^ 53 → parse_int (digits (base r) n n []) (base r) ≡ some n
parse_int-digits r n exact =
    parse_int-Leads r n _ (digits-Leads r n n [] (omega arith))
    ∙ ap (λ k. some (to_double k)) (value-digits r n n [] (omega arith))
    ∙ ap some (to_double-exact n exact)

pub parse_int-zero :
    (s : Text) (n : ℕ) → n < 2 ^ 53 → parse_digits 8 s 0 ≡ n → parse_int (b'0' ∷ s) 8 ≡ some n
unfolding parse_int digit_value
parse_int-zero s n exact h = ap (λ k. some (to_double k)) h ∙ ap some (to_double-exact n exact)

module _ (x : ℕ) (r : Radix) where
  pub match_prefixed-Leads :
      (n : ℕ) (s : Text)
      → Leads r n s
      → all_of (is_digit_of r) s ≡ true
      → match_prefixed x r (b'0' ∷ x ∷ s) ≡ some s
  unfolding match_prefixed
  match_prefixed-Leads n s (d, t, e, l, p) h =
      ap (λ y. match_prefixed x r (b'0' ∷ x ∷ y)) e
      ∙ if-then ((x == x) && all_of (is_digit_of r) (digit d ∷ t)) _ _
          (ap₂ (λ a b. a && b) (==_refl x) (ap (all_of (is_digit_of r)) (sym e) ∙ h))
      ∙ ap some (sym e)

-- What does not start with the prefix asked for does not match.
pub match_prefixed-other :
    (x : ℕ) (r : Radix) (y : ℕ) (s : Text)
    → (y == x) ≡ false
    → match_prefixed x r (b'0' ∷ y ∷ s) ≡ none
unfolding match_prefixed
match_prefixed-other x r y [] h = refl
match_prefixed-other x r y (e ∷ s) h =
    ap (λ b. if b && all_of (is_digit_of r) (e ∷ s) then some (e ∷ s) else none) h

pub match_prefixed-none :
    (x : ℕ) (r : Radix) (c : ℕ) (s : Text) → (c == b'0') ≡ false → match_prefixed x r (c ∷ s) ≡ none
unfolding match_prefixed
match_prefixed-none x r c [] h = refl
match_prefixed-none x r c (d ∷ []) h = refl
match_prefixed-none x r c (d ∷ e ∷ s) h =
    ap (λ b. if b && (d == x) && all_of (is_digit_of r) (e ∷ s) then some (e ∷ s) else none) h

pub match_octal-none : (c : ℕ) (s : Text) → (c == b'0') ≡ false → match_octal (c ∷ s) ≡ none
unfolding match_octal
match_octal-none c s h =
    ap (λ b. if b && all_of (is_digit_of Radix.octal) s then some (c ∷ s) else none) h

pub skip :
    (r : Radix) (o : Option Text) (rest : Option (Radix × Text))
    → o ≡ none
    → or_else (tag r o) rest ≡ rest
skip r o rest h = ap (λ p. or_else (tag r p) rest) h

pub match_integer-decimal :
    (c : ℕ) (s : Text)
    → (c == b'0') ≡ false
    → (leb b'1' c && leb c b'9') ≡ true
    → all_of (is_digit_of Radix.decimal) (c ∷ s) ≡ true
    → match_integer (c ∷ s) ≡ some (Radix.decimal, c ∷ s)
unfolding match_decimal
match_integer-decimal c s z h k =
    skip Radix.octal _ _ (match_octal-none c s z)
    ∙ skip Radix.hexadecimal _ _ (match_prefixed-none b'x' Radix.hexadecimal c s z)
    ∙ skip Radix.binary _ _ (match_prefixed-none b'b' Radix.binary c s z)
    ∙ ap (tag Radix.decimal) (
        if-then ((leb b'1' c && leb c b'9') && all_of (is_digit_of Radix.decimal) s) _ _
          (ap₂ (λ a b. a && b) h (and-right (is_digit_of Radix.decimal c) _ k)))

pub zero_found : parse_found (match_integer (b'0' ∷ [])) ≡ ok (some 0)
unfolding match_octal parse_int digit_value
zero_found = refl
