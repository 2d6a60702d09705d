-- ===== src/Utility/Digits.antt =====
-- Numerals in a base of src/utility.ts, and what parseInt of the language reads in them.
use node_celery_ts.Prelude.{
  ℕ, zero, suc, ◌+◌, ◌*◌, ◌/◌, ◌%◌, ◌≤◌, ◌<◌, ltb, ◌≡◌, inl, inr, refl, ap, ap₂, ◌∙◌, true, false,
  ◌&&◌, not, ◌∷◌, arith, if◌then◌else◌, Bool-cases,
}
use node_celery_ts.Text.{Text, is_space, all_of}
use node_celery_ts.Text.Laws.{is_visible, if-then, if-else}
use node_celery_ts.Utility.{Radix, base, digit_value, is_digit_of, parse_digits}

-- The digit of a value below 16.
abbrev pub digit : ℕ → ℕ
digit d = if ltb d 10 then d + b'0' else d + 87

-- The digits of `n` before those of `acc`; `n` as fuel is enough.
abbrev pub digits : ℕ → ℕ → ℕ → Text → Text
digits r zero n acc = digit n ∷ acc
digits r (suc f) n acc = if ltb n r then digit n ∷ acc else digits r f (n / r) (digit (n % r) ∷ acc)

pub value-digit : (d : ℕ) → d < 16 → digit_value (digit d) ≡ d
unfolding digit_value
value-digit d h = ground arith

pub is_digit_of-digit : (r : Radix) (d : ℕ) → d < base r → is_digit_of r (digit d) ≡ true
unfolding is_digit_of
is_digit_of-digit Radix.binary d h = ground arith
is_digit_of-digit Radix.octal d h = ground arith
is_digit_of-digit Radix.decimal d h = ground arith
is_digit_of-digit Radix.hexadecimal d h = ground arith

pub digit-range : (r : Radix) (c : ℕ) → is_digit_of r c ≡ true → (48 ≤ c) × (c ≤ 102)
unfolding is_digit_of
digit-range Radix.binary c h = ground arith
digit-range Radix.octal c h = ground arith
digit-range Radix.decimal c h = ground arith
digit-range Radix.hexadecimal c h = ground arith

pub visible-range : (c : ℕ) → 33 ≤ c → c ≤ 126 → is_visible c ≡ true
unfolding is_space
visible-range c h k = ground arith

pub visible-digit : (r : Radix) (c : ℕ) → is_digit_of r c ≡ true → is_visible c ≡ true
visible-digit r c h =
    visible-range c (omega (arith, digit-range r c h)) (omega (arith, digit-range r c h))

pub base-le : (r : Radix) → base r ≤ 16
base-le Radix.binary = omega arith
base-le Radix.octal = omega arith
base-le Radix.decimal = omega arith
base-le Radix.hexadecimal = omega arith

-- Reading one digit.
pub parse_digits-digit :
    (r d : ℕ) (acc : Text) (m : ℕ)
    → d < r
    → r ≤ 16
    → parse_digits r (digit d ∷ acc) m ≡ parse_digits r acc (m * r + d)
parse_digits-digit r d acc m h b = ground (arith, value-digit d (omega arith))

pub base-ge : (r : Radix) → 2 ≤ base r
base-ge Radix.binary = omega arith
base-ge Radix.octal = omega arith
base-ge Radix.decimal = omega arith
base-ge Radix.hexadecimal = omega arith

pub div-mod : (r : Radix) (n : ℕ) → (n / base r) * base r + n % base r ≡ n
div-mod Radix.binary n = omega arith
div-mod Radix.octal n = omega arith
div-mod Radix.decimal n = omega arith
div-mod Radix.hexadecimal n = omega arith

pub mod-lt : (r : Radix) (n : ℕ) → n % base r < base r
mod-lt Radix.binary n = omega arith
mod-lt Radix.octal n = omega arith
mod-lt Radix.decimal n = omega arith
mod-lt Radix.hexadecimal n = omega arith

pub div-le : (r : Radix) (f n : ℕ) → n ≤ suc f → n / base r ≤ f
div-le Radix.binary f n h = omega arith
div-le Radix.octal f n h = omega arith
div-le Radix.decimal f n h = omega arith
div-le Radix.hexadecimal f n h = omega arith

pub div-pos : (r : Radix) (n : ℕ) → base r ≤ n → 1 ≤ n / base r
div-pos Radix.binary n h = omega arith
div-pos Radix.octal n h = omega arith
div-pos Radix.decimal n h = omega arith
div-pos Radix.hexadecimal n h = omega arith

pub value-last :
    (r : Radix) (n : ℕ) (acc : Text)
    → n < base r
    → parse_digits (base r) (digit n ∷ acc) 0 ≡ parse_digits (base r) acc n
value-last r n acc h =
    parse_digits-digit (base r) n acc 0 h (base-le r) ∙ ap (parse_digits (base r) acc) (omega arith)

pub value-digits :
    (r : Radix) (f n : ℕ) (acc : Text)
    → n ≤ f
    → parse_digits (base r) (digits (base r) f n acc) 0 ≡ parse_digits (base r) acc n
value-digits r zero n acc h = value-last r n acc (omega (arith, base-ge r))
value-digits r (suc f) n acc h = elim (Bool-cases (ltb n (base r))) [
  | inl b ↦
      ap (λ s. parse_digits (base r) s 0) (if-then (ltb n (base r)) _ _ b)
      ∙ value-last r n acc (ground arith)
  | inr b ↦
      ap (λ s. parse_digits (base r) s 0) (if-else (ltb n (base r)) _ _ (ap not b))
      ∙ value-digits r f (n / base r) (digit (n % base r) ∷ acc) (div-le r f n h)
      ∙ parse_digits-digit (base r) (n % base r) acc (n / base r) (mod-lt r n) (base-le r)
      ∙ ap (parse_digits (base r) acc) (div-mod r n)
]

pub all_of-digit :
    (r : Radix) (n : ℕ) (acc : Text)
    → n < base r
    → all_of (is_digit_of r) acc ≡ true
    → all_of (is_digit_of r) (digit n ∷ acc) ≡ true
all_of-digit r n acc h k = ap₂ (λ a b. a && b) (is_digit_of-digit r n h) k

pub all_of-digits :
    (r : Radix) (f n : ℕ) (acc : Text)
    → n ≤ f
    → all_of (is_digit_of r) acc ≡ true
    → all_of (is_digit_of r) (digits (base r) f n acc) ≡ true
all_of-digits r zero n acc h k = all_of-digit r n acc (omega (arith, base-ge r)) k
all_of-digits r (suc f) n acc h k = elim (Bool-cases (ltb n (base r))) [
  | inl b ↦
      ap (all_of (is_digit_of r)) (if-then (ltb n (base r)) _ _ b)
      ∙ all_of-digit r n acc (ground arith) k
  | inr b ↦
      ap (all_of (is_digit_of r)) (if-else (ltb n (base r)) _ _ (ap not b))
      ∙ all_of-digits r f (n / base r) (digit (n % base r) ∷ acc) (div-le r f n h)
          (all_of-digit r (n % base r) acc (mod-lt r n) k)
]

-- The numeral of a number starts with a digit below the base, which is 0 for the number 0 only.
abbrev pub Leads : Radix → ℕ → Text → Type 0
Leads r n s = (d : ℕ) × (t : Text) × (s ≡ digit d ∷ t) × (d < base r) × (1 ≤ n → 1 ≤ d)

pub digits-Leads : (r : Radix) (f n : ℕ) (acc : Text) → n ≤ f → Leads r n (digits (base r) f n acc)
digits-Leads r zero n acc h = (n, acc, refl, omega (arith, base-ge r), λ p. p)
digits-Leads r (suc f) n acc h = elim (Bool-cases (ltb n (base r))) [
  | inl b ↦ (n, acc, if-then (ltb n (base r)) _ _ b, ground arith, λ p. p)
  | inr b ↦ later (digits-Leads r f (n / base r) (digit (n % base r) ∷ acc) (div-le r f n h)) b
]
  where
    later :
        Leads r (n / base r) (digits (base r) f (n / base r) (digit (n % base r) ∷ acc))
        → ltb n (base r) ≡ false
        → Leads r n (digits (base r) (suc f) n acc)
    later (d, t, e, l, p) b =
        (d, t, if-else (ltb n (base r)) _ _ (ap not b) ∙ e, l, λ _. p (div-pos r n (ground arith)))
