-- ===== src/Utility.antt =====
-- src/utility.ts: integers and Booleans read from strings, the case of names, and the listener that
-- settles a promise once. The regular expression of getRadix is its four alternatives, tried in
-- their order. A number is a native number; what `parseInt` reads is rounded to a double.
pub mod Digits
pub mod Matches
pub mod Integers
pub mod Decimal
pub mod Timeouts
pub mod Names
pub mod Events
use node_celery_ts.Prelude.{
  ℕ, zero, suc, ◌+◌, ◌-◌, ◌*◌, ◌/◌, ◌%◌, ◌^◌, ◌==◌, ltb, leb, if◌then◌else◌, Bool, true, false,
  ◌&&◌, ◌||◌, List, [], ◌∷◌, Option, none, some,
}
use node_celery_ts.Text.{
  Text, codes, text_eq, is_digit, is_lower, is_upper, upper, to_lower_case, trim, all_of,
}
use node_celery_ts.Result.{Error, Result, ok, err}

-- parse_integer

pub data Radix : Type 0 where
  binary octal decimal hexadecimal : Radix

abbrev pub base : Radix → ℕ
base Radix.binary = 2
base Radix.octal = 8
base Radix.decimal = 10
base Radix.hexadecimal = 16

-- The value of a letter or digit, and a number that no base reaches for another code unit.
unfoldable pub digit_value : ℕ → ℕ
digit_value c =
    if is_digit c
    then c - b'0'
    else if is_lower c
    then c - 87
    else if is_upper c
    then c - 55
    else 36

-- The characters of `[0-7]`, `[\da-f]`, `[01]` and `\d`.
unfoldable pub is_digit_of : Radix → ℕ → Bool
is_digit_of Radix.binary c = c == b'0' || c == b'1'
is_digit_of Radix.octal c = leb b'0' c && leb c b'7'
is_digit_of Radix.decimal c = is_digit c
is_digit_of Radix.hexadecimal c = is_digit c || (leb b'a' c && leb c b'f')

-- `Number.parseInt` on a string without a sign, white space or a prefix: the digits up to the first
-- code unit that is none, and NaN, which is `none`, when there is none at all.
abbrev pub parse_digits : ℕ → Text → ℕ → ℕ
parse_digits r [] n = n
parse_digits r (c ∷ s) n =
    if ltb (digit_value c) r then parse_digits r s (n * r + digit_value c) else n

-- The least power of 2 in steps of which doubles of the size of a number lie; doubles end below
-- 2 ^ 53 * 2 ^ 971, which is enough fuel.
unfoldable pub step_of : ℕ → ℕ → ℕ → ℕ
step_of zero n step = step
step_of (suc fuel) n step =
    let rest = step_of fuel n (2 * step) in if ltb n (2 ^ 53 * step) then step else rest

-- The nearest multiple of a step, an even one if two are as near.
unfoldable pub round_even : ℕ → ℕ → ℕ
round_even n step =
    let q = n / step in
    let r = 2 * (n % step) in
    (if ltb r step then q else if ltb step r then q + 1 else q + q % 2) * step

-- The double that stands for a natural number. Infinity, for 2 ^ 1024 and more, is left out.
abbrev pub to_double : ℕ → ℕ
to_double n = if ltb n (2 ^ 53) then n else round_even n (step_of 971 n 1)

-- `Number.parseInt` of the language, without its sign, white space and prefixes.
unfoldable pub parse_int : Text → ℕ → Option ℕ
unfolding step_of round_even
parse_int [] r = none
parse_int (c ∷ s) r =
    if ltb (digit_value c) r then some (to_double (parse_digits r (c ∷ s) 0)) else none

-- `(0[0-7]*)`
unfoldable pub match_octal : Text → Option Text
match_octal [] = none
match_octal (c ∷ s) = if c == b'0' && all_of (is_digit_of Radix.octal) s then some (c ∷ s) else none

-- `0x([\da-f]+)` and `0b([01]+)`, which capture the digits.
unfoldable pub match_prefixed : ℕ → Radix → Text → Option Text
match_prefixed x r [] = none
match_prefixed x r (c ∷ []) = none
match_prefixed x r (c ∷ d ∷ []) = none
match_prefixed x r (c ∷ d ∷ e ∷ s) =
    if c == b'0' && (d == x) && all_of (is_digit_of r) (e ∷ s) then some (e ∷ s) else none

-- `([1-9][\d]*)`
unfoldable pub match_decimal : Text → Option Text
match_decimal [] = none
match_decimal (c ∷ s) =
    if (leb b'1' c && leb c b'9') && all_of (is_digit_of Radix.decimal) s
    then some (c ∷ s)
    else none

-- The first alternative that matches.
abbrev pub or_else {ℓ} : {A : Type ℓ} → Option A → Option A → Option A
or_else none o = o
or_else (some a) o = some a

abbrev pub tag : Radix → Option Text → Option (Radix × Text)
tag r none = none
tag r (some s) = some (r, s)

abbrev pub match_integer : Text → Option (Radix × Text)
match_integer s = or_else (tag Radix.octal (match_octal s)) (
    or_else (tag Radix.hexadecimal (match_prefixed b'x' Radix.hexadecimal s)) (
      or_else (tag Radix.binary (match_prefixed b'b' Radix.binary s))
        (tag Radix.decimal (match_decimal s))))

unfoldable pub get_radix : Text → Option (Radix × Text)
get_radix maybe_number = match_integer (trim (to_lower_case maybe_number))

-- NaN would be `ok none`.
abbrev pub parse_found : Option (Radix × Text) → Result (Option ℕ)
parse_found none = err Error.parse_error
parse_found (some (r, s)) = ok (parse_int s (base r))

unfoldable pub parse_integer : Text → Result (Option ℕ)
parse_integer s = parse_found (get_radix s)

-- parse_boolean

abbrev pub one_of : List Text → Text → Bool
one_of [] s = false
one_of (t ∷ ts) s = text_eq s t || one_of ts s

abbrev pub true_words : List Text
true_words = codes "true" ∷ codes "1" ∷ codes "on" ∷ codes "yes" ∷ []

abbrev pub false_words : List Text
false_words = codes "false" ∷ codes "0" ∷ codes "off" ∷ codes "no" ∷ []

unfoldable pub parse_boolean : Text → Result Bool
parse_boolean s =
    let word = trim (to_lower_case s) in
    if one_of true_words word
    then ok true
    else if one_of false_words word
    then ok false
    else err Error.parse_error

-- to_camel_case

-- `replace(/_([a-z])/, ...)`: without the flag `g`, the first match only.
unfoldable pub to_camel_case : Text → Text
to_camel_case [] = []
to_camel_case (c ∷ []) = c ∷ []
to_camel_case (c ∷ d ∷ s) =
    let rest = to_camel_case (d ∷ s) in if c == b'_' && is_lower d then upper d ∷ s else c ∷ rest

-- filter_map_event

-- The promise of `filterMapEvent`, whether its listener is attached, and `resolved`.
pub record Listener {ℓ} (U : Type ℓ) : Type ℓ where
  pub attached : Bool
  pub resolved : Bool
  pub promise : Option U

abbrev pub filter_map_event {ℓ} : {U : Type ℓ} → Listener U
filter_map_event = record { attached = true; resolved = false; promise = none }

-- A promise that has settled stays as it is.
abbrev pub settle_once {ℓ} : {U : Type ℓ} → Option U → U → Option U
settle_once none u = some u
settle_once (some v) u = some v

module _ {ℓ κ} {V : Type ℓ} {U : Type κ} (filter_map : V → Option U) where
  abbrev pub accept : Listener U → Option U → Listener U
  accept l none = l
  accept l (some u) = record {
    attached = false;
    resolved = true;
    promise = settle_once l.promise u;
  }

  unfoldable pub on_event : Listener U → V → Listener U
  on_event l values = if l.resolved then l else accept l (filter_map values)

  -- The emitter calls the listeners that are attached.
  unfoldable pub emit : Listener U → V → Listener U
  emit l values = if l.attached then on_event l values else l

  abbrev pub emit_all : Listener U → List V → Listener U
  emit_all l [] = l
  emit_all l (v ∷ vs) = emit_all (emit l v) vs
