-- ===== src/Uri/Schemes.antt =====
-- getScheme of src/uri.ts on the URIs of each scheme.
use node_celery_ts.Prelude.{
  ℕ, ◌==◌, leb, length, ◌||◌, ◌≡◌, refl, ap, ap₂, ◌∙◌, Bool, true, false, ◌&&◌, not, Option, none,
  some, [], ◌∷◌, ◌++◌, arith,
}
use node_celery_ts.Text.{Text, is_digit, lower, to_lower_case, all_of}
use node_celery_ts.Text.Laws.{and-left, and-right, if-then, if-else}
use node_celery_ts.Result.{ok}
use node_celery_ts.Uri.{Scheme, schemes, scheme_text, find_scheme, known_scheme, get_scheme}
use node_celery_ts.Uri.Scan.{is_letter, is_scheme_char, scheme_rest, match_scheme}

is_scheme_char-lower : (c : ℕ) → is_scheme_char (lower c) ≡ true → is_scheme_char c ≡ true
unfolding is_scheme_char is_letter
is_scheme_char-lower c h = ground arith

is_letter-lower : (c : ℕ) → is_letter (lower c) ≡ true → is_letter c ≡ true
unfolding is_letter
is_letter-lower c h = ground arith

no_colon : (c : ℕ) → is_scheme_char c ≡ true → not (c == b':') ≡ true
unfolding is_scheme_char is_letter
no_colon c h = ground arith

all_of-lower :
    (t : Text) → all_of is_scheme_char (to_lower_case t) ≡ true → all_of is_scheme_char t ≡ true
all_of-lower [] h = refl
all_of-lower (c ∷ t) h =
    ap₂ (λ a b. a && b) (is_scheme_char-lower c (and-left (is_scheme_char (lower c)) _ h))
      (all_of-lower t (and-right (is_scheme_char (lower c)) _ h))

abbrev consed : ℕ → Option Text → Option Text
consed c none = none
consed c (some t) = some (c ∷ t)

scheme_rest-append :
    (t r : Text) → all_of is_scheme_char t ≡ true → scheme_rest (t ++ b':' ∷ r) ≡ some t
unfolding scheme_rest
scheme_rest-append [] r h = refl
scheme_rest-append (c ∷ t) r h =
    if-else (c == b':') _ _ (no_colon c (and-left (is_scheme_char c) _ h))
    ∙ if-then (is_scheme_char c) _ _ (and-left (is_scheme_char c) _ h)
    ∙ ap (consed c) (scheme_rest-append t r (and-right (is_scheme_char c) _ h))

-- A letter and then characters of a scheme.
abbrev scheme_like : Text → Bool
scheme_like [] = false
scheme_like (c ∷ t) = is_letter c && all_of is_scheme_char t

match_scheme-append :
    (t r : Text) → scheme_like (to_lower_case t) ≡ true → match_scheme (t ++ b':' ∷ r) ≡ some t
unfolding match_scheme
match_scheme-append [] r h = absurd (ground arith)
match_scheme-append (c ∷ t) r h =
    if-then (is_letter c) _ _ (is_letter-lower c (and-left (is_letter (lower c)) _ h))
    ∙ ap (consed c) (scheme_rest-append t r (all_of-lower t (and-right (is_letter (lower c)) _ h)))

scheme_text-scheme_like : (s : Scheme) → scheme_like (scheme_text s) ≡ true
unfolding is_letter is_scheme_char
scheme_text-scheme_like Scheme.amqp = refl
scheme_text-scheme_like Scheme.amqp_secure = refl
scheme_text-scheme_like Scheme.redis = refl
scheme_text-scheme_like Scheme.redis_secure = refl
scheme_text-scheme_like Scheme.redis_sentinel = refl
scheme_text-scheme_like Scheme.redis_sentinel_secure = refl
scheme_text-scheme_like Scheme.redis_socket = refl
scheme_text-scheme_like Scheme.redis_socket_secure = refl
scheme_text-scheme_like Scheme.rpc = refl
scheme_text-scheme_like Scheme.rpc_secure = refl

find_scheme-scheme_text : (s : Scheme) → find_scheme (scheme_text s) schemes ≡ ok s
unfolding schemes
find_scheme-scheme_text Scheme.amqp = refl
find_scheme-scheme_text Scheme.amqp_secure = refl
find_scheme-scheme_text Scheme.redis = refl
find_scheme-scheme_text Scheme.redis_secure = refl
find_scheme-scheme_text Scheme.redis_sentinel = refl
find_scheme-scheme_text Scheme.redis_sentinel_secure = refl
find_scheme-scheme_text Scheme.redis_socket = refl
find_scheme-scheme_text Scheme.redis_socket_secure = refl
find_scheme-scheme_text Scheme.rpc = refl
find_scheme-scheme_text Scheme.rpc_secure = refl

is_letter-scheme_char : (c : ℕ) → is_letter c ≡ true → is_scheme_char c ≡ true
unfolding is_scheme_char
is_letter-scheme_char c h = ap (λ b. b || is_digit c || (c == b'+') || (c == b'.') || (c == b'-')) h

chars_of-scheme_like :
    (t : Text)
    → scheme_like (to_lower_case t) ≡ true
    → (all_of is_scheme_char t ≡ true) × (leb 1 (length t) ≡ true)
chars_of-scheme_like [] h = absurd (ground arith)
chars_of-scheme_like (c ∷ t) h = (
  ap₂ (λ a b. a && b)
      (is_letter-scheme_char c (is_letter-lower c (and-left (is_letter (lower c)) _ h)))
      (all_of-lower t (and-right (is_letter (lower c)) _ h)),
  ground arith,
)

-- The text of a scheme, in either case, is one of characters of schemes.
pub scheme_text-chars :
    (s : Scheme) (t : Text)
    → to_lower_case t ≡ scheme_text s
    → (all_of is_scheme_char t ≡ true) × (leb 1 (length t) ≡ true)
scheme_text-chars s t e = chars_of-scheme_like t (ap scheme_like e ∙ scheme_text-scheme_like s)

-- getScheme recognizes each of the ten schemes, in either case of its letters, before a colon and
-- whatever follows it.
pub get_scheme-scheme_text :
    (s : Scheme) (t r : Text) → to_lower_case t ≡ scheme_text s → get_scheme (t ++ b':' ∷ r) ≡ ok s
unfolding get_scheme
get_scheme-scheme_text s t r e =
    ap known_scheme (match_scheme-append t r (ap scheme_like e ∙ scheme_text-scheme_like s))
    ∙ ap (λ x. find_scheme x schemes) e
    ∙ find_scheme-scheme_text s
