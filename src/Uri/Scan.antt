-- ===== src/Uri/Scan.antt =====
-- The regular expressions of src/uri.ts, as tests on the characters from left to right.
use node_celery_ts.Prelude.{
  ℕ, zero, suc, ◌==◌, leb, Bool, true, false, ◌&&◌, ◌||◌, Option, none, some, List, [], ◌∷◌,
  if◌then◌else◌, length,
}
use node_celery_ts.Text.{Text, is_digit, is_lower, is_upper, all_of}

unfoldable pub is_letter : ℕ → Bool
is_letter c = is_upper c || is_lower c

-- `[A-Za-z\d+.-]`
unfoldable pub is_scheme_char : ℕ → Bool
unfolding is_letter
is_scheme_char c = is_letter c || is_digit c || (c == b'+') || (c == b'.') || (c == b'-')

-- What stands before the colon, after the first letter.
unfoldable pub scheme_rest : Text → Option Text
unfolding is_scheme_char
scheme_rest [] = none
scheme_rest (c ∷ s) =
    let rest = scheme_rest s in
    if c == b':'
    then some []
    else if is_scheme_char c
    then elim rest [ none ↦ none | some t ↦ some (c ∷ t) ]
    else none

unfoldable pub match_scheme : Text → Option Text
unfolding scheme_rest
match_scheme [] = none
match_scheme (c ∷ s) =
    if is_letter c then elim (scheme_rest s) [ none ↦ none | some t ↦ some (c ∷ t) ] else none

-- The text before the first `d`, and what follows it.
abbrev pub cut : ℕ → Text → Text × Option Text
cut d [] = ([], none)
cut d (c ∷ s) = let (a, b) = cut d s in if c == d then ([], some s) else (c ∷ a, b)

unfoldable pub is_alphanumeric : ℕ → Bool
unfolding is_letter
is_alphanumeric c = is_letter c || is_digit c

-- `[A-Za-z\d-]{0,61}?[A-Za-z\d]`, behind the first character of a label.
unfoldable pub label_rest : ℕ → Text → Bool
unfolding is_alphanumeric
label_rest n [] = false
label_rest n (c ∷ []) = is_alphanumeric c
label_rest zero (c ∷ d ∷ s) = false
label_rest (suc n) (c ∷ d ∷ s) = (is_alphanumeric c || (c == b'-')) && label_rest n (d ∷ s)

unfoldable pub is_label : Text → Bool
unfolding label_rest is_alphanumeric
is_label [] = false
is_label (c ∷ []) = is_alphanumeric c
is_label (c ∷ d ∷ s) = is_alphanumeric c && label_rest 61 (d ∷ s)

-- The parts of a text between the occurrences of `d`.
abbrev pub cons_first : ℕ → List Text → List Text
cons_first c [] = (c ∷ []) ∷ []
cons_first c (s ∷ ss) = (c ∷ s) ∷ ss

abbrev pub split : ℕ → Text → List Text
split d [] = [] ∷ []
split d (c ∷ s) = let rest = split d s in if c == d then [] ∷ rest else cons_first c rest

abbrev pub every : {A : Type 0} → (A → Bool) → List A → Bool
every p [] = true
every p (a ∷ xs) = p a && every p xs

-- `/^\d+$/`
unfoldable pub is_number : Text → Bool
is_number [] = false
is_number (c ∷ s) = is_digit c && all_of is_digit s

-- `[A-Za-z\d*-._+%]`, where `*-.` is a range.
unfoldable pub is_query_char : ℕ → Bool
unfolding is_alphanumeric
is_query_char c =
    is_alphanumeric c || (leb b'*' c && leb c b'.') || (c == b'_') || (c == b'+') || (c == b'%')

unfoldable pub is_pair : Text → Bool
unfolding is_query_char
is_pair s =
    let (key, value) = cut b'=' s in
    elim value [
      | none ↦ false
      | some v ↦ leb 1 (length key) && all_of is_query_char key && all_of is_query_char v
    ]

unfoldable pub is_query : Text → Bool
unfolding is_pair
is_query s = every is_pair (split b'&' s)
