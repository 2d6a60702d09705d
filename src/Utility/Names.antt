-- ===== src/Utility/Names.antt =====
-- parseBoolean and toCamelCase of src/utility.ts.
use node_celery_ts.Prelude.{
  ℕ, ◌==◌, ◌≡◌, inl, inr, refl, sym, ap, ◌∙◌, Bool, true, false, ◌&&◌, ◌||◌, not, List, [], ◌∷◌,
  ◌++◌, arith, if◌then◌else◌, Bool-cases,
}
use node_celery_ts.Text.{Text, text_eq, is_space, is_lower, upper, trim, to_lower_case, all_of}
use node_celery_ts.Text.Laws.{
  is-false, eq_of_text_eq, trim-padded, is_visible, and-left, and-right, if-then, if-else,
  to_lower_case-padded,
}
use node_celery_ts.Result.{Error, Result, ok, err}
use node_celery_ts.Utility.{one_of, true_words, false_words, parse_boolean, to_camel_case}

abbrev pub words : Bool → List Text
words true = true_words
words false = false_words

module _ (p : Text → Bool) where
  abbrev every : List Text → Bool
  every [] = true
  every (t ∷ ts) = p t && every ts

  -- What every word of a list has, each of them has.
  one_of-every : (ts : List Text) (w : Text) → every ts ≡ true → one_of ts w ≡ true → p w ≡ true
  one_of-every [] w h k = absurd (ground arith)
  one_of-every (t ∷ ts) w h k = elim (Bool-cases (text_eq w t)) [
    | inl e ↦ ap p (eq_of_text_eq w t e) ∙ and-left (p t) _ h
    | inr e ↦ one_of-every ts w (and-right (p t) _ h) (ap (λ b. b || one_of ts w) (sym e) ∙ k)
  ]

abbrev visible : Text → Bool
visible = all_of is_visible

word-visible : (b : Bool) (w : Text) → one_of (words b) w ≡ true → visible w ≡ true
unfolding is_space
word-visible true w h = one_of-every visible true_words w refl h
word-visible false w h = one_of-every visible false_words w refl h

abbrev decide : Text → Result Bool
decide w =
    if one_of true_words w
    then ok true
    else if one_of false_words w
    then ok false
    else err Error.parse_error

abbrev untrue : Text → Bool
untrue w = not (one_of true_words w)

decide-word : (b : Bool) (w : Text) → one_of (words b) w ≡ true → decide w ≡ ok b
decide-word true w h = if-then (one_of true_words w) _ _ h
decide-word false w h =
    if-else (one_of true_words w) _ _ (one_of-every untrue false_words w refl h)
    ∙ if-then (one_of false_words w) _ _ h

-- parseBoolean reads each word for a Boolean as that Boolean, in either case and with any white
-- space before and after it.
pub parse_boolean-word :
    (b : Bool) (u s v : Text)
    → all_of is_space u ≡ true
    → all_of is_space v ≡ true
    → one_of (words b) (to_lower_case s) ≡ true
    → parse_boolean (u ++ (s ++ v)) ≡ ok b
unfolding parse_boolean
parse_boolean-word b u s v hu hv h =
    ap (λ x. decide (trim x)) (to_lower_case-padded u s v hu hv)
    ∙ ap decide (trim-padded u (to_lower_case s) v hu (word-visible b _ h) hv)
    ∙ decide-word b _ h

to_camel_case-cons :
    (c d : ℕ) (s : Text)
    → not (c == b'_') ≡ true
    → to_camel_case (c ∷ d ∷ s) ≡ c ∷ to_camel_case (d ∷ s)
unfolding to_camel_case
to_camel_case-cons c d s h =
    ap (λ b. if b && is_lower d then upper d ∷ s else c ∷ to_camel_case (d ∷ s))
      (is-false (c == b'_') h)

-- toCamelCase joins the first underscore before a lower-case letter, if no other underscore comes
-- before it, with that letter in upper case, and leaves every later one as it is.
pub to_camel_case-first :
    (s : Text) (d : ℕ) (t : Text)
    → all_of (λ c. not (c == b'_')) s ≡ true
    → is_lower d ≡ true
    → to_camel_case (s ++ b'_' ∷ d ∷ t) ≡ s ++ upper d ∷ t
unfolding to_camel_case
to_camel_case-first [] d t h k = if-then (is_lower d) _ _ k
to_camel_case-first (c ∷ []) d t h k =
    to_camel_case-cons c b'_' (d ∷ t) (and-left (not (c == b'_')) _ h)
    ∙ ap (λ x. c ∷ x) (to_camel_case-first [] d t refl k)
to_camel_case-first (c ∷ e ∷ s) d t h k =
    to_camel_case-cons c e (s ++ b'_' ∷ d ∷ t) (and-left (not (c == b'_')) _ h)
    ∙ ap (λ x. c ∷ x) (to_camel_case-first (e ∷ s) d t (and-right (not (c == b'_')) _ h) k)
