-- ===== src/Amqp/Uri/Vhost.antt =====
-- The virtual host that src/amqp/uri.ts takes from a string.
use node_celery_ts.Prelude.{
  ℕ, ◌==◌, leb, ◌≡◌, inl, inr, refl, sym, ap, ap₂, ◌∙◌, Bool, true, false, ◌&&◌, not, Option, none,
  some, List, [], ◌∷◌, ◌++◌, arith, if◌then◌else◌, Bool-cases, length, ==_refl, append_assoc,
}
use mathlib.Core.List.{reverse, reverse-append}
use node_celery_ts.Text.{Text, all_of}
use node_celery_ts.Text.Laws.{and-left, and-right, if-then, if-else}
use node_celery_ts.Uri.Scan.{split, cons_first, is_letter, is_scheme_char}
use node_celery_ts.Amqp.Uri.{
  is_line_end, is_vhost_char, before_colon, is_one_line, is_prefix, check_prefix, match_vhost,
  map_option,
}

-- A text without the character `d`.
abbrev pub Without : ℕ → Text → Type 0
Without d s = all_of (λ c. not (c == d)) s ≡ true

module _ (d : ℕ) where
  split-Without : (s : Text) → Without d s → split d s ≡ s ∷ []
  split-Without [] h = refl
  split-Without (c ∷ s) h =
      if-else (c == d) _ _ (and-left (not (c == d)) _ h)
      ∙ ap (cons_first c) (split-Without s (and-right (not (c == d)) _ h))

  split-append : (s r : Text) → Without d s → split d (s ++ d ∷ r) ≡ s ∷ split d r
  split-append [] r h = if-then (d == d) _ _ (==_refl d)
  split-append (c ∷ s) r h =
      if-else (c == d) _ _ (and-left (not (c == d)) _ h)
      ∙ ap (cons_first c) (split-append s r (and-right (not (c == d)) _ h))

  -- The last part of a text that ends with one without the character.
  abbrev EndsWith : Text → Text → Type 0
  EndsWith s t = (parts : List Text) × (w : Text) × (split d t ≡ parts ++ (w ++ s) ∷ [])

  cons-EndsWith : (c : ℕ) (s t : Text) → EndsWith s t → EndsWith s (c ∷ t)
  cons-EndsWith c s t (parts, w, e) = elim (Bool-cases (c == d)) [
    | inl q ↦ ([] ∷ parts, w, if-then (c == d) _ _ q ∙ ap (λ x. [] ∷ x) e)
    | inr q ↦ joined parts e q
  ]
    where
      joined :
          (parts : List Text)
          → split d t ≡ parts ++ (w ++ s) ∷ []
          → (c == d) ≡ false
          → EndsWith s (c ∷ t)
      joined [] e q = ([], c ∷ w, if-else (c == d) _ _ (ap not q) ∙ ap (cons_first c) e)
      joined (x ∷ xs) e q = ((c ∷ x) ∷ xs, w, if-else (c == d) _ _ (ap not q) ∙ ap (cons_first c) e)

  append-EndsWith : (u s : Text) → Without d s → EndsWith s (u ++ s)
  append-EndsWith [] s h = ([], [], split-Without s h)
  append-EndsWith (c ∷ u) s h = cons-EndsWith c s (u ++ s) (append-EndsWith u s h)

  reverse-split :
      (u s : Text)
      → Without d s
      → (w : Text) × (rest : List Text) × (reverse (split d (u ++ s)) ≡ (w ++ s) ∷ rest)
  reverse-split u s h =
      let x = append-EndsWith u s h in
      (x.1, reverse x.0, ap reverse x.2 ∙ reverse-append x.0 ((x.1 ++ s) ∷ []))

and-false : (b : Bool) → (b && false) ≡ false
and-false true = refl
and-false false = refl

all_of-false :
    (p : ℕ → Bool) (w : Text) (c : ℕ) (q : Text) → p c ≡ false → all_of p (w ++ c ∷ q) ≡ false
all_of-false p [] c q h = ap (λ b. b && all_of p q) h
all_of-false p (d ∷ w) c q h = ap (λ b. p d && b) (all_of-false p w c q h) ∙ and-false (p d)

module _ (vhost : Text) (bad : all_of is_vhost_char vhost ≡ false) where
  check_prefix-none : (rest : List Text) (o : Option Text) → check_prefix vhost rest o ≡ none
  check_prefix-none rest none = refl
  check_prefix-none rest (some last) =
      ap (λ b. if is_prefix last rest && b then some vhost else none) bad
      ∙ ap (λ b. if b then some vhost else none) (and-false (is_prefix last rest))

  match_vhost-none : (rest : List Text) → match_vhost (vhost ∷ rest) ≡ none
  unfolding match_vhost
  match_vhost-none [] = refl
  match_vhost-none (a ∷ []) = refl
  match_vhost-none (a ∷ [] ∷ []) = refl
  match_vhost-none (a ∷ [] ∷ scheme ∷ rest) = check_prefix-none rest (before_colon scheme)
  match_vhost-none (a ∷ (c ∷ x) ∷ rest) = refl

-- With a question mark in the last part there is no virtual host.
pub match_vhost-query :
    (u q : Text) → Without b'/' q → match_vhost (reverse (split b'/' (u ++ b'?' ∷ q))) ≡ none
unfolding is_vhost_char
match_vhost-query u q h =
    let x = reverse-split b'/' u (b'?' ∷ q) h in
    ap match_vhost x.2
    ∙ match_vhost-none (x.0 ++ b'?' ∷ q) (all_of-false is_vhost_char x.0 b'?' q refl) x.1

before_colon-append : (t : Text) → before_colon (t ++ b':' ∷ []) ≡ some t
unfolding before_colon
before_colon-append [] = refl
before_colon-append (c ∷ []) = refl
before_colon-append (c ∷ d ∷ t) = ap (map_option (λ s. c ∷ s)) (before_colon-append (d ∷ t))

pub all_of_mono :
    (p q : ℕ → Bool)
    → ((c : ℕ) → p c ≡ true → q c ≡ true)
    → (s : Text) → all_of p s ≡ true
    → all_of q s ≡ true
all_of_mono p q f [] h = refl
all_of_mono p q f (c ∷ s) h =
    ap₂ (λ a b. a && b) (f c (and-left (p c) _ h)) (all_of_mono p q f s (and-right (p c) _ h))

all_of_append :
    (p : ℕ → Bool) (s t : Text) → all_of p s ≡ true → all_of p t ≡ true → all_of p (s ++ t) ≡ true
all_of_append p [] t h k = k
all_of_append p (c ∷ s) t h k =
    ap₂ (λ a b. a && b) (and-left (p c) _ h) (all_of_append p s t (and-right (p c) _ h) k)

scheme_char-no_slash : (c : ℕ) → is_scheme_char c ≡ true → not (c == b'/') ≡ true
unfolding is_scheme_char is_letter
scheme_char-no_slash c h = ground arith

scheme_char-one_line : (c : ℕ) → is_scheme_char c ≡ true → not (is_line_end c) ≡ true
unfolding is_scheme_char is_letter is_line_end
scheme_char-one_line c h = ground arith

vhost_char-no_slash : (c : ℕ) → is_vhost_char c ≡ true → not (c == b'/') ≡ true
unfolding is_vhost_char
vhost_char-no_slash c h = ground arith

module _ (t a v : Text) (ht : all_of is_scheme_char t ≡ true) (some_t : leb 1 (length t) ≡ true)
    (ha : Without b'/' a) (hv : all_of is_vhost_char v ≡ true) where
  before : Without b'/' (t ++ b':' ∷ [])
  before =
      all_of_append _ t (b':' ∷ []) (all_of_mono is_scheme_char _ scheme_char-no_slash t ht) refl

  parts :
      split b'/' ((t ++ b':' ∷ []) ++ b'/' ∷ b'/' ∷ (a ++ b'/' ∷ v))
      ≡ (t ++ b':' ∷ []) ∷ [] ∷ a ∷ v ∷ []
  parts =
      split-append b'/' (t ++ b':' ∷ []) (b'/' ∷ (a ++ b'/' ∷ v)) before
      ∙ ap (λ x. (t ++ b':' ∷ []) ∷ [] ∷ x)
          (split-append b'/' a v ha
            ∙ ap (λ x. a ∷ x)
                (split-Without b'/' v (all_of_mono is_vhost_char _ vhost_char-no_slash v hv)))

  prefix : is_prefix t [] ≡ true
  unfolding is_prefix is_one_line
  prefix = ap₂ (λ x y. x && y) some_t (all_of_mono is_scheme_char _ scheme_char-one_line t ht)

  -- The virtual host behind the authority.
  pub match_vhost-path :
      match_vhost (reverse (split b'/' (t ++ b':' ∷ b'/' ∷ b'/' ∷ (a ++ b'/' ∷ v)))) ≡ some v
  unfolding match_vhost
  match_vhost-path =
      ap (λ s. match_vhost (reverse (split b'/' s)))
        (sym (append_assoc t (b':' ∷ []) (b'/' ∷ b'/' ∷ (a ++ b'/' ∷ v))))
      ∙ ap (λ s. match_vhost (reverse s)) parts
      ∙ ap (check_prefix v []) (before_colon-append t)
      ∙ if-then (is_prefix t [] && all_of is_vhost_char v) _ _ (ap₂ (λ x y. x && y) prefix hv)
