-- ===== src/Text/Laws.antt =====
-- Laws of the text functions.
use node_celery_ts.Prelude.{
  ℕ, ◌≡◌, ◌↔◌, refl, ap, ap₂, sym, ◌∙◌, append-nil, Bool, true, false, ◌&&◌, List, [], ◌∷◌, ◌++◌,
  map, arith, if◌then◌else◌, not,
}
use node_celery_ts.Text.{
  Text, text_eq, is_space, lower, to_lower_case, trim_start, trim_last, trim_end, trim, all_of,
}

pub eq_of_text_eq : (s t : Text) → text_eq s t ≡ true → s ≡ t
eq_of_text_eq [] [] h = refl
eq_of_text_eq [] (d ∷ t) h = cc
eq_of_text_eq (c ∷ s) [] h = cc
eq_of_text_eq (c ∷ s) (d ∷ t) h = ground (arith, eq_of_text_eq s t)

pub text_eq_refl : (s : Text) → text_eq s s ≡ true
text_eq_refl [] = refl
text_eq_refl (c ∷ s) = ground (arith, text_eq_refl s)

pub text_eq_iff : (s t : Text) → (text_eq s t ≡ true) ↔ (s ≡ t)
text_eq_iff s t = (eq_of_text_eq s t, λ e. ap (text_eq s) (sym e) ∙ text_eq_refl s)

-- An operand of a conjunction that holds.
pub and-left : (a b : Bool) → (a && b) ≡ true → a ≡ true
and-left true b h = refl
and-left false b h = h

pub and-right : (a b : Bool) → (a && b) ≡ true → b ≡ true
and-right true b h = h
and-right false b h = absurd (ground arith)

pub is-false : (b : Bool) → not b ≡ true → b ≡ false
is-false b h = ground arith

pub if-then {ℓ} : {A : Type ℓ} (b : Bool) (x y : A) → b ≡ true → (if b then x else y) ≡ x
if-then b x y h = ap (λ t. if t then x else y) h

pub if-else {ℓ} : {A : Type ℓ} (b : Bool) (x y : A) → not b ≡ true → (if b then x else y) ≡ y
if-else true x y h = absurd (ground arith)
if-else false x y h = refl

pub trim_start-space : (u s : Text) → all_of is_space u ≡ true → trim_start (u ++ s) ≡ trim_start s
trim_start-space [] s h = refl
trim_start-space (c ∷ u) s h =
    if-then (is_space c) _ _ (and-left (is_space c) _ h)
    ∙ trim_start-space u s (and-right (is_space c) _ h)

abbrev pub is_visible : ℕ → Bool
is_visible c = not (is_space c)

trim_end-space : (v : Text) → all_of is_space v ≡ true → trim_end v ≡ []
trim_end-space [] h = refl
trim_end-space (c ∷ v) h =
    ap (trim_last c) (trim_end-space v (and-right (is_space c) _ h))
    ∙ if-then (is_space c) _ _ (and-left (is_space c) _ h)

trim_last-visible : (c : ℕ) (s : Text) → is_visible c ≡ true → trim_last c s ≡ c ∷ s
trim_last-visible c [] h = if-else (is_space c) _ _ h
trim_last-visible c (d ∷ s) h = refl

trim_end-visible :
    (s v : Text) → all_of is_visible s ≡ true → all_of is_space v ≡ true → trim_end (s ++ v) ≡ s
trim_end-visible [] v h w = trim_end-space v w
trim_end-visible (c ∷ s) v h w =
    ap (trim_last c) (trim_end-visible s v (and-right (is_visible c) _ h) w)
    ∙ trim_last-visible c s (and-left (is_visible c) _ h)

trim_start-visible :
    (s v : Text)
    → all_of is_visible s ≡ true
    → all_of is_space v ≡ true
    → trim_end (trim_start (s ++ v)) ≡ s
trim_start-visible [] v h w =
    ap trim_end (ap trim_start (sym (append-nil v)) ∙ trim_start-space v [] w)
trim_start-visible (c ∷ s) v h w =
    ap trim_end (if-else (is_space c) _ _ (and-left (is_visible c) _ h))
    ∙ trim_end-visible (c ∷ s) v h w

pub trim-padded :
    (u s v : Text)
    → all_of is_space u ≡ true
    → all_of is_visible s ≡ true
    → all_of is_space v ≡ true
    → trim (u ++ (s ++ v)) ≡ s
trim-padded u s v hu hs hv =
    ap trim_end (trim_start-space u (s ++ v) hu) ∙ trim_start-visible s v hs hv

-- Upper-case letters are not white space, so that white space keeps its case.
lower-space : (c : ℕ) → is_space c ≡ true → lower c ≡ c
unfolding is_space
lower-space c h = ground arith

pub to_lower_case-space : (u : Text) → all_of is_space u ≡ true → to_lower_case u ≡ u
to_lower_case-space [] h = refl
to_lower_case-space (c ∷ u) h =
    ap₂ (λ d t. d ∷ t) (lower-space c (and-left (is_space c) _ h))
      (to_lower_case-space u (and-right (is_space c) _ h))

pub map-append {ℓ κ} :
    {A : Type ℓ} {B : Type κ} (f : A → B) (xs ys : List A) → map f (xs ++ ys) ≡ map f xs ++ map f ys
map-append f [] ys = refl
map-append f (x ∷ xs) ys = ap (λ t. f x ∷ t) (map-append f xs ys)

pub to_lower_case-padded :
    (u s v : Text)
    → all_of is_space u ≡ true
    → all_of is_space v ≡ true
    → to_lower_case (u ++ (s ++ v)) ≡ u ++ (to_lower_case s ++ v)
to_lower_case-padded u s v hu hv =
    map-append _ u (s ++ v)
    ∙ ap₂ (λ x y. x ++ y) (to_lower_case-space u hu)
        (map-append _ s v ∙ ap (λ y. to_lower_case s ++ y) (to_lower_case-space v hv))
