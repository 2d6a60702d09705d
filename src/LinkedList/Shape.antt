-- ===== src/LinkedList/Shape.antt =====
-- When the object of src/containers/list.ts is a well-formed list, and what each operation on one
-- node does to it.
use node_celery_ts.Prelude.{
  ◌+◌, ◌<◌, ◌≡◌, refl, ap, ◌⊎◌, inl, inr, false, Option, none, [], ◌∷◌, ◌++◌, arith, length, All,
}
use node_celery_ts.LinkedList.{Ref, LinkedList, new_list}
use node_celery_ts.LinkedList.Chain.{Cells, has, first, last, Chain}

module _ {A : Type 0} where
  abbrev pub Below : Ref → Cells A → Type 0
  Below n = All λ c. c.0 < n

  pub record IsList (l : LinkedList A) (cs : Cells A) : Type 0 where
    pub head_first : l.head ≡ first cs none
    pub tail_last : l.tail ≡ last none cs
    pub counted : l.size ≡ length cs
    pub chain : Chain l.nodes none none cs
    pub below : Below l.fresh cs

  pub Below-has : (n : Ref) (cs : Cells A) → Below n cs → has n cs ≡ false
  Below-has n [] b = refl
  Below-has n ((p, v) ∷ cs) b = ground (arith, Below-has n cs b.1)

  pub Below-suc : (n : Ref) (cs : Cells A) → Below n cs → Below (n + 1) cs
  Below-suc n [] b = tt
  Below-suc n ((p, v) ∷ cs) b = (omega arith, Below-suc n cs b.1)

  pub Below-append : (n : Ref) (xs ys : Cells A) → Below n xs → Below n ys → Below n (xs ++ ys)
  Below-append n [] ys b d = d
  Below-append n (x ∷ xs) ys b d = (b.0, Below-append n xs ys b.1 d)

  pub Below-front : (n : Ref) (xs ys : Cells A) → Below n (xs ++ ys) → Below n xs
  Below-front n [] ys b = tt
  Below-front n (x ∷ xs) ys b = (b.0, Below-front n xs ys b.1)

  pub Cells-cases :
      (cs : Cells A) → (cs ≡ []) ⊎ ((init : Cells A) × (c : Ref × A) × (cs ≡ init ++ c ∷ []))
  Cells-cases [] = inl refl
  Cells-cases (c ∷ cs) = elim (Cells-cases cs) [
    | inl e ↦ inr ([], c, ap (λ t. c ∷ t) e)
    | inr (init, d, e) ↦ inr (c ∷ init, d, ap (λ t. c ∷ t) e)
  ]

  pub new_list-IsList : IsList new_list []
  unfolding new_list
  new_list-IsList = record {
    head_first = refl;
    tail_last = refl;
    counted = refl;
    chain = tt;
    below = tt;
  }

  pub first-snoc :
      (init : Cells A) (c : Ref × A) (s t : Option Ref)
      → first (init ++ c ∷ []) s ≡ first (init ++ c ∷ []) t
  first-snoc [] c s t = refl
  first-snoc (d ∷ init) c s t = refl
