-- ===== src/LinkedList/Sequence.antt =====
-- Each method of src/containers/list.ts against a plain sequence of elements.
use node_celery_ts.Prelude.{
  ℕ, zero, suc, ◌+◌, ◌≤◌, ◌≡◌, refl, sym, ap, subst, ◌∙◌, inl, inr, none, some, List, [], ◌∷◌, ◌++◌,
  map, arith, length, length-append, length-map, take, take-suc, get_elem?-lt, take-length,
  append_assoc, append-nil, Option,
}
use mathlib.Core.List.{map-append}
use node_celery_ts.LinkedList.{
  Ref, Store, LinkedList, new_list, push_one, push_all, push, from, unshift_one, unshift_loop,
  unshift, pop, shift, iterate_from, iterate,
}
use node_celery_ts.LinkedList.Chain.{Cells, first, Chain}
use node_celery_ts.LinkedList.Shape.{IsList, Cells-cases, new_list-IsList}
use node_celery_ts.LinkedList.Push.{push_one-IsList, unshift_one-IsList}
use node_celery_ts.LinkedList.Take.{shift-IsList, pop-IsList}

module _ {A : Type 0} where
  abbrev pub elements : Cells A → List A
  elements = map λ c. c.1

  -- The object is a well-formed list of these elements, in this order.
  abbrev pub Represents : LinkedList A → List A → Type 0
  Represents l xs = (cs : Cells A) × IsList l cs × (elements cs ≡ xs)

  pub Represents-size : (l : LinkedList A) (xs : List A) → Represents l xs → l.size ≡ length xs
  Represents-size l xs (cs, is, e) = is.counted ∙ sym (length-map (λ c. c.1) cs) ∙ ap length e

  pub new_list-Represents : Represents new_list []
  new_list-Represents = ([], new_list-IsList, refl)

  push_one-Represents :
      (e : A) (l : LinkedList A) (xs : List A)
      → Represents l xs
      → (l' : LinkedList A) × (push_one e l ≡ some l') × Represents l' (xs ++ e ∷ [])
  push_one-Represents e l xs (cs, is, s) =
      let (l', run, is') = push_one-IsList e l cs is in
      (
        l',
        run,
        (
          cs ++ (l.fresh, e) ∷ [],
          is',
          map-append _ cs ((l.fresh, e) ∷ []) ∙ ap (λ t. t ++ e ∷ []) s,
        ),
      )

  push_all-Represents :
      (es : List A) (l : LinkedList A) (xs : List A)
      → Represents l xs
      → (l' : LinkedList A) × (push_all es l ≡ some l') × Represents l' (xs ++ es)
  unfolding push_all
  push_all-Represents [] l xs r = (l, refl, subst (Represents l) (sym (append-nil xs)) r)
  push_all-Represents (e ∷ es) l xs r =
      let (l₁, run₁, r₁) = push_one-Represents e l xs r in
      let (l₂, run₂, r₂) = push_all-Represents es l₁ (xs ++ e ∷ []) r₁ in
      (l₂, rw run₁ run₂, subst (Represents l₂) (append_assoc xs (e ∷ []) es) r₂)

  -- `push` appends its arguments at the back, in order, and returns the new length.
  pub push-Represents :
      (es : List A) (l : LinkedList A) (xs : List A)
      → Represents l xs
      → (l' : LinkedList A) × (push es l ≡ some (length xs + length es, l'))
        × Represents l' (xs ++ es)
  unfolding push
  push-Represents es l xs r =
      let (l', run, r') = push_all-Represents es l xs r in
      let n : l'.size ≡ length xs + length es =
        Represents-size l' (xs ++ es) r' ∙ length-append xs es in
      (l', rw run (ap (λ t. some (t, l')) n), r')

  -- `from` and `of` make a list of the elements that they are given.
  pub from-Represents : (es : List A) → (l : LinkedList A) × (from es ≡ some l) × Represents l es
  unfolding from
  from-Represents es = push_all-Represents es new_list [] new_list-Represents

  unshift_one-Represents :
      (e : A) (l : LinkedList A) (xs : List A)
      → Represents l xs
      → (l' : LinkedList A) × (unshift_one e l ≡ some l') × Represents l' (e ∷ xs)
  unshift_one-Represents e l xs (cs, is, s) =
      let (l', run, is') = unshift_one-IsList e l cs is in
      (l', run, ((l.fresh, e) ∷ cs, is', ap (λ t. e ∷ t) s))

  unshift_loop-Represents :
      (es : List A) (i : ℕ) (l : LinkedList A) (xs : List A)
      → i ≤ length es
      → Represents l xs
      → (l' : LinkedList A) × (unshift_loop es i l ≡ some l') × Represents l' (take i es ++ xs)
  unfolding unshift_loop
  unshift_loop-Represents es zero l xs h r = (l, refl, r)
  unshift_loop-Represents es (suc i) l xs h r =
      let (e, at) = get_elem?-lt i es h in
      let (l₁, run₁, r₁) = unshift_one-Represents e l xs r in
      let (l₂, run₂, r₂) = unshift_loop-Represents es i l₁ (e ∷ xs) (omega arith) r₁ in
      (
        l₂,
        rw (at, run₁) run₂,
        subst (Represents l₂)
            (sym (append_assoc (take i es) (e ∷ []) xs)
              ∙ ap (λ t. t ++ xs) (sym (take-suc i es at)))
            r₂,
      )

  -- `unshift` puts its arguments in front, in their order, and returns the new length.
  pub unshift-Represents :
      (es : List A) (l : LinkedList A) (xs : List A)
      → Represents l xs
      → (l' : LinkedList A) × (unshift es l ≡ some (length es + length xs, l'))
        × Represents l' (es ++ xs)
  unfolding unshift
  unshift-Represents es l xs r =
      let (l', run, r₁) = unshift_loop-Represents es (length es) l xs (omega arith) r in
      let r' : Represents l' (es ++ xs) =
        subst (λ t. Represents l' (t ++ xs)) (take-length es) r₁ in
      let n : l'.size ≡ length es + length xs =
        Represents-size l' (es ++ xs) r' ∙ length-append es xs in
      (l', rw run (ap (λ t. some (t, l')) n), r')

  -- What a removal returns: nothing on the empty list, or one element and a list of the others.
  abbrev pub Removes :
      Option (Option A × LinkedList A) → LinkedList A → Option (A × List A) → Type 0
  Removes run l none = run ≡ some (none, l)
  Removes run l (some (x, rest)) =
      (l' : LinkedList A) × (run ≡ some (some x, l')) × Represents l' rest

  abbrev pub uncons : List A → Option (A × List A)
  uncons [] = none
  uncons (x ∷ xs) = some (x, xs)

  pub unsnoc : List A → Option (A × List A)
  unsnoc [] = none
  unsnoc (x ∷ xs) = elim (unsnoc xs) [ none ↦ some (x, []) | some (y, ys) ↦ some (y, x ∷ ys) ]

  pub unsnoc-snoc : (xs : List A) (x : A) → unsnoc (xs ++ x ∷ []) ≡ some (x, xs)
  unfolding unsnoc
  unsnoc-snoc [] x = refl
  unsnoc-snoc (y ∷ xs) x = rw (unsnoc-snoc xs x)

  shift-cells :
      (l : LinkedList A) (cs : Cells A) → IsList l cs → Removes (shift l) l (uncons (elements cs))
  unfolding shift
  shift-cells l [] is = ground arith
  shift-cells l ((r, v) ∷ cs) is =
      let (l', run, is') = shift-IsList l r v cs is in (l', run, (cs, is', refl))

  -- `shift` removes the first element.
  pub shift-Removes :
      (l : LinkedList A) (xs : List A) → Represents l xs → Removes (shift l) l (uncons xs)
  shift-Removes l xs (cs, is, e) =
      subst (λ t. Removes (shift l) l (uncons t)) e (shift-cells l cs is)

  pop-empty : (l : LinkedList A) → IsList l [] → pop l ≡ some (none, l)
  unfolding pop
  pop-empty l is = ground arith

  pop-cells :
      (l : LinkedList A) (cs : Cells A) → IsList l cs → Removes (pop l) l (unsnoc (elements cs))
  unfolding unsnoc
  pop-cells l cs is = elim (Cells-cases cs) [
    | inl empty ↦
        subst (λ t. Removes (pop l) l (unsnoc (elements t))) (sym empty)
          (pop-empty l (subst (IsList l) empty is))
    | inr (init, (r, v), split) ↦
        let (l', run, is') = pop-IsList l init r v (subst (IsList l) split is) in
        let e : unsnoc (elements cs) ≡ some (v, elements init) =
          ap (λ t. unsnoc (elements t)) split
          ∙ ap unsnoc (map-append _ init ((r, v) ∷ []))
          ∙ unsnoc-snoc (elements init) v in
        subst (Removes (pop l) l) (sym e) (l', run, (init, is', refl))
  ]

  -- `pop` removes the last element.
  pub pop-Removes :
      (l : LinkedList A) (xs : List A) → Represents l xs → Removes (pop l) l (unsnoc xs)
  pop-Removes l xs (cs, is, e) = subst (λ t. Removes (pop l) l (unsnoc t)) e (pop-cells l cs is)

  iterate_from-cells :
      (fuel : ℕ) (h : Store A) (prev : Option Ref) (cs : Cells A)
      → length cs ≤ fuel
      → Chain h prev none cs
      → iterate_from fuel h (first cs none) ≡ some (elements cs)
  unfolding iterate_from
  iterate_from-cells zero h prev [] enough c = refl
  iterate_from-cells (suc fuel) h prev [] enough c = refl
  iterate_from-cells zero h prev (x ∷ cs) enough c = absurd (omega arith)
  iterate_from-cells (suc fuel) h prev ((r, v) ∷ cs) enough c =
      rw (c.0, iterate_from-cells fuel h (some r) cs (omega arith) c.2)

  -- The iterator yields the elements from front to back, and ends.
  pub iterate-Represents :
      (fuel : ℕ) (l : LinkedList A) (xs : List A)
      → Represents l xs
      → length xs ≤ fuel
      → iterate fuel l ≡ some xs
  unfolding iterate
  iterate-Represents fuel l xs (cs, is, e) enough =
      let short : length cs ≤ fuel =
        omega (arith, ap length e, length-map (λ (c : Ref × A). c.1) cs) in
      ap (iterate_from fuel l.nodes) is.head_first
      ∙ iterate_from-cells fuel l.nodes none cs short is.chain
      ∙ ap some e
