-- ===== src/LinkedList/Take.antt =====
-- `pop` and `shift` of src/containers/list.ts.
use node_celery_ts.Prelude.{
  ◌-◌, ◌≡◌, refl, sym, subst, ◌∙◌, inl, inr, Option, none, some, [], ◌∷◌, ◌++◌, arith,
  length-append,
}
use node_celery_ts.LinkedList.{Ref, Node, LinkedList, write, pop, shift}
use node_celery_ts.LinkedList.Chain.{
  Cells, first, last, first-append, last-append, Snoc-Chain, Chain-set_stop, Chain-set_prev,
  set_next-ok, set_previous-ok,
}
use node_celery_ts.LinkedList.Shape.{IsList, Below-front, Cells-cases, first-snoc}

module _ {A : Type 0} where
  -- What `pop` and `shift` leave: the element that was taken, and the chain of the other cells.
  abbrev pub Taken : Option (Option A × LinkedList A) → A → Cells A → Type 0
  Taken run v cs = (l' : LinkedList A) × (run ≡ some (some v, l')) × IsList l' cs

  -- `shift` takes the first cell off.
  pub shift-IsList :
      (l : LinkedList A) (r : Ref) (v : A) (cs : Cells A)
      → IsList l ((r, v) ∷ cs)
      → Taken (shift l) v cs
  unfolding shift
  shift-IsList l r v [] is = (
    record l { head = none; tail = none; size = l.size - 1 },
    ground arith,
    record {
      head_first = refl;
      tail_last = refl;
      counted = omega (arith, is.counted);
      chain = tt;
      below = tt;
    },
  )
  shift-IsList l r v ((q, w) ∷ cs) is =
      let n : Node A = record { element = w; next = first cs none; previous = none } in
      (
        record l { head = some q; size = l.size - 1; nodes = write l.nodes q n },
        ground (arith, set_previous-ok l.nodes q _ none is.chain.2.0),
        record {
          head_first = refl;
          tail_last = is.tail_last;
          counted = omega (arith, is.counted);
          chain = Chain-set_prev l.nodes (some r) none cs q w none is.chain.2;
          below = is.below.1;
        },
      )

  pop-snoc :
      (l : LinkedList A) (init : Cells A) (p : Ref) (w : A) (r : Ref) (v : A)
      → IsList l ((init ++ (p, w) ∷ []) ++ (r, v) ∷ [])
      → Taken (pop l) v (init ++ (p, w) ∷ [])
  unfolding pop
  pop-snoc l init p w r v is =
      let cs : Cells A = init ++ (p, w) ∷ [] in
      let s = Snoc-Chain l.nodes none none cs r v is.chain in
      let t = Snoc-Chain l.nodes none (some r) init p w s.front in
      let at_tail : l.tail ≡ some r = is.tail_last ∙ last-append none cs ((r, v) ∷ []) in
      let before : last none cs ≡ some p = last-append none init ((p, w) ∷ []) in
      let n : Node A = record { element = w; next = none; previous = last none init } in
      (
        record l { tail = some p; size = l.size - 1; nodes = write l.nodes p n },
        ground (arith, s.holds, set_next-ok l.nodes p _ none t.holds),
        record {
          head_first =
              is.head_first
              ∙ first-append cs ((r, v) ∷ []) none
              ∙ first-snoc init (p, w) (some r) none;
          tail_last = sym before;
          counted = omega (arith, is.counted, length-append {0} cs ((r, v) ∷ []));
          chain = Chain-set_stop l.nodes none (some r) init p w none t;
          below = Below-front l.fresh cs ((r, v) ∷ []) is.below;
        },
      )

  pop-single : (l : LinkedList A) (r : Ref) (v : A) → IsList l ((r, v) ∷ []) → Taken (pop l) v []
  unfolding pop
  pop-single l r v is = (
    record l { head = none; tail = none; size = l.size - 1 },
    ground arith,
    record {
      head_first = refl;
      tail_last = refl;
      counted = omega (arith, is.counted);
      chain = tt;
      below = tt;
    },
  )

  -- `pop` takes the last cell off.
  pub pop-IsList :
      (l : LinkedList A) (cs : Cells A) (r : Ref) (v : A)
      → IsList l (cs ++ (r, v) ∷ [])
      → Taken (pop l) v cs
  pop-IsList l cs r v is = elim (Cells-cases cs) [
    | inl empty ↦
        subst (Taken (pop l) v) (sym empty)
          (pop-single l r v (subst (λ t. IsList l (t ++ (r, v) ∷ [])) empty is))
    | inr (init, (p, w), split) ↦
        subst (Taken (pop l) v) (sym split)
          (pop-snoc l init p w r v (subst (λ t. IsList l (t ++ (r, v) ∷ [])) split is))
  ]
