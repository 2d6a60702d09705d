-- ===== src/LinkedList/Push.antt =====
-- `pushOne` and `unshiftOne` of src/containers/list.ts.
use node_celery_ts.Prelude.{
  ◌+◌, ◌≡◌, refl, sym, subst, ◌∙◌, inl, inr, none, some, [], ◌∷◌, ◌++◌, arith, length-append,
}
use node_celery_ts.LinkedList.{Ref, Node, LinkedList, write, push_one, unshift_one}
use node_celery_ts.LinkedList.Chain.{
  Cells, first, last, has-append, first-append, last-append, Chain-write, Chain-snoc, Snoc-Chain,
  Chain-set_stop, Chain-set_prev, set_next-ok, set_previous-ok,
}
use node_celery_ts.LinkedList.Shape.{
  IsList, Below-has, Below-suc, Below-append, Cells-cases, first-snoc,
}

module _ {A : Type 0} where
  abbrev pub Pushed : A → LinkedList A → Cells A → Type 0
  Pushed e l cs =
      (l' : LinkedList A) × (push_one e l ≡ some l') × IsList l' (cs ++ (l.fresh, e) ∷ [])

  push_one-empty : (e : A) (l : LinkedList A) → IsList l [] → Pushed e l []
  unfolding push_one write
  push_one-empty e l is = (
    record {
      head = some l.fresh;
      tail = some l.fresh;
      size = l.size + 1;
      nodes = write l.nodes l.fresh (record { element = e; next = none; previous = l.tail });
      fresh = l.fresh + 1;
    },
    ground arith,
    record {
      head_first = refl;
      tail_last = refl;
      counted = omega (arith, is.counted);
      chain = (ground (arith, is.tail_last), refl, tt);
      below = (omega arith, tt);
    },
  )

  push_one-snoc :
      (e : A) (l : LinkedList A) (init : Cells A) (r : Ref) (v : A)
      → IsList l (init ++ (r, v) ∷ [])
      → Pushed e l (init ++ (r, v) ∷ [])
  unfolding push_one write
  push_one-snoc e l init r v is =
      let cs : Cells A = init ++ (r, v) ∷ [] in
      let new = Below-has l.fresh cs is.below in
      let at_tail : l.tail ≡ some r = is.tail_last ∙ last-append none init ((r, v) ∷ []) in
      let n : Node A = record { element = e; next = none; previous = l.tail } in
      let h = write l.nodes l.fresh n in
      let s =
        Snoc-Chain h none none init r v (Chain-write l.nodes none none cs l.fresh n new is.chain) in
      let g = write h r (record { element = v; next = some l.fresh; previous = last none init }) in
      (
        record {
          head = l.head;
          tail = some l.fresh;
          size = l.size + 1;
          nodes = g;
          fresh = l.fresh + 1;
        },
        ground (arith, set_next-ok h r _ (some l.fresh) s.holds),
        record {
          head_first =
              is.head_first
              ∙ (first-snoc init (r, v) none (some l.fresh)
                  ∙ sym (first-append cs ((l.fresh, e) ∷ []) none));
          tail_last = sym (last-append none cs ((l.fresh, e) ∷ []));
          counted = omega (arith, is.counted, length-append {0} cs ((l.fresh, e) ∷ []));
          chain =
              Chain-snoc g none none cs l.fresh e
                (Chain-set_stop h none none init r v (some l.fresh) s)
                (ground (arith, has-append l.fresh init ((r, v) ∷ []))) new;
          below =
              Below-append (l.fresh + 1) cs ((l.fresh, e) ∷ []) (Below-suc l.fresh cs is.below)
                (omega arith, tt);
        },
      )

  -- `pushOne` appends the element, in the cell of a fresh reference.
  pub push_one-IsList : (e : A) (l : LinkedList A) (cs : Cells A) → IsList l cs → Pushed e l cs
  push_one-IsList e l cs is = elim (Cells-cases cs) [
    | inl empty ↦ subst (Pushed e l) (sym empty) (push_one-empty e l (subst (IsList l) empty is))
    | inr (init, (r, v), split) ↦
        subst (Pushed e l) (sym split) (push_one-snoc e l init r v (subst (IsList l) split is))
  ]

  abbrev pub Unshifted : A → LinkedList A → Cells A → Type 0
  Unshifted e l cs =
      (l' : LinkedList A) × (unshift_one e l ≡ some l') × IsList l' ((l.fresh, e) ∷ cs)

  -- `unshiftOne` puts the element in front, in the cell of a fresh reference.
  pub unshift_one-IsList :
      (e : A) (l : LinkedList A) (cs : Cells A) → IsList l cs → Unshifted e l cs
  unfolding unshift_one write
  unshift_one-IsList e l [] is = (
    record {
      head = some l.fresh;
      tail = some l.fresh;
      size = l.size + 1;
      nodes = write l.nodes l.fresh (record { element = e; next = l.head; previous = none });
      fresh = l.fresh + 1;
    },
    ground arith,
    record {
      head_first = refl;
      tail_last = refl;
      counted = omega (arith, is.counted);
      chain = (ground (arith, is.head_first), refl, tt);
      below = (omega arith, tt);
    },
  )
  unshift_one-IsList e l ((r, v) ∷ cs) is =
      let new = Below-has l.fresh ((r, v) ∷ cs) is.below in
      let n : Node A = record { element = e; next = l.head; previous = none } in
      let h = write l.nodes l.fresh n in
      let c = Chain-write l.nodes none none ((r, v) ∷ cs) l.fresh n new is.chain in
      let g = write h r (record { element = v; next = first cs none; previous = some l.fresh }) in
      (
        record {
          head = some l.fresh;
          tail = l.tail;
          size = l.size + 1;
          nodes = g;
          fresh = l.fresh + 1;
        },
        ground (arith, set_previous-ok h r _ (some l.fresh) c.0),
        record {
          head_first = refl;
          tail_last = is.tail_last;
          counted = omega (arith, is.counted);
          chain = (
            ground (arith, is.head_first),
            new,
            Chain-set_prev h none none cs r v (some l.fresh) c,
          );
          below = (omega arith, Below-suc l.fresh ((r, v) ∷ cs) is.below);
        },
      )
