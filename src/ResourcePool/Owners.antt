-- ===== src/ResourcePool/Owners.antt =====
-- Which resources a pool of src/containers/resource_pool.ts has ever owned, and how many they are.
use node_celery_ts.Prelude.{
  ℕ, ltb, if◌then◌else◌, ◌≤◌, ◌≡◌, refl, ◌∙◌, subst, sym, ap, inl, inr, true, false, none, some,
  List, [], ◌∷◌, ◌++◌, length, length-append, arith, Bool-cases, Option-cases,
}
use node_celery_ts.Deque.{Deque}
use node_celery_ts.ResourcePool.Set
use node_celery_ts.ResourcePool.Counting.{
  count, count-append, count-delete, length-delete, has-count, count-has, count-has_some,
}
use node_celery_ts.ResourcePool.{
  Resource, Settled, fulfilled, rejected_with, not_owned, World, start_get, deliver, created,
  create_failed, return_resource, return_after, start_destroy_all, finish_destroy_all,
}
use node_celery_ts.ResourcePool.Steps.{
  occurrences, Step, gets, delivers, creates, create_fails, returns, starts_destroy_all,
  finishes_destroy_all, Reach, here, next, start_get-unused, start_get-room, start_get-full,
  handed_over, kept, return_resource-handed_over, return_resource-kept, return_resource-foreign,
}
use node_celery_ts.ResourcePool.Service.{return_after-owned}
use node_celery_ts.ResourcePool.Invariant.{Inv, List-cases, Reach-Inv}

-- A list that another one counts no less of anything is not longer.
pub length-count : (rs xs : List ℕ) → ((a : ℕ) → count a rs ≤ count a xs) → length rs ≤ length xs
length-count [] xs fewer = omega arith
length-count (r ∷ rs) xs fewer =
    let h : Set.has r xs ≡ true = count-has_some r xs (ground (arith, fewer r)) in
    omega (
      arith,
      length-delete r xs h,
      length-count rs (Set.delete r xs) (λ a. ground (arith, fewer a, count-delete a r xs h)),
    )

-- The different members of a list.
abbrev pub distinct : List ℕ → List ℕ
distinct [] = []
distinct (x ∷ xs) = Set.add x (distinct xs)

distinct-count : (a : ℕ) (xs : List ℕ) → count a (distinct xs) ≡ (if Set.has a xs then 1 else 0)
distinct-count a [] = refl
distinct-count a (x ∷ xs) = elim (Bool-cases (Set.has x (distinct xs))) [
  | inl there ↦
      ground (arith, distinct-count a xs, distinct-count x xs, has-count x (distinct xs) there)
  | inr absent ↦
      let zero_of : count x (distinct xs) ≡ 0 = ground (arith, count-has_some x (distinct xs)) in
      ground (
        arith,
        zero_of,
        distinct-count a xs,
        distinct-count x xs,
        count-append a (distinct xs) (x ∷ []),
      )
]

module _ {E : Type 0} {D : Deque ℕ} where
  start_get-occurrences :
      (a : Resource) (w : World E D) → occurrences D a (start_get E D w) ≡ occurrences D a w
  start_get-occurrences a w = elim (List-cases (D.view w.unused)) [
    | inr (r, rs, e) ↦
        rw (start_get-unused D w r rs e)
          (ground (arith, D.shift-rest w.unused r rs e, count-append a w.granted (r ∷ [])))
    | inl e ↦ elim (Bool-cases (ltb w.resource_count w.max_resources)) [
      | inl room ↦ rw (start_get-room D w e (ground arith)) refl
      | inr none_left ↦ rw (start_get-full D w e (ground arith)) refl
    ]
  ]

  return_resource-occurrences :
      (a r : Resource) (w w' : World E D)
      → return_resource E D r w ≡ some w'
      → Inv D w
      → occurrences D a w' ≡ occurrences D a w
  return_resource-occurrences a r w w' run i = elim (Bool-cases (Set.has r w.in_use)) [
    | inr foreign ↦ cc (return_resource-foreign D r w foreign)
    | inl owned ↦ elim (List-cases (D.view w.waiting.queue)) [
      | inl e ↦
          let same : kept D r w ≡ w' = cc (return_resource-kept D r w owned e) in
          subst (λ v. occurrences D a v ≡ occurrences D a w) same
            (ground (
              arith,
              D.view-push r w.unused,
              count-append a (D.view w.unused) (r ∷ []),
              count-delete a r w.in_use owned,
            ))
      | inr (p, ps, e) ↦
          let same : handed_over D r w ≡ w' =
            cc (return_resource-handed_over D r w p ps owned i.valid e) in
          subst (λ v. occurrences D a v ≡ occurrences D a w) same
            (ground (arith, count-append a w.granted (r ∷ []), count-delete a r w.in_use owned))
    ]
  ]

  -- What a pool has owned it does not forget.
  pub Step-occurrences :
      (a : Resource) {w w' : World E D}
      → Step D w w'
      → Inv D w
      → occurrences D a w ≤ occurrences D a w'
  unfolding deliver created start_destroy_all finish_destroy_all create_failed
  Step-occurrences a {w} gets i = omega (arith, start_get-occurrences a w)
  Step-occurrences a {w} (delivers r h) i =
      let new : Set.has r w.in_use ≡ false =
        count-has r w.in_use (omega (arith, i.once r, has-count r w.granted h)) in
      ground (arith, count-append a w.in_use (r ∷ []), count-delete a r w.granted h)
  Step-occurrences a {w} (creates r h new) i = ground (arith, count-append a w.granted (r ∷ []))
  Step-occurrences a {w} (create_fails h) i = omega arith
  Step-occurrences a {w} (returns r {w'} run) i =
      omega (arith, return_resource-occurrences a r w w' run i)
  Step-occurrences a {w} starts_destroy_all i = ground arith
  Step-occurrences a {w} (finishes_destroy_all h) i =
      ground (arith, D.view-empty, count-append a w.destroyed (D.view w.unused))

  -- The limit stays.
  pub start_get-max_resources : (w : World E D) → (start_get E D w).max_resources ≡ w.max_resources
  start_get-max_resources w = elim (List-cases (D.view w.unused)) [
    | inr (r, rs, e) ↦ rw (start_get-unused D w r rs e) refl
    | inl e ↦ elim (Bool-cases (ltb w.resource_count w.max_resources)) [
      | inl room ↦ rw (start_get-room D w e (ground arith)) refl
      | inr none_left ↦ rw (start_get-full D w e (ground arith)) refl
    ]
  ]

  return_resource-max_resources :
      (r : Resource) (w w' : World E D)
      → return_resource E D r w ≡ some w'
      → w'.max_resources ≡ w.max_resources
  unfolding return_resource
  return_resource-max_resources r w w' run = ground (arith, run)

  Step-max_resources : {w w' : World E D} → Step D w w' → w'.max_resources ≡ w.max_resources
  unfolding deliver created start_destroy_all finish_destroy_all create_failed
  Step-max_resources {w} gets = start_get-max_resources w
  Step-max_resources (delivers r h) = refl
  Step-max_resources (creates r h new) = refl
  Step-max_resources (create_fails h) = refl
  Step-max_resources {w} (returns r {w'} run) = return_resource-max_resources r w w' run
  Step-max_resources starts_destroy_all = ground arith
  Step-max_resources (finishes_destroy_all h) = refl

  pub Reach-max_resources : {w w' : World E D} → Reach D w w' → w'.max_resources ≡ w.max_resources
  Reach-max_resources here = refl
  Reach-max_resources (next r s) = Step-max_resources s ∙ Reach-max_resources r

  pub Reach-occurrences :
      (a : Resource) {w w' : World E D}
      → Reach D w w'
      → Inv D w
      → occurrences D a w ≤ occurrences D a w'
  Reach-occurrences a here i = omega arith
  Reach-occurrences a (next r s) i =
      omega (arith, Reach-occurrences a r i, Step-occurrences a s (Reach-Inv D r i))

  -- Where the resources that the pool owns are.
  abbrev places : World E D → List Resource
  places w = D.view w.unused ++ (w.in_use ++ (w.granted ++ w.destroyed))

  count-places : (a : Resource) (w : World E D) → count a (places w) ≡ occurrences D a w
  count-places a w = omega (
    arith,
    count-append a (D.view w.unused) (w.in_use ++ (w.granted ++ w.destroyed)),
    count-append a w.in_use (w.granted ++ w.destroyed),
    count-append a w.granted w.destroyed,
  )

  length-places : (w : World E D) → Inv D w → length (places w) ≤ w.max_resources
  length-places w i = omega (
    arith,
    i.counted,
    i.capped,
    length-append {0} (D.view w.unused) (w.in_use ++ (w.granted ++ w.destroyed)),
    length-append {0} w.in_use (w.granted ++ w.destroyed),
    length-append {0} w.granted w.destroyed,
  )

  -- There are at most as many different resources that the pool owns as it may have.
  pub length-owned :
      (rs : List Resource) (w : World E D)
      → Inv D w
      → ((a : Resource) → Set.has a rs ≡ true → 1 ≤ occurrences D a w)
      → length (distinct rs) ≤ w.max_resources
  length-owned rs w i owned = omega (
    arith,
    length-places w i,
    length-count (distinct rs) (places w)
        (λ a. ground (arith, count-places a w, distinct-count a rs, owned a)),
  )

  return_after-foreign :
      {U : Type 0} (s : Settled U E) (r : Resource) (w : World E D)
      → return_resource E D r w ≡ none
      → return_after E D s r w ≡ (not_owned, w)
  unfolding return_after
  return_after-foreign (fulfilled u) r w e = rw (e, return_after, e)
  return_after-foreign (rejected_with x) r w e = rw (e, return_after)
  return_after-foreign not_owned r w e = rw (e, return_after)

  -- `returnAfter` is a call of `return`, or nothing.
  pub return_after-Reach :
      {U : Type 0} (s : Settled U E) (r : Resource) (w : World E D)
      → Reach D w (return_after E D s r w).1
  unfolding return_after
  return_after-Reach s r w = elim (Option-cases (return_resource E D r w)) [
    | inl none_left ↦
        subst (Reach D w) (sym (ap (λ t. t.1) (return_after-foreign s r w none_left))) here
    | inr (w', run) ↦
        subst (Reach D w) (sym (ap (λ t. t.1) (return_after-owned D s r w w' run)))
          (next here (returns r run))
  ]
