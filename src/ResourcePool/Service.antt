-- ===== src/ResourcePool/Service.antt =====
-- Who gets a resource of src/containers/resource_pool.ts, what `use` gives back, and what the
-- counters say.
use node_celery_ts.Prelude.{
  ℕ, ◌+◌, ◌==◌, ◌≡◌, ◌≢◌, ◌⊎◌, refl, ap, inl, inr, true, false, some, List, [], ◌∷◌, ◌++◌, length,
  arith, map,
}
use node_celery_ts.Deque.{Deque}
use node_celery_ts.PromiseQueue.{resolve, resolved}
use node_celery_ts.PromiseQueue.Settling.{settle_one-SettledFirst}
use node_celery_ts.ResourcePool.Set
use node_celery_ts.ResourcePool.Counting.{count-delete, count-has}
use node_celery_ts.ResourcePool.{
  Resource, World, Settled, fulfilled, rejected_with, not_owned, deliver, return_resource,
  finish_destroy_all, num_in_use, num_unused, return_after, use_resource, settle_use, got, refused,
  Invocation, returns, throws,
}
use node_celery_ts.ResourcePool.Steps.{
  Step, Reach, handed_over, kept, return_resource-handed_over, return_resource-kept,
}
use node_celery_ts.ResourcePool.Invariant.{Inv, Reach-Inv, Step-Inv, List-cases, deliver-Inv}

Invocation-cases :
    {P E : Type 0} (i : Invocation P E) → ((p : P) × (i ≡ returns p)) ⊎ ((e : E) × (i ≡ throws e))
Invocation-cases (returns p) = inl (p, refl)
Invocation-cases (throws e) = inr (e, refl)

module _ {E : Type 0} (D : Deque ℕ) where
  -- `numInUse` counts the resources in use, on their way and being created, and besides those that
  -- were destroyed or could not be created.
  pub num_in_use-counted :
      (w : World E D)
      → Inv D w
      → (num_in_use E D w.pool
          ≡ length w.in_use + length w.granted + w.creating + w.failed + length w.destroyed)
        × (num_in_use E D w.pool + num_unused E D w.pool ≡ w.resource_count)
  unfolding num_in_use num_unused
  num_in_use-counted w i = omega (arith, i.counted)

  -- A returned resource goes to the one who has waited longest: the first queued promise is
  -- resolved with it, the others wait on, and the resource is no longer in use.
  pub return_resource_serves_first :
      (r : Resource) (w : World E D) (p : ℕ) (ps : List ℕ)
      → Inv D w
      → Set.has r w.in_use ≡ true
      → D.view w.waiting.queue ≡ p ∷ ps
      → (w' : World E D) × (return_resource E D r w ≡ some w')
        × (w'.waiting.promises p ≡ resolved r)
        × (D.view w'.waiting.queue ≡ ps)
        × ((q : ℕ) → q ≢ p → w'.waiting.promises q ≡ w.waiting.promises q)
        × (Set.has r w'.in_use ≡ false)
        × (D.view w'.unused ≡ D.view w.unused)
  return_resource_serves_first r w p ps i owned e =
      let f = settle_one-SettledFirst D (resolve r) w.waiting p ps i.valid e in
      (
        handed_over D r w,
        return_resource-handed_over D r w p ps owned i.valid e,
        f.settled,
        f.left,
        f.others,
        count-has r (Set.delete r w.in_use)
            (ground (arith, i.once r, count-delete r r w.in_use owned)),
        refl,
      )

  -- When the last resource in use comes back and nobody waits, every waiting `destroyAll` goes on,
  -- and it destroys that resource with the unused ones, in the order in which they were returned.
  pub last_return_destroys :
      {S : Type 0} (destroy : Resource → S) (r : Resource) (w : World E D)
      → w.in_use ≡ r ∷ []
      → D.view w.waiting.queue ≡ []
      → (w' : World E D) × (return_resource E D r w ≡ some w')
        × (w'.listeners ≡ 0)
        × (w'.drained ≡ w.drained + w.listeners)
        × ((finish_destroy_all E D destroy w').0 ≡ map destroy (D.view w.unused ++ r ∷ []))
        × (D.view (finish_destroy_all E D destroy w').1.unused ≡ [])
  unfolding finish_destroy_all
  last_return_destroys destroy r w alone e =
      let owned : Set.has r w.in_use ≡ true = ground arith in
      let gone : (length (Set.delete r w.in_use) == 0) ≡ true = ground arith in
      (
        kept D r w,
        return_resource-kept D r w owned e,
        ground arith,
        ground arith,
        ap (map destroy) (D.view-push r w.unused),
        D.view-empty,
      )

  return_resource-owned :
      (r : Resource) (w : World E D)
      → Inv D w
      → Set.has r w.in_use ≡ true
      → (w' : World E D) × (return_resource E D r w ≡ some w') × (w'.in_use ≡ Set.delete r w.in_use)
  return_resource-owned r w i owned = elim (List-cases (D.view w.waiting.queue)) [
    | inl e ↦ (kept D r w, return_resource-kept D r w owned e, refl)
    | inr (p, ps, e) ↦
        (handed_over D r w, return_resource-handed_over D r w p ps owned i.valid e, refl)
  ]

  pub return_after-owned :
      {U : Type 0} (s : Settled U E) (r : Resource) (w w' : World E D)
      → return_resource E D r w ≡ some w'
      → return_after E D s r w ≡ (s, w')
  unfolding return_after
  return_after-owned (fulfilled u) r w w' e = rw (e, return_after)
  return_after-owned (rejected_with x) r w w' e = rw (e, return_after)
  return_after-owned not_owned r w w' e = rw (e, return_after)

  -- What the function of `use` does, as a promise.
  abbrev pub outcome : {P U : Type 0} → (P → Settled U E) → Invocation P E → Settled U E
  outcome settles (returns p) = settles p
  outcome settles (throws e) = rejected_with e

  settle_use-owned :
      {P U : Type 0} (f : Resource → Invocation P E) (settles : P → Settled U E) (r : Resource)
      (w w' : World E D)
      → return_resource E D r w ≡ some w'
      → settle_use E D settles (use_resource E D f (got r)) w ≡ (outcome settles (f r), w')
  unfolding use_resource settle_use
  settle_use-owned f settles r w w' run = elim (Invocation-cases (f r)) [
    | inl (p, e) ↦ rw (use_resource, e) (return_after-owned (settles p) r w w' run)
    | inr (x, e) ↦ rw (use_resource, e) (return_after-owned (rejected_with x) r w w' run)
  ]

  -- When `get` has delivered a resource to `use`, let any turns follow after which the resource is
  -- still in use. If what the function of `use` returned, a value or a promise, settles then, the
  -- promise of `use` settles as that does; if the function threw, it is rejected for that reason.
  -- In either case the resource is given back as `return` does, exactly once: it is no longer in
  -- use, and the pool keeps its invariant. If `get` was rejected, `use` is rejected for the same
  -- reason, and gives nothing back.
  pub use_resource_returns :
      {P U : Type 0} (f : Resource → Invocation P E) (settles : P → Settled U E) (r : Resource)
      (w later : World E D)
      → Inv D w
      → Set.has r w.granted ≡ true
      → Reach D (deliver E D r w) later
      → Set.has r later.in_use ≡ true
      → (w' : World E D) × (settle_use E D settles (use_resource E D f (got r)) later
          ≡ (outcome settles (f r), w'))
        × (return_resource E D r later ≡ some w')
        × (Set.has r w'.in_use ≡ false)
        × Inv D w'
        × ((e : E)
            → settle_use E D settles (use_resource E D f (refused e)) later
              ≡ (rejected_with e, later))
  unfolding use_resource settle_use
  use_resource_returns f settles r w later i granted turns owned =
      let j = Reach-Inv D turns (deliver-Inv D r w granted i) in
      let (w', run, left) = return_resource-owned r later j owned in
      (
        w',
        settle_use-owned f settles r later w' run,
        run,
        rw left (
            count-has r (Set.delete r later.in_use)
              (ground (arith, j.once r, count-delete r r later.in_use owned))),
        Step-Inv D (Step.returns r run) j,
        λ e. refl,
      )
