-- ===== src/ResourcePool/Exhaustion.antt =====
-- What creations that fail do to a pool of src/containers/resource_pool.ts: `resourceCount` is
-- never lowered again.
use node_celery_ts.Prelude.{
  length-nil, ltb, ◌≤◌, none, Bool-cases, ℕ, ◌≡◌, ap, inl, inr, some, [], arith,
}
use node_celery_ts.Deque.{Deque}
use node_celery_ts.ResourcePool.Set
use node_celery_ts.ResourcePool.{
  start_get, created, create_failed, start_destroy_all, get_resource, queued, Resource, World,
  deliver, return_resource, finish_destroy_all,
}
use node_celery_ts.ResourcePool.Steps.{
  Step, gets, delivers, creates, create_fails, starts_destroy_all, finishes_destroy_all, Reach,
  here, next, get_resource-full, start_get-unused, start_get-room, start_get-full,
  return_resource-foreign, returns, return_resource-handed_over, return_resource-kept,
}
use node_celery_ts.ResourcePool.Invariant.{Reach-Inv, Inv, List-cases}

module _ {E : Type 0} (D : Deque ℕ) where
  return_resource-failed :
      (r : Resource) (w w' : World E D)
      → Inv D w
      → return_resource E D r w ≡ some w'
      → (w'.failed ≡ w.failed) × (w'.max_resources ≡ w.max_resources)
  return_resource-failed r w w' i run = elim (Bool-cases (Set.has r w.in_use)) [
    | inr foreign ↦ cc (return_resource-foreign D r w foreign)
    | inl owned ↦ elim (List-cases (D.view w.waiting.queue)) [
      | inl e ↦ ground (arith, return_resource-kept D r w owned e)
      | inr (p, ps, e) ↦ ground (arith, return_resource-handed_over D r w p ps owned i.valid e)
    ]
  ]

  start_get-failed :
      (w : World E D)
      → ((start_get E D w).failed ≡ w.failed) × ((start_get E D w).max_resources ≡ w.max_resources)
  start_get-failed w = elim (List-cases (D.view w.unused)) [
    | inr (r, rs, e) ↦ ground (arith, start_get-unused D w r rs e)
    | inl e ↦ elim (Bool-cases (ltb w.resource_count w.max_resources)) [
      | inl room ↦ ground (arith, start_get-room D w e (ground arith))
      | inr full ↦ ground (arith, start_get-full D w e (ground arith))
    ]
  ]

  Step-failed :
      {w w' : World E D}
      → Step D w w'
      → Inv D w
      → (w.failed ≤ w'.failed) × (w'.max_resources ≡ w.max_resources)
  unfolding deliver created create_failed start_destroy_all finish_destroy_all
  Step-failed {w} gets i = ground (arith, start_get-failed w)
  Step-failed {w} (delivers r h) i = ground arith
  Step-failed {w} (creates r h new) i = ground arith
  Step-failed {w} (create_fails h) i = ground arith
  Step-failed {w} (returns r {w'} run) i = ground (arith, return_resource-failed r w w' i run)
  Step-failed {w} starts_destroy_all i = ground arith
  Step-failed {w} (finishes_destroy_all h) i = ground arith

  Reach-failed :
      {w w' : World E D}
      → Reach D w w'
      → Inv D w
      → (w.failed ≤ w'.failed) × (w'.max_resources ≡ w.max_resources)
  Reach-failed here i = ground arith
  Reach-failed (next r s) i = ground (arith, Reach-failed r i, Step-failed s (Reach-Inv D r i))

  -- When every slot was spent on a creation that failed, the pool is dead for good: in every state
  -- that follows, `getResource` queues the caller, and there is no resource that could be returned
  -- to serve it.
  pub failed_creations_starve :
      (w w' : World E D)
      → Inv D w
      → w.failed ≡ w.max_resources
      → Reach D w w'
      → ((get_resource E D w'.pool).0 ≡ queued w'.waiting.created)
        × ((r : Resource) → return_resource E D r w' ≡ none)
  failed_creations_starve w w' i all r =
      let j = Reach-Inv D r i in
      let same = Reach-failed r i in
      let empty : D.view w'.unused ≡ [] =
        length-nil (D.view w'.unused) (omega (arith, j.counted, j.capped)) in
      let none_used : w'.in_use ≡ [] = length-nil w'.in_use (omega (arith, j.counted, j.capped)) in
      (
        ap (λ t. t.0) (get_resource-full D w'.pool empty (omega (arith, j.counted, j.capped))),
        λ x. return_resource-foreign D x w' (ground arith),
      )
