-- ===== src/Tests/Pools.antt =====
-- src/containers/resource_pool.ts at concrete inputs.
use node_celery_ts.Prelude.{
  ℕ, ◌+◌, ◌≡◌, ◌≢◌, refl, false, some, none, [], ◌∷◌, ◌++◌, arith, length, map,
}
use node_celery_ts.Deque.{Deque, list_deque}
use node_celery_ts.PromiseQueue
use node_celery_ts.PromiseQueue.{resolved}
use node_celery_ts.ResourcePool.Set
use node_celery_ts.ResourcePool.{
  Resource, World, fulfilled, rejected_with, got, refused, throws, settle_use, start_get, deliver,
  created, create_failed, new_world, return_resource, use_resource, finish_destroy_all, num_in_use,
  num_unused, get_resource, queued,
}
use node_celery_ts.ResourcePool.Steps.{gets, delivers, creates, create_fails, Reach, here, next}
use node_celery_ts.ResourcePool.Invariant.{Inv, reachable-Inv}
use node_celery_ts.ResourcePool.Service.{
  num_in_use-counted, return_resource_serves_first, last_return_destroys, use_resource_returns,
}
use node_celery_ts.ResourcePool.Exhaustion.{failed_creations_starve}

abbrev D : Deque ℕ
D = list_deque ℕ

abbrev start : World ℕ D
start = new_world ℕ D 1

-- One slot: resource 10 is created, and is on its way to the first caller.
abbrev granted : World ℕ D
granted = created ℕ D 10 (start_get ℕ D start)

-- It is in use, and a second caller waits.
abbrev used : World ℕ D
used = deliver ℕ D 10 granted

abbrev contended : World ℕ D
contended = start_get ℕ D used

granted-Reach : Reach D start granted
unfolding start_get new_world
granted-Reach = next (next here gets) (creates 10 (omega arith) refl)

contended-Reach : Reach D start contended
unfolding created start_get new_world
contended-Reach = next (next granted-Reach (delivers 10 refl)) gets

reachable-Inv_example : Inv D contended
reachable-Inv_example = reachable-Inv D 1 contended contended-Reach

num_in_use-counted_example :
    (num_in_use ℕ D contended.pool
      ≡ length contended.in_use
        + length contended.granted
        + contended.creating
        + contended.failed
        + length contended.destroyed)
    × (num_in_use ℕ D contended.pool + num_unused ℕ D contended.pool ≡ contended.resource_count)
num_in_use-counted_example =
    num_in_use-counted D contended (reachable-Inv D 1 contended contended-Reach)

return_resource_serves_first_example :
    (w' : World ℕ D) × (return_resource ℕ D 10 contended ≡ some w')
    × (w'.waiting.promises 0 ≡ resolved 10)
    × (D.view w'.waiting.queue ≡ [])
    × ((q : ℕ) → q ≢ 0 → w'.waiting.promises q ≡ contended.waiting.promises q)
    × (Set.has 10 w'.in_use ≡ false)
    × (D.view w'.unused ≡ D.view contended.unused)
unfolding start_get deliver created new_world PromiseQueue.push PromiseQueue.new_queue
return_resource_serves_first_example =
    return_resource_serves_first D 10 contended 0 [] (reachable-Inv D 1 contended contended-Reach)
      refl refl

-- The caller's function throws 7, and a second caller waits.
use_resource_returns_example :
    (w' : World ℕ D) × (settle_use ℕ D {P = ℕ} {U = ℕ} fulfilled
        (use_resource ℕ D (λ r. throws 7) (got 10))
        contended
      ≡ (rejected_with 7, w'))
    × (return_resource ℕ D 10 contended ≡ some w')
    × (Set.has 10 w'.in_use ≡ false)
    × Inv D w'
    × ((e : ℕ)
        → settle_use ℕ D {P = ℕ} {U = ℕ} fulfilled
            (use_resource ℕ D (λ r. throws 7) (refused e))
            contended
          ≡ (rejected_with e, contended))
unfolding start_get created new_world deliver
use_resource_returns_example =
    use_resource_returns D (λ r. throws 7) fulfilled 10 granted contended
      (reachable-Inv D 1 granted granted-Reach) refl (next here gets) refl

last_return_destroys_example :
    (w' : World ℕ D) × (return_resource ℕ D 10 used ≡ some w')
    × (w'.listeners ≡ 0)
    × (w'.drained ≡ used.drained + used.listeners)
    × ((finish_destroy_all ℕ D (λ r. r + 100) w').0
        ≡ map (λ r. r + 100) (D.view used.unused ++ 10 ∷ []))
    × (D.view (finish_destroy_all ℕ D (λ r. r + 100) w').1.unused ≡ [])
unfolding deliver start_get created new_world PromiseQueue.new_queue
last_return_destroys_example = last_return_destroys D (λ r. r + 100) 10 used refl refl

-- The only creation fails.
abbrev starved : World ℕ D
starved = create_failed ℕ D (start_get ℕ D start)

starved-Reach : Reach D start starved
unfolding start_get new_world
starved-Reach = next (next here gets) (create_fails (omega arith))

failed_creations_starve_example :
    ((get_resource ℕ D (start_get ℕ D starved).pool).0
      ≡ queued (start_get ℕ D starved).waiting.created)
    × ((r : Resource) → return_resource ℕ D r (start_get ℕ D starved) ≡ none)
unfolding create_failed start_get new_world
failed_creations_starve_example =
    failed_creations_starve D starved (start_get ℕ D starved)
      (reachable-Inv D 1 starved starved-Reach) refl (next here gets)
