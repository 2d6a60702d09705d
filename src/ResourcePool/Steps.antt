-- ===== src/ResourcePool/Steps.antt =====
-- The turns of the event loop in which a pool of src/containers/resource_pool.ts changes, and the
-- branches of its methods as equations.
use node_celery_ts.Prelude.{
  ℕ, ◌+◌, ◌==◌, ◌<◌, ◌≤◌, if◌then◌else◌, ◌≡◌, true, false, none, some, List, [], ◌∷◌, ◌++◌, length,
  arith,
}
use node_celery_ts.Deque.{Deque}
use node_celery_ts.PromiseQueue
use node_celery_ts.PromiseQueue.{PromiseQueue, resolve}
use node_celery_ts.PromiseQueue.Settling.{IsValid, settle_one-SettledFirst, settle_one-empty}
use node_celery_ts.ResourcePool.Set
use node_celery_ts.ResourcePool.Counting.{count}
use node_celery_ts.ResourcePool.{
  Resource, Pool, World, start_get, deliver, created, create_failed, return_resource,
  start_destroy_all, finish_destroy_all, immediate, creation, queued, get_resource,
}

module _ {E : Type 0} (D : Deque ℕ) where
  -- How often a resource stands in the places that the pool knows of.
  abbrev pub occurrences : Resource → World E D → ℕ
  occurrences r w =
      count r (D.view w.unused) + count r w.in_use + count r w.granted + count r w.destroyed

  -- One turn: a call of a method, the end of an `await`, or the outcome of a `create()`, which
  -- makes a resource that the pool has not seen.
  pub data Step (w : World E D) : World E D → Type 0 where
    gets : Step w (start_get E D w)
    delivers : (r : Resource) → Set.has r w.granted ≡ true → Step w (deliver E D r w)
    creates : (r : Resource) → 0 < w.creating → occurrences r w ≡ 0 → Step w (created E D r w)
    create_fails : 0 < w.creating → Step w (create_failed E D w)
    returns : (r : Resource) {w' : World E D} → return_resource E D r w ≡ some w' → Step w w'
    starts_destroy_all : Step w (start_destroy_all E D w)
    finishes_destroy_all : 0 < w.drained → Step w (finish_destroy_all E D (λ r. r) w).1

  pub data Reach (w : World E D) : World E D → Type 0 where
    here : Reach w w
    next : {u v : World E D} → Reach w u → Step u v → Reach w v

  -- `getResource` with an unused resource, with room for another, and with neither.
  pub get_resource-unused :
      (p : Pool E D) (r : Resource) (rs : List Resource)
      → D.view p.unused ≡ r ∷ rs
      → get_resource E D p ≡ (immediate r, record p { unused = (D.shift p.unused).1 })
  unfolding get_resource
  get_resource-unused p r rs e = ground (arith, D.shift-first p.unused r rs e)

  pub get_resource-room :
      (p : Pool E D)
      → D.view p.unused ≡ []
      → p.resource_count < p.max_resources
      → get_resource E D p ≡ (creation, record p { resource_count = p.resource_count + 1 })
  unfolding get_resource
  get_resource-room p e room = ground (arith, D.shift-empty p.unused e)

  pub get_resource-full :
      (p : Pool E D)
      → D.view p.unused ≡ []
      → p.max_resources ≤ p.resource_count
      → get_resource E D p ≡ (
        queued p.waiting.created,
        record p { waiting = (PromiseQueue.push Resource E D p.waiting).1 },
      )
  unfolding get_resource PromiseQueue.push
  get_resource-full p e full = ground (arith, D.shift-empty p.unused e)

  pub start_get-unused :
      (w : World E D) (r : Resource) (rs : List Resource)
      → D.view w.unused ≡ r ∷ rs
      → start_get E D w ≡ record w {
        pool = record (w.pool) { unused = (D.shift w.unused).1 };
        granted = w.granted ++ r ∷ [];
      }
  unfolding start_get
  start_get-unused w r rs e = ground (arith, get_resource-unused w.pool r rs e)

  pub start_get-room :
      (w : World E D)
      → D.view w.unused ≡ []
      → w.resource_count < w.max_resources
      → start_get E D w ≡ record w {
        pool = record (w.pool) { resource_count = w.resource_count + 1 };
        creating = w.creating + 1;
      }
  unfolding start_get
  start_get-room w e room = ground (arith, get_resource-room w.pool e room)

  pub start_get-full :
      (w : World E D)
      → D.view w.unused ≡ []
      → w.max_resources ≤ w.resource_count
      → start_get E D w ≡ record w {
        pool = record (w.pool) { waiting = (PromiseQueue.push Resource E D w.waiting).1 };
      }
  unfolding start_get
  start_get-full w e full = ground (arith, get_resource-full w.pool e full)

  -- `return` of a resource that nobody waits for, and of one that goes to the first who waits.
  abbrev pub handed_over : Resource → World E D → World E D
  handed_over r w = record w {
    pool = record (w.pool) {
      in_use = Set.delete r w.in_use;
      waiting = (PromiseQueue.settle_one Resource E D (resolve r) w.waiting).1;
    };
    granted = w.granted ++ r ∷ [];
  }

  abbrev pub kept : Resource → World E D → World E D
  kept r w = record w {
    pool = record (w.pool) { in_use = Set.delete r w.in_use; unused = D.push r w.unused };
    listeners = if length (Set.delete r w.in_use) == 0 then 0 else w.listeners;
    drained = if length (Set.delete r w.in_use) == 0 then w.drained + w.listeners else w.drained;
  }

  pub return_resource-handed_over :
      (r : Resource) (w : World E D) (p : ℕ) (ps : List ℕ)
      → Set.has r w.in_use ≡ true
      → IsValid D w.waiting
      → D.view w.waiting.queue ≡ p ∷ ps
      → return_resource E D r w ≡ some (handed_over r w)
  unfolding return_resource PromiseQueue.resolve_one
  return_resource-handed_over r w p ps owned v e =
      let f = settle_one-SettledFirst D (resolve r) w.waiting p ps v e in ground (arith, f.found)

  pub return_resource-kept :
      (r : Resource) (w : World E D)
      → Set.has r w.in_use ≡ true
      → D.view w.waiting.queue ≡ []
      → return_resource E D r w ≡ some (kept r w)
  unfolding return_resource PromiseQueue.resolve_one
  return_resource-kept r w owned e = ground (arith, settle_one-empty D (resolve r) w.waiting e)

  pub return_resource-foreign :
      (r : Resource) (w : World E D) → Set.has r w.in_use ≡ false → return_resource E D r w ≡ none
  unfolding return_resource
  return_resource-foreign r w foreign = rw foreign
