-- ===== src/ResourcePool.antt =====
-- src/containers/resource_pool.ts, over any queue object with the laws of `Deque`.
-- A resource is a number, its identity as an object; a `Set` is a list without repetitions.
-- The methods are asynchronous: `World` is the pool with what is under way between two turns of the
-- event loop, and each handler below runs in one turn. `creating` counts the calls of `create()`
-- whose promise is not settled, `granted` lists the resources on their way to a `get()` that has
-- still to run `this.inUse.add(resource)`, `listeners` counts the calls of `destroyAll()` that wait
-- for `"empty"`, and `drained` those that may go on. `failed` and `destroyed` record what became of
-- rejected creations and destroyed resources. `create` and `destroy` are the caller's: the first
-- chooses the resource that `created` receives, the second is applied to what is destroyed.
pub mod Set
pub mod Counting
pub mod Steps
pub mod Owners
pub mod Invariant
pub mod Service
pub mod Exhaustion
use node_celery_ts.Prelude.{
  ℕ, ◌+◌, ◌-◌, ◌==◌, ltb, if◌then◌else◌, Option, none, some, List, [], ◌∷◌, ◌++◌, length, map,
}
use node_celery_ts.Deque.{Deque}
use node_celery_ts.PromiseQueue.{PromiseQueue}
use node_celery_ts.PromiseQueue
use Set

abbrev pub Resource : Type 0
Resource = ℕ

-- How a promise settled, with values of `U`; an error is a reason of the caller's or the pool's.
pub data Settled (U E : Type 0) : Type 0 where
  fulfilled : U → Settled U E
  rejected_with : E → Settled U E
  not_owned : Settled U E

-- How the promise of `get()` settles for `use`.
pub data Got (E : Type 0) : Type 0 where
  got : Resource → Got E
  refused : E → Got E

-- What a call of the `f` of `use` does: it returns something, mostly a promise, or it throws.
pub data Invocation (P E : Type 0) : Type 0 where
  returns : P → Invocation P E
  throws : E → Invocation P E

-- What `returnAfter` waits for: what `f` returned, or `Promise.reject(error)`.
pub data Subject (P E : Type 0) : Type 0 where
  returned : P → Subject P E
  rejection : E → Subject P E

-- What `use` is settled by: a call of `returnAfter`, or an exception of its own.
pub data Using (P E : Type 0) : Type 0 where
  returns_after : Subject P E → Resource → Using P E
  fails : E → Using P E

module _ (E : Type 0) (D : Deque ℕ) where
  pub record Pool : Type 0 where
    pub in_use : List Resource
    pub max_resources : ℕ
    pub unused : D.Carrier
    pub resource_count : ℕ
    pub waiting : PromiseQueue Resource E D

  pub record World : Type 0 where
    pub pool : Pool
    pub open pool use *
    pub creating : ℕ
    pub granted : List Resource
    pub failed : ℕ
    pub listeners : ℕ
    pub drained : ℕ
    pub destroyed : List Resource

  -- What `getResource` returns: a resource, the promise of `create()`, or a queued promise.
  pub data Acquired : Type 0 where
    immediate : Resource → Acquired
    creation : Acquired
    queued : ℕ → Acquired

  unfoldable pub new_pool : ℕ → Pool
  new_pool max = record {
    in_use = [];
    max_resources = max;
    unused = D.empty;
    resource_count = 0;
    waiting = PromiseQueue.new_queue Resource E D;
  }

  unfoldable pub new_world : ℕ → World
  unfolding new_pool
  new_world max = record {
    pool = new_pool max;
    creating = 0;
    granted = [];
    failed = 0;
    listeners = 0;
    drained = 0;
    destroyed = [];
  }

  pub num_owned : Pool → ℕ
  num_owned p = p.resource_count

  unfoldable pub num_in_use : Pool → ℕ
  num_in_use p = p.resource_count - length (D.view p.unused)

  pub num_unused : Pool → ℕ
  num_unused p = length (D.view p.unused)

  unfoldable pub get_resource : Pool → Acquired × Pool
  get_resource p =
      let (maybe_unused, rest) = D.shift p.unused in
      elim maybe_unused [
        | some r ↦ (immediate r, record p { unused = rest })
        | none ↦
            if ltb p.resource_count p.max_resources
            then (creation, record p { unused = rest; resource_count = p.resource_count + 1 })
            else (let (promise, waiting) = PromiseQueue.push Resource E D p.waiting in
                (queued promise, record p { unused = rest; waiting = waiting }))
      ]

  -- `get()` up to its `await`.
  unfoldable pub start_get : World → World
  unfolding get_resource
  start_get w =
      let (acquired, pool) = get_resource w.pool in
      elim acquired [
        | immediate r ↦ record w { pool = pool; granted = w.granted ++ r ∷ [] }
        | creation ↦ record w { pool = pool; creating = w.creating + 1 }
        | queued promise ↦ record w { pool = pool }
      ]

  -- `get()` behind its `await`.
  unfoldable pub deliver : Resource → World → World
  deliver r w = record w {
    pool = record (w.pool) { in_use = Set.add r w.in_use };
    granted = Set.delete r w.granted;
  }

  -- The promise of a `create()` is fulfilled, or rejected: then so is that of `get()`.
  unfoldable pub created : Resource → World → World
  created r w = record w { creating = w.creating - 1; granted = w.granted ++ r ∷ [] }

  unfoldable pub create_failed : World → World
  create_failed w = record w { creating = w.creating - 1; failed = w.failed + 1 }

  -- `this.emptyEmitter.emit("empty")`
  pub emit_empty : World → World
  emit_empty w = record w { listeners = 0; drained = w.drained + w.listeners }

  -- `none` is the thrown "resource does not belong to this pool".
  unfoldable pub return_resource : Resource → World → Option World
  unfolding emit_empty
  return_resource r w =
      if Set.has r w.in_use
      then (let p = record (w.pool) { in_use = Set.delete r w.in_use } in
          let (resolved, waiting) = PromiseQueue.resolve_one Resource E D r p.waiting in
          if resolved
          then some
              (record w { pool = record p { waiting = waiting }; granted = w.granted ++ r ∷ [] })
          else (let q = record p { waiting = waiting; unused = D.push r p.unused } in
              some (
                if length p.in_use == 0
                then emit_empty (record w { pool = q })
                else record w { pool = q })))
      else none

  -- `returnAfter(promise, resource)`, from when `promise` has settled. If `return` throws in the
  -- `then` handler, the `catch` handler calls it once more.
  pub return_after : {U : Type 0} → Settled U E → Resource → World → Settled U E × World
  return_after (fulfilled u) r w = elim (return_resource r w) [
    | some w' ↦ (fulfilled u, w')
    | none ↦ elim (return_resource r w) [ some w' ↦ (not_owned, w') | none ↦ (not_owned, w) ]
  ]
  return_after (rejected_with e) r w = elim (return_resource r w) [
    | some w' ↦ (rejected_with e, w')
    | none ↦ (not_owned, w)
  ]
  return_after not_owned r w = elim (return_resource r w) [
    | some w' ↦ (not_owned, w')
    | none ↦ (not_owned, w)
  ]

  -- `use(f)` behind its `await`, which throws when `get()` is rejected. What `f` itself does to the
  -- pool are turns of their own.
  unfoldable pub use_resource : {P : Type 0} → (Resource → Invocation P E) → Got E → Using P E
  use_resource f (got r) = elim (f r) [
    | returns p ↦ returns_after (returned p) r
    | throws e ↦ returns_after (rejection e) r
  ]
  use_resource f (refused e) = fails e

  -- How the promise of `use` settles in the turn in which what it waits for has settled; what `f`
  -- returned settles as `settles` says.
  unfoldable pub settle_use :
      {P U : Type 0} → (P → Settled U E) → Using P E → World → Settled U E × World
  unfolding return_after
  settle_use settles (returns_after (returned p) r) w = return_after (settles p) r w
  settle_use settles (returns_after (rejection e) r) w = return_after (rejected_with e) r w
  settle_use settles (fails e) w = (rejected_with e, w)

  -- `destroyAll()` up to its `await`.
  unfoldable pub start_destroy_all : World → World
  start_destroy_all w =
      if length w.in_use == 0
      then record w { drained = w.drained + 1 }
      else record w { listeners = w.listeners + 1 }

  -- `destroyAll()` behind its `await`, with the replies of `destroy`.
  unfoldable pub finish_destroy_all : {S : Type 0} → (Resource → S) → World → List S × World
  finish_destroy_all destroy w =
      let connections = D.view w.unused in
      (
        map destroy connections,
        record w {
          pool = record (w.pool) { unused = D.empty };
          drained = w.drained - 1;
          destroyed = w.destroyed ++ connections;
        },
      )
