-- ===== src/Redis/Backend/Waiting.antt =====
-- Who waits for a client of src/redis/backend.ts, which has two: the subscriber holds one of them.
use node_celery_ts.Prelude.{ℕ, ◌≡◌, refl, ap, ◌∙◌, true, [], ◌∷◌, ◌++◌, length, length-nil, arith}
use node_celery_ts.Deque.{Deque}
use node_celery_ts.Messages.{ResultMessage}
use node_celery_ts.Prelude.{Option}
use node_celery_ts.PromiseQueue
use node_celery_ts.PromiseQueue.{resolve}
use node_celery_ts.PromiseQueue.Settling.{push-IsValid, settle_one-SettledFirst}
use node_celery_ts.ResourcePool.{Resource, Settled, World, start_get}
use node_celery_ts.ResourcePool.Set
use node_celery_ts.ResourcePool.Invariant.{Inv}
use node_celery_ts.ResourcePool.Steps.{start_get-full, handed_over, return_resource-handed_over}
use node_celery_ts.ResourcePool.Service.{return_after-owned}
use node_celery_ts.Redis.Backend.{Backend, put, released}

module _ {E : Type 0} (D : Deque ℕ) where
  -- The pool when one more caller waits.
  abbrev pub queueing : World E D → World E D
  queueing w = record w {
    pool = record (w.pool) { waiting = (PromiseQueue.push Resource E D w.waiting).1 };
  }

  start_get-busy :
      (w : World E D)
      → Inv D w
      → w.max_resources ≡ 2
      → length w.in_use ≡ 2
      → (start_get E D w ≡ queueing w) × (w.granted ≡ []) × (w.creating ≡ 0)
  start_get-busy w i two busy = (
    start_get-full D w (length-nil (D.view w.unused) (omega (arith, i.counted, i.capped)))
        (omega (arith, i.counted, i.capped)),
    length-nil w.granted (omega (arith, i.counted, i.capped)),
    omega (arith, i.counted, i.capped),
  )

-- In a pool of two clients with its invariant, when both are in use, as they are when a get waits
-- for its result beside the subscriber, and nobody waits: put on the same backend sends nothing and
-- gets no client, but waits in the queue of the pool. When the get settles, it settles as before,
-- and its client is on its way to the put.
pub put_waits_for_client :
    {Wire E V : Type 0} {D : Deque ℕ} (stringify : ResultMessage V → Wire)
    (parse : Wire → Option (ResultMessage V)) (m : ResultMessage V)
    (settled : Settled (ResultMessage V) E) (r : Resource) (b : Backend Wire E D)
    → Inv D b.pool
    → b.pool.max_resources ≡ 2
    → length b.pool.in_use ≡ 2
    → Set.has r b.pool.in_use ≡ true
    → D.view b.pool.waiting.queue ≡ []
    → let b₁ = put stringify parse m b in
      let (outcome, b₂) = released settled r b₁ in
      (b₁.sent ≡ b.sent)
      × (b₁.pool.granted ≡ [])
      × (b₁.pool.creating ≡ 0)
      × (D.view b₁.pool.waiting.queue ≡ (PromiseQueue.push Resource E D b.pool.waiting).0 ∷ [])
      × (outcome ≡ settled)
      × (b₂.pool.granted ≡ r ∷ [])
      × (D.view b₂.pool.waiting.queue ≡ [])
unfolding put released
put_waits_for_client {D = D} stringify parse m settled r b i two busy owned empty =
    let (full, none_granted, none_created) = start_get-busy D b.pool i two busy in
    let w = queueing D b.pool in
    let pushed = push-IsValid D b.pool.waiting i.valid in
    let queue =
      pushed.1 ∙ ap (λ l. l ++ (PromiseQueue.push Resource _ D b.pool.waiting).0 ∷ []) empty in
    let run = return_resource-handed_over D r w _ [] owned (pushed.0) queue in
    let back = return_after-owned D settled r w (handed_over D r w) run in
    let served = settle_one-SettledFirst D (resolve r) w.waiting _ [] (pushed.0) queue in
    rw full (
      refl,
      none_granted,
      none_created,
      queue,
      ap (λ t. t.0) back,
      ap (λ t. t.1.granted) back ∙ ap (λ l. l ++ r ∷ []) none_granted,
      ap (λ t. D.view t.1.waiting.queue) back ∙ served.left,
    )
