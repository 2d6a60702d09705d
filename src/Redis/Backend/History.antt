-- ===== src/Redis/Backend/History.antt =====
-- The histories of src/redis/backend.ts: the turns of the event loop in which a backend changes.
use node_celery_ts.Prelude.{
  ℕ, ◌<◌, ◌==◌, ◌||◌, ◌&&◌, ◌≡◌, Bool, true, false, Option, some, List, [], ◌∷◌,
}
use node_celery_ts.Text.{Text}
use node_celery_ts.Text.Keys.{text_keys}
use node_celery_ts.Deque.{Deque}
use node_celery_ts.Messages.{ResultMessage}
use node_celery_ts.PromiseMap.{Awaited, fire_timer}
use node_celery_ts.ResourcePool.{Resource, Settled, created, create_failed}
use node_celery_ts.ResourcePool.Set
use node_celery_ts.ResourcePool.Steps.{occurrences}
use node_celery_ts.Redis.Backend.{
  Backend, Command, psubscribe, put, put_connected, get, get_connected, get_replied, released,
  delete, delete_connected, subscriber_connected, on_message, disconnect, end, end_unsubscribed,
  end_drained,
}
use node_celery_ts.Redis.Backend.Delivery.{come_back}

abbrev pub is_psubscribe : {Wire : Type 0} → Command Wire → Bool
is_psubscribe (psubscribe pattern) = true
is_psubscribe _ = false

-- The client subscribed, as that of `this.subscriber` has when the promise is fulfilled.
abbrev pub has_subscribed : {Wire : Type 0} → Resource → List (Resource × Command Wire) → Bool
has_subscribed r [] = false
has_subscribed r ((x, c) ∷ sent) = (r == x && is_psubscribe c) || has_subscribed r sent

module _ {Wire E V : Type 0} {D : Deque ℕ} (stringify : ResultMessage V → Wire)
    (parse : Wire → Option (ResultMessage V)) where
  -- One turn: a call of a method up to its first `await`, what a method does when the pool has a
  -- client for it, a reply comes or its promise has settled, a message of the subscription, a
  -- promise that `doResolve` waits for, a timer, or the outcome of a `createClient`.
  pub data Step (b : Backend Wire E D) : Backend Wire E D → Type 1 where
    puts : (m : ResultMessage V) → Step b (put stringify parse m b)
    puts_on :
        (r : Resource) (m : ResultMessage V)
        → Set.has r b.pool.granted ≡ true
        → Step b (put_connected stringify parse r m b)
    gets : (id : Text) → Step b (get id b).1
    gets_on :
        (r : Resource) (id : Text) → Set.has r b.pool.granted ≡ true → Step b (get_connected r id b)
    hears_reply :
        (id : Text) (reply : Option Wire) → Step b (get_replied stringify parse id reply b).1
    deletes : (id : Text) → Step b (delete id b)
    deletes_on :
        (r : Resource) (id : Text)
        → Set.has r b.pool.granted ≡ true
        → Step b (delete_connected r id b)
    subscribes :
        (r : Resource) → Set.has r b.pool.granted ≡ true → Step b (subscriber_connected r b)
    releases : {U : Type 0} (s : Settled U E) (r : Resource) → Step b (released s r b).1
    hears :
        (channel : Text) (message : Wire) {b' : Backend Wire E D}
        → on_message channel message b ≡ some b'
        → Step b b'
    comes_back : (n : ℕ) (a : Awaited Wire E) → Step b (come_back n a b)
    times_out :
        (timer : ℕ) (id : Text) → Step b (record b { results = fire_timer timer id b.results })
    creates :
        (r : Resource)
        → 0 < b.pool.creating
        → occurrences D r b.pool ≡ 0
        → Step b (record b { pool = created E D r b.pool })
    create_fails : 0 < b.pool.creating → Step b (record b { pool = create_failed E D b.pool })
    ends : (r : Resource) → has_subscribed r b.sent ≡ true → Step b (end r b)
    disconnects : (r : Resource) → has_subscribed r b.sent ≡ true → Step b (disconnect r b)
    unsubscribes :
        (r : Resource) {b' : Backend Wire E D} → end_unsubscribed r b ≡ some b' → Step b b'
    drains : (quit : Resource → Wire) → 0 < b.pool.drained → Step b (end_drained quit b)

  pub data Reach (b : Backend Wire E D) : Backend Wire E D → Type 1 where
    here : Reach b b
    next : {u v : Backend Wire E D} → Reach b u → Step u v → Reach b v
