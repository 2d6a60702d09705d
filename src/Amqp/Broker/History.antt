-- ===== src/Amqp/Broker/History.antt =====
-- The histories of src/amqp/broker.ts, and what each of them keeps. Broker has no results, so that
-- its session has an empty map.
use node_celery_ts.Prelude.{ℕ, ◌<◌, ◌≡◌, true, Option, none, some, List, ◌++◌, map, refl}
use node_celery_ts.Text.{Text}
use node_celery_ts.Text.Keys.{text_keys}
use node_celery_ts.Deque.{Deque}
use node_celery_ts.Messages.{TaskMessage, ContentEncodingMime}
use node_celery_ts.Objects.{Object}
use node_celery_ts.PromiseMap.{new_map}
use node_celery_ts.ResourcePool
use node_celery_ts.ResourcePool.{
  Resource, Settled, created, create_failed, return_after, use_resource, settle_use, deliver,
}
use node_celery_ts.ResourcePool.Set
use node_celery_ts.ResourcePool.Steps
use node_celery_ts.ResourcePool.Steps.{occurrences}
use node_celery_ts.ResourcePool.Invariant.{new_world-Inv}
use node_celery_ts.ResourcePool.Owners.{return_after-Reach}
use node_celery_ts.PromiseMap.Firing.{new_map-Safe}
use node_celery_ts.Sessions.{
  Session, Extends, IsKept, IsOrderly, only-speaks, pool-Extends, used-Extends, delivered-Extends,
  Extends-IsKept, IsKept-IsOrderly,
}
use node_celery_ts.Amqp.Channels.{Answers, Command}
use node_celery_ts.Amqp.Broker.{
  Broker, new_broker, used, publish, publish_on, publish_connected, end, disconnect, end_drained,
}

module _ {Wire Buffer E : Type 0} {D : Deque ℕ} (from : Wire → ContentEncodingMime → Buffer) where
  -- One turn: a call of a method up to its first `await`, what `publish` does when the pool has a
  -- channel for it, what it sends when it goes on after a reply or a "drain" event, and the end of
  -- its promise, or the outcome of a creation of a channel.
  pub data Step (b : Broker Buffer E D) : Broker Buffer E D → Type 0 where
    publishes : (m : TaskMessage Wire) → Step b (publish from m b)
    publishes_on :
        (r : Resource) (m : TaskMessage Wire) (answers : Answers E)
        → Set.has r b.channels.granted ≡ true
        → Step b (publish_connected from r m answers b).1
    goes_on :
        (r : Resource) (cs : List (Command Buffer))
        → Set.has r b.channels.in_use ≡ true
        → Step b (record b { sent = b.sent ++ map (λ c. (r, c)) cs })
    releases :
        (s : Settled Text E) (r : Resource)
        → Step b (record b { channels = (return_after E D s r b.channels).1 })
    creates :
        (r : Resource)
        → 0 < b.channels.creating
        → occurrences D r b.channels ≡ 0
        → Step b (record b { channels = created E D r b.channels })
    create_fails :
        0 < b.channels.creating → Step b (record b { channels = create_failed E D b.channels })
    ends : Step b (end b)
    disconnects : Step b (disconnect b)
    drains : 0 < b.channels.drained → Step b (end_drained b)

  pub data Reach (b : Broker Buffer E D) : Broker Buffer E D → Type 0 where
    here : Reach b b
    next : {u v : Broker Buffer E D} → Reach b u → Step u v → Reach b v

module _ {Buffer E : Type 0} {D : Deque ℕ} where
  abbrev pub session : Broker Buffer E D → Session Text (Unit {0}) (Unit {0}) E (Command Buffer) D
  session b = record { pool = b.channels; results = new_map none; sent = b.sent }

  abbrev Keeps : Broker Buffer E D → Type 0
  Keeps b = IsKept 2 (session b)

  Grows-Keeps : (b b' : Broker Buffer E D) → Extends (session b) (session b') → Keeps b → Keeps b'
  Grows-Keeps b b' = Extends-IsKept 2 (session b) (session b')

  used-IsKept :
      (r : Resource) (cs : List (Command Buffer)) (s : Option (Settled Text E))
      (b : Broker Buffer E D)
      → Set.has r b.channels.granted ≡ true
      → Keeps b
      → Keeps (used r cs s b).1
  unfolding use_resource settle_use
  used-IsKept r cs none b h k =
      Extends-IsKept 2 (session b) _
        (delivered-Extends r (map (λ c. (r, c)) cs) (session b) (only-speaks r cs) h) k
  used-IsKept r cs (some s) b h k =
      let b' = record b {
        channels = deliver E D r b.channels;
        sent = b.sent ++ map (λ c. (r, c)) cs;
      } in
      Extends-IsKept 2 (session b') _
        (pool-Extends _ (session b') (return_after-Reach s r b'.channels))
        (Extends-IsKept 2 (session b) (session b')
          (delivered-Extends r (map (λ c. (r, c)) cs) (session b) (only-speaks r cs) h) k)

  turn-IsKept :
      (p : ResourcePool.World E D) (b : Broker Buffer E D)
      → Steps.Step D b.channels p
      → Keeps b
      → Keeps (record b { channels = p })
  turn-IsKept p b s =
      Grows-Keeps b (record b { channels = p })
        (pool-Extends p (session b) (Steps.next Steps.here s))

module _ {Wire Buffer E : Type 0} {D : Deque ℕ} (from : Wire → ContentEncodingMime → Buffer) where
  Step-IsKept : (b b' : Broker Buffer E D) → Step from b b' → Keeps b → Keeps b'
  unfolding publish publish_connected end disconnect end_drained ResourcePool.finish_destroy_all
  Step-IsKept b b' (publishes m) = turn-IsKept _ b Steps.gets
  Step-IsKept b b' (publishes_on r m answers h) =
      let (settled, commands) = publish_on from m answers in used-IsKept r commands settled b h
  Step-IsKept b b' (goes_on r cs h) =
      Grows-Keeps b b' (used-Extends r (map (λ c. (r, c)) cs) (session b) (only-speaks r cs) h)
  Step-IsKept b b' (releases s r) =
      Grows-Keeps b b' (pool-Extends _ (session b) (return_after-Reach s r b.channels))
  Step-IsKept b b' (creates r h new) = turn-IsKept _ b (Steps.creates r h new)
  Step-IsKept b b' (create_fails h) = turn-IsKept _ b (Steps.create_fails h)
  Step-IsKept b b' ends = turn-IsKept _ b Steps.starts_destroy_all
  Step-IsKept b b' disconnects = turn-IsKept _ b Steps.starts_destroy_all
  Step-IsKept b b' (drains h) =
      Grows-Keeps b b'
        (pool-Extends _ (session b) (Steps.next Steps.here (Steps.finishes_destroy_all h)))

  Reach-IsKept : (b b' : Broker Buffer E D) → Reach from b b' → Keeps b → Keeps b'
  Reach-IsKept b b' here k = k
  Reach-IsKept b b' (next {u} r s) k = Step-IsKept u b' s (Reach-IsKept b u r k)

new_broker-IsKept :
    {Buffer E : Type 0} {D : Deque ℕ} (options : Option Object)
    → IsKept 2 (session (new_broker {Buffer = Buffer} {E = E} {D = D} options))
unfolding new_broker ResourcePool.new_world
new_broker-IsKept {D = D} options = record {
  pool = new_world-Inv D 2;
  limit = refl;
  results = new_map-Safe none;
  owned = λ a h. cc;
}

-- After any sequence of turns of a new AmqpBroker, in which the calls of its methods, the answers
-- of its channels and the outcomes of `createChannel` come in any order: its pool keeps the
-- invariant, each channel that a command went to is in exactly one place of the pool, and there are
-- at most two of them.
pub reachable_broker-IsOrderly :
    {Wire Buffer E : Type 0} {D : Deque ℕ} (from : Wire → ContentEncodingMime → Buffer)
    (options : Option Object) (b : Broker Buffer E D)
    → Reach from (new_broker options) b
    → IsOrderly 2 (session b)
reachable_broker-IsOrderly from options b r =
    IsKept-IsOrderly 2 (session b)
      (Reach-IsKept from (new_broker options) b r (new_broker-IsKept options))
