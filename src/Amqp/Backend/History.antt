-- ===== src/Amqp/Backend/History.antt =====
-- The histories of src/amqp/backend.ts: the turns of the event loop in which a backend changes.
use node_celery_ts.Prelude.{ℕ, ◌<◌, ◌≡◌, true, Option, some, List}
use node_celery_ts.Text.{Text}
use node_celery_ts.Text.Keys.{text_keys}
use node_celery_ts.Deque.{Deque}
use node_celery_ts.Messages.{ResultMessage}
use node_celery_ts.PromiseMap.{Awaited, fire_timer, finish_resolve}
use node_celery_ts.ResourcePool.{Resource, Settled, created, create_failed, return_after}
use node_celery_ts.ResourcePool.Set
use node_celery_ts.ResourcePool.Steps.{occurrences}
use node_celery_ts.Amqp.Channels.{Answers, Command}
use node_celery_ts.Amqp.Backend.{
  Backend, Codec, Message, Failure, put, put_connected, get, delete, consumer_connected,
  create_consumer, on_message, sending, disconnect, end, end_cancelled, end_drained,
}
use node_celery_ts.Sessions.{spoken}

module _ {V Buffer : Type 0} {D : Deque ℕ} (C : Codec V Buffer) where
  -- One turn: a call of a method up to its first `await`, what `put` does when the pool has a
  -- channel for it, what it writes when it goes on after a reply or a "drain" event, and the end of
  -- its promise, what the consumer does, a message, a promise that `doResolve` waits for, a timer,
  -- or the outcome of a creation of a channel.
  pub data Step (b : Backend Buffer D) : Backend Buffer D → Type 0 where
    puts : (m : ResultMessage V) → Step b (put m b)
    puts_on :
        (r : Resource) (m : ResultMessage V) (answers : Answers Failure)
        → Set.has r b.channels.granted ≡ true
        → Step b (put_connected C r m answers b).1
    goes_on :
        (r : Resource) (cs : List (Command Buffer))
        → Set.has r b.channels.in_use ≡ true
        → Step b (sending r cs b)
    releases :
        (s : Settled Text Failure) (r : Resource)
        → Step b (record b { channels = (return_after Failure D s r b.channels).1 })
    disconnects :
        (r : Resource) (tag : Text) → Set.has r (spoken b.sent) ≡ true → Step b (disconnect r tag b)
    consumes :
        (r : Resource) → Set.has r b.channels.granted ≡ true → Step b (consumer_connected r b)
    creates_consumer :
        (r : Resource) → Set.has r (spoken b.sent) ≡ true → Step b (create_consumer r b)
    gets : (id : Text) → Step b (get id b).1
    deletes : (id : Text) → Step b (delete id b).1
    hears : (message : Option (Message Buffer)) → Step b (on_message message b)
    comes_back :
        (n : ℕ) (a : Awaited (Message Buffer) Failure)
        → Step b (record b { promises = finish_resolve n a b.promises })
    times_out :
        (timer : ℕ) (id : Text) → Step b (record b { promises = fire_timer timer id b.promises })
    creates :
        (r : Resource)
        → 0 < b.channels.creating
        → occurrences D r b.channels ≡ 0
        → Step b (record b { channels = created Failure D r b.channels })
    create_fails :
        0 < b.channels.creating
        → Step b (record b { channels = create_failed Failure D b.channels })
    ends : (r : Resource) (tag : Text) → Set.has r (spoken b.sent) ≡ true → Step b (end r tag b)
    cancels : (r : Resource) {b' : Backend Buffer D} → end_cancelled r b ≡ some b' → Step b b'
    drains : 0 < b.channels.drained → Step b (end_drained b)

  pub data Reach (b : Backend Buffer D) : Backend Buffer D → Type 0 where
    here : Reach b b
    next : {u v : Backend Buffer D} → Reach b u → Step u v → Reach b v
