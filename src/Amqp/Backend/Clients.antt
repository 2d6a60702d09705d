-- ===== src/Amqp/Backend/Clients.antt =====
-- What every history of a backend of src/amqp/backend.ts keeps.
use node_celery_ts.Prelude.{
  ℕ, ◌≡◌, refl, sym, ap, ◌∙◌, subst, true, Option, some, none, List, [], ◌∷◌, map, Option-cases,
  inl, inr,
}
use node_celery_ts.Text.{Text}
use node_celery_ts.Text.Keys.{text_keys}
use node_celery_ts.Objects.{Object}
use node_celery_ts.Deque.{Deque}
use node_celery_ts.PromiseMap
use node_celery_ts.PromiseMap.{plain, given}
use node_celery_ts.PromiseMap.History
use node_celery_ts.ResourcePool
use node_celery_ts.ResourcePool.{
  Resource, Settled, deliver, return_resource, return_after, use_resource, settle_use,
  start_destroy_all,
}
use node_celery_ts.ResourcePool.Set
use node_celery_ts.ResourcePool.Steps
use node_celery_ts.ResourcePool.Owners.{return_after-Reach}
use node_celery_ts.Sessions.{
  only-speaks, used-Extends as using-Extends, Session, Extends, IsKept, IsOrderly, spoken,
  pool-Extends, results-Extends, sent-Extends, delivered-Extends, new-IsKept, Extends-IsKept,
  IsKept-IsOrderly,
}
use node_celery_ts.Amqp.Channels.{Command, cancel, consume}
use node_celery_ts.Amqp.Backend.{
  Backend, Codec, Message, Failure, new_backend, disconnecting, cancelled_consumer, put, used,
  sending, put_connected, put_on, get, delete, consumer_connected, create_consumer, assert_queue,
  on_message, disconnect, end, end_cancelled, end_drained, destroy_after,
}
use node_celery_ts.Amqp.Backend.History.{
  Step, puts, puts_on, goes_on, releases, disconnects, consumes, creates_consumer, gets, deletes,
  hears, comes_back, times_out, creates, create_fails, ends, cancels, drains, Reach, here, next,
}

module _ {Buffer : Type 0} {D : Deque ℕ} where
  abbrev pub session :
      Backend Buffer D → Session Text (Message Buffer) Failure Failure (Command Buffer) D
  session b = record { pool = b.channels; results = b.promises; sent = b.sent }

  abbrev Grows : Backend Buffer D → Backend Buffer D → Type 0
  Grows b b' = Extends (session b) (session b')

  abbrev Keeps : Backend Buffer D → Type 0
  Keeps b = IsKept 2 (session b)

  Grows-Keeps : (b b' : Backend Buffer D) → Grows b b' → Keeps b → Keeps b'
  Grows-Keeps b b' = Extends-IsKept 2 (session b) (session b')

  connected-Extends :
      (r : Resource) (cs : List (Command Buffer)) (b : Backend Buffer D)
      → Set.has r b.channels.granted ≡ true
      → Grows b (sending r cs (record b { channels = deliver Failure D r b.channels }))
  connected-Extends r cs b h =
      delivered-Extends r (map (λ c. (r, c)) cs) (session b) (only-speaks r cs) h

  sending-Extends :
      (r : Resource) (cs : List (Command Buffer)) (b : Backend Buffer D)
      → Set.has r (spoken b.sent) ≡ true
      → Grows b (sending r cs b)
  sending-Extends r cs b h = sent-Extends r (map (λ c. (r, c)) cs) (session b) (only-speaks r cs) h

  used-IsKept :
      (r : Resource) (cs : List (Command Buffer)) (s : Option (Settled Text Failure))
      (b : Backend Buffer D)
      → Set.has r b.channels.granted ≡ true
      → Keeps b
      → Keeps (used r cs s b).1
  unfolding use_resource settle_use
  used-IsKept r cs none b h k = Extends-IsKept 2 (session b) _ (connected-Extends r cs b h) k
  used-IsKept r cs (some s) b h k =
      let b' = sending r cs (record b { channels = deliver Failure D r b.channels }) in
      Extends-IsKept 2 (session b') _
        (pool-Extends _ (session b') (return_after-Reach s r b'.channels))
        (Grows-Keeps b b' (connected-Extends r cs b h) k)

  hears-Extends :
      (message : Option (Message Buffer)) (b : Backend Buffer D) → Grows b (on_message message b)
  unfolding on_message History.step
  hears-Extends none b =
      results-Extends (History.rejects_all (given cancelled_consumer)) (session b) refl
  hears-Extends (some m) b =
      results-Extends (History.resolves m.correlation_id (plain m)) (session b) refl

  end-IsKept :
      (r : Resource) (tag : Text) (b : Backend Buffer D)
      → Set.has r (spoken b.sent) ≡ true
      → Keeps b
      → Keeps (end r tag b)
  unfolding end History.step
  end-IsKept r tag b h k =
      let b' = record b { promises = (PromiseMap.reject_all (given disconnecting) b.promises).1 } in
      Extends-IsKept 2 (session b') _ (sending-Extends r (cancel tag ∷ []) b' h) (
        Grows-Keeps b b'
          (results-Extends (History.rejects_all (given disconnecting)) (session b) refl) k)

  end_cancelled-Extends :
      (r : Resource) (b b' : Backend Buffer D) → end_cancelled r b ≡ some b' → Grows b b'
  unfolding end_cancelled
  end_cancelled-Extends r b b' h = elim (Option-cases (return_resource Failure D r b.channels)) [
    | inl foreign ↦
        let refused : none ≡ some b' = ap (λ o. destroy_after o b) (sym foreign) ∙ h in cc
    | inr (w, run) ↦
        let same : some (record b { channels = start_destroy_all Failure D w }) ≡ some b' =
          ap (λ o. destroy_after o b) (sym run) ∙ h in
        let same' : record b { channels = start_destroy_all Failure D w } ≡ b' = cc in
        subst (Grows b) same' (
          pool-Extends _ (session b)
            (Steps.next (Steps.next Steps.here (Steps.returns r run)) Steps.starts_destroy_all))
  ]

module _ {V Buffer : Type 0} {D : Deque ℕ} (C : Codec V Buffer) where
  Step-IsKept : (b b' : Backend Buffer D) → Step C b b' → Keeps b → Keeps b'
  unfolding put put_connected get delete consumer_connected create_consumer end_drained disconnect
      History.step ResourcePool.finish_destroy_all
  Step-IsKept b b' (puts m) =
      Grows-Keeps b b' (pool-Extends _ (session b) (Steps.next Steps.here Steps.gets))
  Step-IsKept b b' (puts_on r m answers h) =
      let (settled, commands) = put_on C b.routing_key m answers in
      used-IsKept r commands settled b h
  Step-IsKept b b' (goes_on r cs h) =
      Grows-Keeps b b' (using-Extends r (map (λ c. (r, c)) cs) (session b) (only-speaks r cs) h)
  Step-IsKept b b' (releases s r) =
      Grows-Keeps b b' (pool-Extends _ (session b) (return_after-Reach s r b.channels))
  Step-IsKept b b' (disconnects r tag h) = end-IsKept r tag b h
  Step-IsKept b b' (consumes r h) =
      Grows-Keeps b b' (connected-Extends r (assert_queue b.routing_key ∷ []) b h)
  Step-IsKept b b' (creates_consumer r h) =
      Grows-Keeps b b' (sending-Extends r (consume b.routing_key true ∷ []) b h)
  Step-IsKept b b' (gets id) = Grows-Keeps b b' (results-Extends (History.gets id) (session b) refl)
  Step-IsKept b b' (deletes id) =
      Grows-Keeps b b' (results-Extends (History.deletes id) (session b) refl)
  Step-IsKept b b' (hears message) = Grows-Keeps b b' (hears-Extends message b)
  Step-IsKept b b' (comes_back n a) =
      Grows-Keeps b b' (results-Extends (History.comes_back n a) (session b) refl)
  Step-IsKept b b' (times_out t id) =
      Grows-Keeps b b' (results-Extends (History.fires t id) (session b) refl)
  Step-IsKept b b' (creates r h new) =
      Grows-Keeps b b' (pool-Extends _ (session b) (Steps.next Steps.here (Steps.creates r h new)))
  Step-IsKept b b' (create_fails h) =
      Grows-Keeps b b' (pool-Extends _ (session b) (Steps.next Steps.here (Steps.create_fails h)))
  Step-IsKept b b' (ends r tag h) = end-IsKept r tag b h
  Step-IsKept b b' (cancels r h) = Grows-Keeps b b' (end_cancelled-Extends r b b' h)
  Step-IsKept b b' (drains h) =
      Grows-Keeps b b'
        (pool-Extends _ (session b) (Steps.next Steps.here (Steps.finishes_destroy_all h)))

  Reach-IsKept : (b b' : Backend Buffer D) → Reach C b b' → Keeps b → Keeps b'
  Reach-IsKept b b' here k = k
  Reach-IsKept b b' (next {u} r s) k = Step-IsKept u b' s (Reach-IsKept b u r k)

new_backend-IsKept :
    {Buffer : Type 0} {D : Deque ℕ} (routing_key : Text) (options : Option Object)
    → IsKept 2 (session (new_backend {Buffer = Buffer} {D = D} routing_key options))
unfolding new_backend
new_backend-IsKept routing_key options = new-IsKept 2 (some 86400000)

-- After any sequence of turns of a new backend, in which the calls of its methods, the messages of
-- its consumer, the timers and the outcomes of `createChannel` come in any order: its pool keeps
-- the invariant, its map keeps `promises` and `data` together, and every timer that may fire is
-- that of the entry that its key has now. Each channel that a command went to is in exactly one
-- place of the pool, and there are at most two of them.
pub reachable_backend-IsOrderly :
    {V Buffer : Type 0} {D : Deque ℕ} (C : Codec V Buffer) (routing_key : Text)
    (options : Option Object) (b : Backend Buffer D)
    → Reach C (new_backend routing_key options) b
    → IsOrderly 2 (session b)
reachable_backend-IsOrderly C routing_key options b r =
    IsKept-IsOrderly 2 (session b) (
      Reach-IsKept C (new_backend routing_key options) b r (new_backend-IsKept routing_key options))
