-- ===== src/Redis/Backend/Clients.antt =====
-- What every history of a backend of src/redis/backend.ts keeps.
use node_celery_ts.Prelude.{
  ℕ, ◌≡◌, refl, sym, ap, ◌∙◌, subst, true, Option, some, none, List, [], ◌∷◌, ◌++◌, arith,
  Option-cases, inl, inr, Bool, false, if◌then◌else◌,
}
use node_celery_ts.Text.{Text, codes}
use node_celery_ts.Text.Keys.{text_keys}
use node_celery_ts.Deque.{Deque}
use node_celery_ts.Messages.{ResultMessage}
use node_celery_ts.PromiseMap
use node_celery_ts.PromiseMap.{plain}
use node_celery_ts.PromiseMap.History
use node_celery_ts.PromiseMap.History.{Event, run, run-append, OneStatus, run-OneStatus}
use node_celery_ts.ResourcePool
use node_celery_ts.ResourcePool.{Resource, Settled, new_world, return_resource, start_destroy_all}
use node_celery_ts.ResourcePool.Set
use node_celery_ts.ResourcePool.Steps
use node_celery_ts.ResourcePool.Steps.{occurrences}
use node_celery_ts.ResourcePool.Owners.{return_after-Reach}
use node_celery_ts.Sessions.{
  only-speaks, Session, Extends, IsKept, spoken, same-Extends, pool-Extends, results-Extends,
  sent-Extends, delivered-Extends, new-IsKept, Extends-IsKept, IsKept-IsOrderly, IsOrderly,
}
use node_celery_ts.Redis.Options.{RedisOptions}
use node_celery_ts.Redis.Backend.{
  Backend, Command, timeout, del_key, punsubscribe, key_prefix, new_backend, put, put_connected,
  get, get_connected, get_replied, released, delete, delete_connected, subscriber_connected,
  on_message, message_matched, match_uuid, disconnect, end, end_unsubscribed, end_drained, listen,
  is_success, reply_parsed, acquire, connected, destroy_after,
}
use node_celery_ts.Redis.Backend.History.{
  Step, puts, puts_on, gets, gets_on, hears_reply, deletes, deletes_on, subscribes, releases, hears,
  comes_back, times_out, creates, create_fails, ends, disconnects, unsubscribes, drains, Reach,
  here, next, has_subscribed,
}

has_subscribed-spoken :
    {Wire : Type 0} (r : Resource) (sent : List (Resource × Command Wire))
    → has_subscribed r sent ≡ true
    → Set.has r (spoken sent) ≡ true
has_subscribed-spoken r [] h = h
has_subscribed-spoken r ((x, c) ∷ sent) h = ground (arith, has_subscribed-spoken r sent)

module _ {Wire E : Type 0} {D : Deque ℕ} where
  abbrev pub session : Backend Wire E D → Session Text Wire E E (Command Wire) D
  session b = record { pool = b.pool; results = b.results; sent = b.sent }

  abbrev Grows : Backend Wire E D → Backend Wire E D → Type 0
  Grows b b' = Extends (session b) (session b')

  connected-Extends :
      (r : Resource) (c : Command Wire) (b : Backend Wire E D)
      → Set.has r b.pool.granted ≡ true
      → Grows b (connected r c b)
  connected-Extends r c b h =
      delivered-Extends r ((r, c) ∷ []) (session b) (only-speaks r (c ∷ [])) h

  if-Extends :
      {X : Type 0} (b : Backend Wire E D) (c : Bool) (x y : X × Backend Wire E D)
      → Grows b x.1
      → Grows b y.1
      → Grows b (if c then x else y).1
  if-Extends b true x y h k = h
  if-Extends b false x y h k = k

  acquire-Extends : (b : Backend Wire E D) → Grows b (acquire b)
  acquire-Extends b = pool-Extends _ (session b) (Steps.next Steps.here Steps.gets)

  listen-Extends : (id : Text) (b : Backend Wire E D) → Grows b (listen id b).1
  unfolding listen History.step
  listen-Extends id b = results-Extends (History.gets id) (session b) refl

  get-Extends : (id : Text) (b : Backend Wire E D) → Grows b (get id b).1
  unfolding get
  get-Extends id b =
      if-Extends b (PromiseMap.has id b.results) (some ((listen id b).0), (listen id b).1)
        (none, acquire b) (listen-Extends id b) (acquire-Extends b)

  on_message-Extends :
      (id : Option Text) (raw : Wire) (b b' : Backend Wire E D)
      → message_matched id raw b ≡ some b'
      → Grows b b'
  unfolding History.step
  on_message-Extends none raw b b' h = cc
  on_message-Extends (some id) raw b b' h =
      let same : record b { results = History.step b.results (History.resolves id (plain raw)) }
          ≡ b' =
        cc in
      subst (Grows b) same (results-Extends (History.resolves id (plain raw)) (session b) refl)

  end-Extends :
      (r : Resource) (b : Backend Wire E D) → has_subscribed r b.sent ≡ true → Grows b (end r b)
  unfolding end
  end-Extends r b h =
      let c = punsubscribe (key_prefix ++ codes "*") in
      sent-Extends r ((r, c) ∷ []) (session b) (only-speaks r (c ∷ []))
        (has_subscribed-spoken r b.sent h)

  destroy_after-Extends :
      (r : Resource) (b b' : Backend Wire E D) → end_unsubscribed r b ≡ some b' → Grows b b'
  unfolding end_unsubscribed
  destroy_after-Extends r b b' h = elim (Option-cases (return_resource E D r b.pool)) [
    | inl foreign ↦
        let refused : none ≡ some b' = ap (λ o. destroy_after o b) (sym foreign) ∙ h in cc
    | inr (w, run) ↦
        let same : some (record b { pool = start_destroy_all E D w }) ≡ some b' =
          ap (λ o. destroy_after o b) (sym run) ∙ h in
        let same' : record b { pool = start_destroy_all E D w } ≡ b' = cc in
        subst (Grows b) same' (
          pool-Extends _ (session b)
            (Steps.next (Steps.next Steps.here (Steps.returns r run)) Steps.starts_destroy_all))
  ]

module _ {Wire E V : Type 0} {D : Deque ℕ} (stringify : ResultMessage V → Wire)
    (parse : Wire → Option (ResultMessage V)) where
  reply_parsed-Extends :
      (id : Text) (m : Option (ResultMessage V)) (b : Backend Wire E D)
      → Grows b (reply_parsed stringify parse id m b).1
  unfolding reply_parsed
  reply_parsed-Extends id none b = same-Extends (session b)
  reply_parsed-Extends id (some m) b =
      if-Extends b (is_success m.status) _ _ (same-Extends (session b)) (listen-Extends id b)

  get_replied-Extends :
      (id : Text) (reply : Option Wire) (b : Backend Wire E D)
      → Grows b (get_replied stringify parse id reply b).1
  unfolding get_replied
  get_replied-Extends id none b = listen-Extends id b
  get_replied-Extends id (some raw) b = reply_parsed-Extends id (parse raw) b

  Step-Extends : (b b' : Backend Wire E D) → Step stringify parse b b' → Grows b b'
  unfolding put put_connected get_connected delete delete_connected subscriber_connected released
      disconnect end_drained History.step run match_uuid on_message ResourcePool.finish_destroy_all
  Step-Extends b b' (puts m) = acquire-Extends b
  Step-Extends b b' (puts_on r m h) = connected-Extends r _ b h
  Step-Extends b b' (gets id) = get-Extends id b
  Step-Extends b b' (gets_on r id h) = connected-Extends r _ b h
  Step-Extends b b' (hears_reply id reply) = get_replied-Extends id reply b
  Step-Extends b b' (deletes id) = acquire-Extends b
  Step-Extends b b' (deletes_on r id h) =
      let c = connected-Extends r (del_key id) b h in
      record { pool = c.pool; results = (History.deletes id ∷ [], refl, refl); speaks = c.speaks }
  Step-Extends b b' (subscribes r h) = connected-Extends r _ b h
  Step-Extends b b' (releases s r) = pool-Extends _ (session b) (return_after-Reach s r b.pool)
  Step-Extends b b' (hears channel raw h) = on_message-Extends (match_uuid channel) raw b b' h
  Step-Extends b b' (comes_back n a) = results-Extends (History.comes_back n a) (session b) refl
  Step-Extends b b' (times_out t id) = results-Extends (History.fires t id) (session b) refl
  Step-Extends b b' (creates r h new) =
      pool-Extends _ (session b) (Steps.next Steps.here (Steps.creates r h new))
  Step-Extends b b' (create_fails h) =
      pool-Extends _ (session b) (Steps.next Steps.here (Steps.create_fails h))
  Step-Extends b b' (ends r h) = end-Extends r b h
  Step-Extends b b' (disconnects r h) = end-Extends r b h
  Step-Extends b b' (unsubscribes r h) = destroy_after-Extends r b b' h
  Step-Extends b b' (drains quit h) =
      pool-Extends _ (session b) (Steps.next Steps.here (Steps.finishes_destroy_all h))

  Reach-IsKept :
      (b b' : Backend Wire E D)
      → Reach stringify parse b b'
      → IsKept 2 (session b)
      → IsKept 2 (session b')
  Reach-IsKept b b' here k = k
  Reach-IsKept b b' (next {u} r s) k =
      Extends-IsKept 2 (session u) (session b') (Step-Extends u b' s) (Reach-IsKept b u r k)

new_backend-IsKept :
    {Wire E : Type 0} {D : Deque ℕ} (options : Option RedisOptions)
    → IsKept 2 (session (new_backend {Wire = Wire} {E = E} {D = D} options))
unfolding new_backend
new_backend-IsKept options = new-IsKept 2 (some timeout)

-- After any sequence of turns of a new backend, in which the calls of its methods, the replies of
-- Redis, its messages, the timers and the outcomes of `createClient` come in any order: its pool
-- keeps the invariant, its map keeps `promises` and `data` together, and every timer that may fire
-- is that of the entry that its key has now. Each client that a command went to is in exactly one
-- place of the pool, and there are at most two of them.
pub reachable-IsOrderly :
    {Wire E V : Type 0} {D : Deque ℕ} (stringify : ResultMessage V → Wire)
    (parse : Wire → Option (ResultMessage V)) (options : Option RedisOptions) (b : Backend Wire E D)
    → Reach stringify parse (new_backend options) b
    → IsOrderly 2 (session b)
reachable-IsOrderly stringify parse options b r =
    IsKept-IsOrderly 2 (session b)
      (Reach-IsKept stringify parse (new_backend options) b r (new_backend-IsKept options))
