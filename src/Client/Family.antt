-- ===== src/Client/Family.antt =====
-- The tasks that a client of src/client.ts makes: all of them share the index of its round-robin
-- strategy, and publish as tryPublish of src/task.ts does.
use node_celery_ts.Prelude.{
  ℕ, zero, suc, ◌+◌, ◌%◌, ◌<◌, ◌==◌, ◌≡◌, inl, inr, refl, sym, ap, ◌∙◌, subst, Option, some, List,
  [], ◌∷◌, ◌++◌, length, arith, All,
}
use node_celery_ts.Text.{Text}
use node_celery_ts.Text.Laws.{if-else}
use node_celery_ts.Task.{Task, new_task}
use node_celery_ts.Task.Publish.{Response, ResultBackend, call_publish, try_publish}
use node_celery_ts.Task.Failover.{try_publish-returned, try_publish-thrown, Response-cases}
use node_celery_ts.Client.{
  Client, ClientOptions, broker_at, next_index, get_round_robin_strategy, new_client, create_task,
}

-- A client with the tasks that it has made.
pub record Family (Broker Backend : Type 0) : Type 0 where
  pub client : Client Broker Backend (Option ℕ)
  pub tasks : List (Task Broker (ResultBackend Backend))

unfoldable pub new_family :
    {Broker Backend : Type 0} → ClientOptions Broker Backend → Family Broker Backend
unfolding new_client
new_family o = record { client = new_client o; tasks = [] }

-- The index of the closure is that of a broker.
abbrev pub IsIndex : ℕ → Option ℕ → Type 0
IsIndex n s = (i : ℕ) × (s ≡ some i) × (i < n)

next_index-IsIndex : (n : ℕ) (s : Option ℕ) → IsIndex n s → IsIndex n (next_index n s)
unfolding next_index
next_index-IsIndex n s (i, e, h) =
    ((i + 1) % n, ap (next_index n) e ∙ if-else (n == 0) _ _ (ground arith), omega arith)

-- A member of a list all of whose members have a property, and another in its place.
pub All-member :
    {A : Type 0} (P : A → Type 0) (before : List A) (a : A) (after : List A)
    → All P (before ++ a ∷ after)
    → P a
All-member P [] a after h = h.0
All-member P (x ∷ before) a after h = All-member P before a after h.1

All-replace :
    {A : Type 0} (P : A → Type 0) (before : List A) (a b : A) (after : List A)
    → P b
    → All P (before ++ a ∷ after)
    → All P (before ++ b ∷ after)
All-replace P [] a b after p h = (p, h.1)
All-replace P (x ∷ before) a b after p h = (h.0, All-replace P before a b after p h.1)

module _ {Broker Backend Message P W : Type 0}
    (publish : Broker → Message → W → Response P × W) where
  -- The client makes a task, or one of its tasks publishes a message, in any state of the brokers.
  pub data Step (f : Family Broker Backend) : Family Broker Backend → Type 0 where
    makes :
        (name : Text)
        → Step f (
            let (task, client) = create_task name f.client in
            record { client = client; tasks = task ∷ f.tasks })
    publishes :
        (before after : List (Task Broker (ResultBackend Backend)))
        (t t' : Task Broker (ResultBackend Backend)) (fuel : ℕ) (message : Message) (w w' : W)
        (p : P) (s : Option ℕ)
        → f.tasks ≡ before ++ t ∷ after
        → try_publish f.client.failover_strategy publish fuel message t f.client.strategy_state w
          ≡ some (p, t', s, w')
        → Step f (record {
          client = record (f.client) { strategy_state = s };
          tasks = before ++ t' ∷ after;
        })

  pub data Reach (f : Family Broker Backend) : Family Broker Backend → Type 0 where
    here : Reach f f
    next : {g h : Family Broker Backend} → Reach f g → Step g h → Reach f h

  -- What publishing leaves of a task and the index.
  try_publish-keeps :
      (n fuel : ℕ) (message : Message) (t t' : Task Broker (ResultBackend Backend))
      (s s' : Option ℕ) (w w' : W) (p : P)
      → IsIndex n s
      → try_publish (get_round_robin_strategy n) publish fuel message t s w ≡ some (p, t', s', w')
      → (t'.brokers ≡ t.brokers) × IsIndex n s'
  unfolding get_round_robin_strategy try_publish
  try_publish-keeps n zero message t t' s s' w w' p i e = absurd (cc e)
  try_publish-keeps n (suc fuel) message t t' s s' w w' p i e =
      elim (Response-cases (call_publish publish t.broker message w)) [
        | inl (q, v, r) ↦
            (let same = sym (try_publish-returned _ publish fuel message t s w q v r) ∙ e in
              let kept : t ≡ t' = cc same in
              let index : s ≡ s' = cc same in
              (ap (λ x. x.brokers) (sym kept), subst (IsIndex n) index i))
        | inr (v, r) ↦
            try_publish-keeps n fuel message (record t { broker = broker_at t.brokers s }) t'
              (next_index n s) s' v w' p (next_index-IsIndex n s i)
              (sym (try_publish-thrown _ publish fuel message t s w v r) ∙ e)
      ]

  -- Every task has the brokers of the client, and the index is that of one of them.
  abbrev pub IsFamily : List Broker → Family Broker Backend → Type 0
  IsFamily brokers f =
      (f.client.failover_strategy ≡ get_round_robin_strategy (length brokers))
      × (f.client.brokers ≡ brokers)
      × IsIndex (length brokers) f.client.strategy_state
      × All (λ t. t.brokers ≡ brokers) f.tasks

  Step-IsFamily :
      (brokers : List Broker) {f g : Family Broker Backend}
      → Step f g
      → IsFamily brokers f
      → IsFamily brokers g
  unfolding create_task new_task get_round_robin_strategy
  Step-IsFamily brokers {f} (makes name) (strategy, same, i, all) = (
    strategy,
    same,
    subst (IsIndex (length brokers))
        (sym (ap (λ x. (x f.client.brokers f.client.strategy_state).1) strategy))
        (next_index-IsIndex (length brokers) f.client.strategy_state i),
    (same, all),
  )
  Step-IsFamily brokers {f} (publishes before after t t' fuel message w w' p s member e)
        (strategy, same, i, all) =
      let members = subst (All (λ x. x.brokers ≡ brokers)) member all in
      let kept =
        try_publish-keeps (length brokers) fuel message t t' f.client.strategy_state s w w' p i (
          subst
            (λ x.
              try_publish x publish fuel message t f.client.strategy_state w ≡ some (p, t', s, w'))
            strategy e) in
      (
        strategy,
        same,
        kept.1,
        All-replace (λ x. x.brokers ≡ brokers) before t t' after
            (kept.0 ∙ All-member (λ x. x.brokers ≡ brokers) before t after members) members,
      )

  pub Reach-IsFamily :
      (o : ClientOptions Broker Backend) (f : Family Broker Backend)
      → 0 < length o.brokers
      → Reach (new_family o) f
      → IsFamily o.brokers f
  unfolding new_family new_client
  Reach-IsFamily o f h here = (refl, refl, (0, refl, h), tt)
  Reach-IsFamily o f h (next turns step) = Step-IsFamily o.brokers step (Reach-IsFamily o _ h turns)
