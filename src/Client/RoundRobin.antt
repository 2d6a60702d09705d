-- ===== src/Client/RoundRobin.antt =====
-- The round-robin strategy of src/client.ts with the failover of src/task.ts.
use node_celery_ts.Prelude.{
  ℕ, zero, suc, ◌+◌, ◌-◌, ◌%◌, ◌<◌, ◌==◌, ltb, leb, ◌≡◌, ◌⊎◌, inl, inr, refl, ap, ◌∙◌, subst, All,
  ◌++◌, Option, some, List, [], ◌∷◌, arith, Bool-cases, get_elem?, length,
}
use native.Mathlib.Nat.{mod-eq_of_lt, mod_self}
use node_celery_ts.Text.{Text}
use node_celery_ts.Messages.{TaskMessage}
use node_celery_ts.Packer.{Libraries}
use node_celery_ts.Task.{Task, Host, TaskApplyOptions, publish_options}
use node_celery_ts.Task.Publish.{
  Response, returned, ResultBackend, call_publish, try_publish, apply_async, publish_message,
  applied, result_of,
}
use node_celery_ts.Client.Family.{Family, new_family, Reach, Reach-IsFamily, All-member}
use node_celery_ts.Text.Laws.{if-else}
use node_celery_ts.Task.Failover.{try_publish-returned, try_publish-thrown, Response-cases}
use node_celery_ts.Client.{ClientOptions, broker_at, next_index, get_round_robin_strategy}

next_index-lt : (n i : ℕ) → i + 1 < n → next_index n (some i) ≡ some (i + 1)
unfolding next_index
next_index-lt n i h = if-else (n == 0) _ _ (ground arith) ∙ ap some (mod-eq_of_lt h)

next_index-last : (n i : ℕ) → i + 1 ≡ n → next_index n (some i) ≡ some 0
unfolding next_index
next_index-last n i h =
    if-else (n == 0) _ _ (ground arith) ∙ ap some (ap (λ k. k % n) h ∙ mod_self n)

lt-get_elem? : {A : Type 0} (k : ℕ) (xs : List A) {a : A} → get_elem? xs k ≡ some a → k < length xs
lt-get_elem? k [] h = absurd (ground arith)
lt-get_elem? zero (x ∷ xs) h = omega arith
lt-get_elem? (suc k) (x ∷ xs) h = omega (arith, lt-get_elem? k xs h)

-- From index `i` the index `k` is reached in `d` steps of the strategy.
abbrev Ahead : ℕ → ℕ → ℕ → ℕ → Type 0
Ahead n k i d = (i < n) × ((i + d ≡ k) ⊎ (i + d ≡ n + k))

next_index-Ahead :
    (n k i d : ℕ)
    → k < n
    → Ahead n k i (suc d)
    → (j : ℕ) × (next_index n (some i) ≡ some j) × Ahead n k j d
next_index-Ahead n k i d hk (hi, inl e) =
    (i + 1, next_index-lt n i (omega arith), (omega arith, inl (omega arith)))
next_index-Ahead n k i d hk (hi, inr e) = elim (Bool-cases (ltb (i + 1) n)) [
  | inl b ↦ (i + 1, next_index-lt n i (ground arith), (ground arith, inr (omega arith)))
  | inr b ↦ (0, next_index-last n i (ground arith), (omega arith, inl (ground arith)))
]

-- The index is `k` after enough steps, fewer than there are brokers.
distance : (n k i : ℕ) → i < n → k < n → (d : ℕ) × Ahead n k i d × (d < n)
distance n k i hi hk = elim (Bool-cases (leb i k)) [
  | inl b ↦ (k - i, (hi, inl (ground arith)), ground arith)
  | inr b ↦ (n - i + k, (hi, inr (ground arith)), ground arith)
]

-- The broker answers every call with a promise.
abbrev pub Accepts :
    {Broker Message P W : Type 0}
    → (Broker → Message → W → Response P × W)
    → Message
    → Broker
    → Type 0
Accepts {P} {W} publish message b =
    (w : W) → (p : P) × (w' : W) × (publish b message w ≡ (returned p, w'))

abbrev pub Ends : {A : Type 0} → Option A → Type 0
Ends {A} o = (a : A) × (o ≡ some a)

module _ {Broker Backend Message P W : Type 0} (publish : Broker → Message → W → Response P × W)
    (message : Message) (brokers : List Broker) (k : ℕ) (hk : k < length brokers) (b : Broker)
    (at : get_elem? brokers k ≡ some b) (accepts : Accepts publish message b) where
  -- `o` is the index of the task's broker, from which `k` is `d` steps ahead.
  try_publish-Ends :
      (d fuel i : ℕ) (o : Option ℕ) (t : Task Broker Backend) (w : W)
      → d < fuel
      → t.brokers ≡ brokers
      → t.broker ≡ broker_at brokers o
      → o ≡ some i
      → Ahead (length brokers) k i d
      → Ends (
          try_publish
            (get_round_robin_strategy (length brokers))
            publish
            fuel
            message
            t
            (next_index (length brokers) o)
            w)
  unfolding get_round_robin_strategy call_publish
  try_publish-Ends d zero i o t w h hb ht e a = elim h [ ]
  try_publish-Ends zero (suc fuel) i o t w h hb ht e a = (
    _,
    try_publish-returned _ publish fuel message t _ w (accepts w).0 (accepts w).1 (
        ap (λ x. call_publish publish x message w)
          (ht ∙ ap (broker_at brokers) e ∙ ap (get_elem? brokers) (arrived a) ∙ at)
        ∙ (accepts w).2),
  )
    where
      arrived : Ahead (length brokers) k i 0 → i ≡ k
      arrived (hi, inl e) = omega arith
      arrived (hi, inr e) = absurd (omega arith)
  try_publish-Ends (suc d) (suc fuel) i o t w h hb ht e a =
      elim (Response-cases (call_publish publish t.broker message w)) [
        | inl (p, w', q) ↦ (_, try_publish-returned _ publish fuel message t _ w p w' q)
        | inr (w', q) ↦
            (let next = next_index (length brokers) o in
              let x = next_index-Ahead (length brokers) k i d hk a in
              let r =
                try_publish-Ends d fuel x.0 next (record t { broker = broker_at t.brokers next }) w'
                  (omega arith) hb (ap (λ l. broker_at l next) hb)
                  (ap (next_index (length brokers)) e ∙ x.1) x.2 in
              (r.0, try_publish-thrown _ publish fuel message t _ w w' q ∙ r.1))
      ]

-- Let any sequence of calls make tasks of a client without a strategy of its own and publish from
-- them, the index of the strategy being shared. If one of the brokers of the client answers every
-- call of publish with a promise, then publishing from any of the tasks ends, after at most one
-- call more than there are brokers, whatever the other brokers do.
pub round_robin-Ends :
    {Broker Backend Message P W : Type 0} (publish : Broker → Message → W → Response P × W)
    (message : Message) (o : ClientOptions Broker Backend) (k : ℕ) (b : Broker)
    (f : Family Broker Backend) (before after : List (Task Broker (ResultBackend Backend)))
    (t : Task Broker (ResultBackend Backend)) (w : W)
    → get_elem? o.brokers k ≡ some b
    → Accepts publish message b
    → Reach publish (new_family o) f
    → f.tasks ≡ before ++ t ∷ after
    → Ends (
        try_publish f.client.failover_strategy publish
          (suc (length o.brokers))
          message
          t
          f.client.strategy_state
          w)
unfolding get_round_robin_strategy
round_robin-Ends publish message o k b f before after t w at accepts turns member =
    let hk = lt-get_elem? k o.brokers at in
    let (strategy, brokers, (i, state, hi), all) = Reach-IsFamily publish o f (omega arith) turns in
    let same =
      All-member (λ x. x.brokers ≡ o.brokers) before t after
        (subst (All (λ x. x.brokers ≡ o.brokers)) member all) in
    let d = distance (length o.brokers) k i hi hk in
    rw (strategy, state)
      (elim (Response-cases (call_publish publish t.broker message w)) [
        | inl (p, w', q) ↦ (_, try_publish-returned _ publish _ message t _ w p w' q)
        | inr (w', q) ↦
            (let r =
                try_publish-Ends publish message o.brokers k hk b at accepts d.0 (length o.brokers)
                  i (some i) (record t { broker = broker_at t.brokers (some i) }) w' d.2 same
                  (ap (λ l. broker_at l (some i)) same) refl d.1 in
              (r.0, try_publish-thrown _ publish _ message t _ w w' q ∙ r.1))
      ])

-- And then applyAsync, when it can make its message, returns the Result of the task.
pub apply_async-Returned :
    {Wire Buffer Date Broker Backend P W : Type 0} (L : Libraries Wire Buffer) (H : Host Date)
    (publish : Broker → TaskMessage Wire → W → Response P × W) (message : TaskMessage Wire)
    (options : TaskApplyOptions Date) (id : Text) (o : ClientOptions Broker Backend) (k : ℕ)
    (b : Broker) (f : Family Broker Backend)
    (before after : List (Task Broker (ResultBackend Backend)))
    (t : Task Broker (ResultBackend Backend)) (w : W)
    → get_elem? o.brokers k ≡ some b
    → Accepts publish message b
    → Reach publish (new_family o) f
    → f.tasks ≡ before ++ t ∷ after
    → publish_options H t L options id ≡ some message
    → (p : P) × (t' : Task Broker (ResultBackend Backend)) × (s : Option ℕ) × (w' : W)
      × (apply_async L H f.client.failover_strategy publish
            (suc (length o.brokers))
            options
            id
            t
            f.client.strategy_state
            w
          ≡ some (applied (result_of options id t) p t' s w'))
unfolding apply_async publish_message
apply_async-Returned L H publish message options id o k b f before after t w at accepts turns member
      made =
    let ((p, t', s, w'), ended) =
      round_robin-Ends publish message o k b f before after t w at accepts turns member in
    (p, t', s, w', rw (made, ended) refl)
