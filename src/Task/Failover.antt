-- ===== src/Task/Failover.antt =====
-- The rounds of tryPublish in applyAsync of src/task.ts.
use node_celery_ts.Prelude.{ℕ, suc, ◌≡◌, ◌⊎◌, inl, inr, refl, ap, some}
use node_celery_ts.Task.{Task, FailoverStrategy}
use node_celery_ts.Task.Publish.{Response, thrown, returned, call_publish, answer, try_publish}

pub Response-cases :
    {P W : Type 0} (r : Response P × W)
    → ((p : P) × (w : W) × (r ≡ (returned p, w))) ⊎ ((w : W) × (r ≡ (thrown, w)))
Response-cases (returned p, w) = inl (p, w, refl)
Response-cases (thrown, w) = inr (w, refl)

module _ {Broker Backend S Message P W : Type 0} (strategy : FailoverStrategy Broker S)
    (publish : Broker → Message → W → Response P × W) (fuel : ℕ) (message : Message)
    (t : Task Broker Backend) (s : S) (w : W) where
  pub try_publish-returned :
      (p : P) (w' : W)
      → call_publish publish t.broker message w ≡ (returned p, w')
      → try_publish strategy publish (suc fuel) message t s w ≡ some (p, t, s, w')
  unfolding try_publish
  try_publish-returned p w' h =
      ap (answer strategy t s (try_publish strategy publish fuel message)) h

  pub try_publish-thrown :
      (w' : W)
      → call_publish publish t.broker message w ≡ (thrown, w')
      → try_publish strategy publish (suc fuel) message t s w
        ≡ try_publish strategy publish fuel message
            (record t { broker = (strategy t.brokers s).0 })
            (strategy t.brokers s).1
            w'
  unfolding try_publish
  try_publish-thrown w' h = ap (answer strategy t s (try_publish strategy publish fuel message)) h
