-- ===== src/Task/Publish.antt =====
-- applyAsync of src/task.ts: the publication of the message with failover, and the result. A broker
-- answers as `publish` says. That the constructor of `Result` starts to fetch is left out.
use node_celery_ts.Prelude.{ℕ, zero, suc, false, Option, none, some, if◌then◌else◌, ◌>>=◌}
use node_celery_ts.Text.{Text}
use node_celery_ts.Messages.{TaskMessage}
use node_celery_ts.Packer.{Libraries}
use node_celery_ts.Task.{
  Task, Host, FailoverStrategy, TaskApplyOptions, or_default, publish_options,
}

-- The backend of the result; `null_backend` is `new NullBackend()`.
pub data ResultBackend (Backend : Type 0) : Type 0 where
  null_backend : ResultBackend Backend
  backend : Backend → ResultBackend Backend

pub record Result (Backend : Type 0) : Type 0 where
  pub task_id : Text
  pub result_backend : ResultBackend Backend

-- A call of a broker's `publish`, which throws or returns a promise.
pub data Response (P : Type 0) : Type 0 where
  thrown : Response P
  returned : P → Response P

-- `this.broker.publish(...)`, which throws when the broker is undefined.
unfoldable pub call_publish :
    {Broker Message P W : Type 0}
    → (Broker → Message → W → Response P × W)
    → Option Broker
    → Message
    → W
    → Response P × W
call_publish publish none message w = (thrown, w)
call_publish publish (some b) message w = publish b message w

-- The `catch` takes a new broker and goes on with `again`.
abbrev pub answer :
    {Broker Backend S P W : Type 0}
    → FailoverStrategy Broker S
    → Task Broker Backend
    → S
    → (Task Broker Backend → S → W → Option (P × Task Broker Backend × S × W))
    → Response P × W
    → Option (P × Task Broker Backend × S × W)
answer strategy t s again (returned p, w) = some (p, t, s, w)
answer strategy t s again (thrown, w) =
    let (broker, s') = strategy t.brokers s in again (record t { broker = broker }) s' w

module _ {Broker Backend S Message P W : Type 0} (strategy : FailoverStrategy Broker S)
    (publish : Broker → Message → W → Response P × W) where
  -- `none` if the fuel runs out.
  unfoldable pub try_publish :
      ℕ → Message → Task Broker Backend → S → W → Option (P × Task Broker Backend × S × W)
  unfolding call_publish
  try_publish zero message t s w = none
  try_publish (suc fuel) message t s w =
      answer strategy t s (try_publish fuel message) (call_publish publish t.broker message w)

unfoldable pub result_of :
    {Broker Backend Date : Type 0}
    → TaskApplyOptions Date
    → Text
    → Task Broker Backend
    → Result Backend
result_of o id t = record {
  task_id = id;
  result_backend = if or_default o.ignore_result false then null_backend else backend t.backend;
}

-- What `applyAsync` throws, and what it returns.
pub data Applied (Backend P T S W : Type 0) : Type 0 where
  threw : Applied Backend P T S W
  applied : Result Backend → P → T → S → W → Applied Backend P T S W

module _ {Wire Broker Backend Date S P W : Type 0} (strategy : FailoverStrategy Broker S)
    (publish : Broker → TaskMessage Wire → W → Response P × W) where
  -- From when the message is made, or making it has thrown.
  unfoldable pub publish_message :
      ℕ
      → TaskApplyOptions Date
      → Text
      → Task Broker Backend
      → S
      → W
      → Option (TaskMessage Wire)
      → Option (Applied Backend P (Task Broker Backend) S W)
  unfolding try_publish result_of
  publish_message fuel o id t s w none = some threw
  publish_message fuel o id t s w (some message) = do
    (p, t', s', w') ← try_publish strategy publish fuel message t s w
    some (applied (result_of o id t) p t' s' w')

module _ {Wire Buffer Broker Backend Date S P W : Type 0} (L : Libraries Wire Buffer)
    (H : Host Date) (strategy : FailoverStrategy Broker S)
    (publish : Broker → TaskMessage Wire → W → Response P × W) where
  -- `none` if the fuel of `try_publish` runs out.
  unfoldable pub apply_async :
      ℕ
      → TaskApplyOptions Date
      → Text
      → Task Broker Backend
      → S
      → W
      → Option (Applied Backend P (Task Broker Backend) S W)
  unfolding publish_options publish_message
  apply_async fuel o id t s w =
      publish_message strategy publish fuel o id t s w (publish_options H t L o id)
