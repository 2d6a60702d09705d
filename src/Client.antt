-- ===== src/Client.antt =====
-- src/client.ts: the client, the tasks that it makes, and the round-robin strategy.
-- A broker and a backend are what their `disconnect` and `end` are called on.
pub mod Family
pub mod RoundRobin
pub mod Closing
pub mod Settling
use node_celery_ts.Prelude.{
  ℕ, ◌+◌, ◌%◌, ◌==◌, if◌then◌else◌, Option, none, some, List, length, get_elem?,
}
use node_celery_ts.Text.{Text}
use node_celery_ts.Task.{FailoverStrategy, DeliveryMode, Task, new_task}
use node_celery_ts.Task.Publish.{ResultBackend, null_backend, backend}

-- The index of the closure: `none` is NaN, which a remainder by 0 leaves for ever.
unfoldable pub next_index : ℕ → Option ℕ → Option ℕ
next_index size none = none
next_index size (some index) = if size == 0 then none else some ((index + 1) % size)

abbrev pub broker_at : {Broker : Type 0} → List Broker → Option ℕ → Option Broker
broker_at brokers none = none
broker_at brokers (some index) = get_elem? brokers index

unfoldable pub get_round_robin_strategy : {Broker : Type 0} → ℕ → FailoverStrategy Broker (Option ℕ)
unfolding next_index
get_round_robin_strategy size brokers index = (broker_at brokers index, next_index size index)

pub record TaskDefaults : Type 0 where
  pub delivery_mode : Option DeliveryMode
  pub hard_time_limit : Option ℕ
  pub queue : Option Text
  pub soft_time_limit : Option ℕ

-- The client, with the state of the closure that all its tasks share.
pub record Client (Broker Backend S : Type 0) : Type 0 where
  pub client_backend : ResultBackend Backend
  pub brokers : List Broker
  pub id : Text
  pub task_defaults : TaskDefaults
  pub failover_strategy : FailoverStrategy Broker S
  pub strategy_state : S

pub record ClientOptions (Broker Backend : Type 0) : Type 0 where
  pub client_backend : Option Backend
  pub brokers : List Broker
  pub id : Text
  pub task_defaults : Option TaskDefaults

abbrev or_null : {Backend : Type 0} → Option Backend → ResultBackend Backend
or_null none = null_backend
or_null (some b) = backend b

abbrev or_none : Option TaskDefaults → TaskDefaults
or_none none = record {
  delivery_mode = none;
  hard_time_limit = none;
  queue = none;
  soft_time_limit = none;
}
or_none (some d) = d

-- Without a `failoverStrategy`, as `createClient` calls it.
unfoldable pub new_client :
    {Broker Backend : Type 0} → ClientOptions Broker Backend → Client Broker Backend (Option ℕ)
unfolding get_round_robin_strategy
new_client o = record {
  client_backend = or_null o.client_backend;
  brokers = o.brokers;
  id = o.id;
  task_defaults = or_none o.task_defaults;
  failover_strategy = get_round_robin_strategy (length o.brokers);
  strategy_state = some 0;
}

unfoldable pub create_task :
    {Broker Backend S : Type 0}
    → Text
    → Client Broker Backend S
    → Task Broker (ResultBackend Backend) × Client Broker Backend S
unfolding new_task
create_task name c =
    let d = c.task_defaults in
    let (task, s) =
      new_task c.failover_strategy
        (record {
          app_id = c.id;
          backend = c.client_backend;
          brokers = c.brokers;
          delivery_mode = d.delivery_mode;
          hard_time_limit = d.hard_time_limit;
          name = name;
          queue = d.queue;
          soft_time_limit = d.soft_time_limit;
        })
        c.strategy_state in
    (task, record c { strategy_state = s })
