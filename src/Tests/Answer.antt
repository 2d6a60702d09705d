-- ===== src/Tests/Answer.antt =====
-- A task that a worker answers with its arguments, over the libraries of Tasks.
use node_celery_ts.Prelude.{◌≡◌, refl, Option, none, some, inl, true, false, [], ◌∷◌, ℕ}
use node_celery_ts.Text.{codes}
use node_celery_ts.JsMap
use node_celery_ts.Deque.{list_deque}
use node_celery_ts.Messages.{Json, null, ResultMessage, TaskMessage, success}
use node_celery_ts.PromiseMap
use node_celery_ts.PromiseMap.{value}
use node_celery_ts.ResourcePool.{fulfilled}
use node_celery_ts.Amqp.Channels.{Answers, Command, PublishOptions, publish, send_to_queue}
use node_celery_ts.Amqp.Broker.{flushed, publish_on}
use node_celery_ts.Amqp.Broker.Publishing.{repeat}
use node_celery_ts.Amqp.Backend.{
  Backend, Codec, Message, new_backend, on_message, put_on, assert_queue,
}
use node_celery_ts.Amqp.Backend.Delivery.{result_write}
use node_celery_ts.Task.{Task, publish_options, date_or_null}
use node_celery_ts.Task.Publish.{ResultBackend, result_of}
use node_celery_ts.Task.Transport.{buffer_from, worker_reads, declared}
use node_celery_ts.Task.Asking.{
  ClientBackend, AnsweredInAnyOrder, fetched, without_backend, get-Refused,
}
use node_celery_ts.Task.Results.{Fetched}
use node_celery_ts.Utility.Timeouts.{settles}
use node_celery_ts.Task.Answer.{apply_async-AnsweredInAnyOrder}
use node_celery_ts.Client.{create_task, new_client}
use node_celery_ts.Tests.Tasks.{
  Wire, Bytes, yaml_text, libraries, lawful, host, apply_options, task, body,
}

abbrev answers : {E : Type 0} → Answers E
answers = record {
  queue_error = none;
  exchange_error = none;
  check_error = none;
  writes = false ∷ true ∷ [];
}

-- A buffer is what was written into it.
abbrev codec : Codec Json (ResultMessage Json)
codec = record { stringify = λ m. m; parse = λ s. some s }

abbrev delivers : Command (ResultMessage Json) → Option (Message (ResultMessage Json))
delivers (send_to_queue routing_key content options) =
    some (record { content = content; correlation_id = options.correlation_id })
delivers _ = none

-- The worker answers with the arguments.
abbrev worker : PublishOptions → Json → ResultMessage Json
worker options args = record {
  children = [];
  result = args;
  status = success;
  task_id = options.correlation_id;
  traceback = none;
}

-- A plain value is not awaited.
abbrev unused : ResultMessage Json
unused = record { children = []; result = null; status = success; task_id = []; traceback = none }

abbrev rpc : Backend (ResultMessage Json) (list_deque ℕ)
rpc = new_backend (codes "app") none

-- A task of a client with the RPC backend.
abbrev answered_task : Task ℕ (ClientBackend (ResultMessage Json) (list_deque ℕ))
answered_task = record {
  app_id = task.app_id;
  backend = ResultBackend.backend rpc;
  broker = task.broker;
  brokers = task.brokers;
  delivery_mode = task.delivery_mode;
  name = task.name;
  queue = task.queue;
  time_limit = task.time_limit;
}

-- A call that ignores its result.
get-Refused_example :
    fetched codec
      (some 100)
      (λ b. b)
      (on_message none)
      (result_of (record apply_options { ignore_result = some true }) (codes "i") answered_task)
    ≡ some (settles (Fetched.rejected without_backend))
get-Refused_example =
    get-Refused codec (record apply_options { ignore_result = some true }) (codes "i") answered_task
      (some 100) (λ b. b) (on_message none) (inl refl)

apply_async-AnsweredInAnyOrder_example :
    (m : TaskMessage Wire) × (publish_options host answered_task libraries apply_options (codes "i")
      ≡ some m)
    × ((buffer : Bytes) × (options : PublishOptions) × (publish_on
            (buffer_from libraries)
            m
            (answers {E = ℕ})
          ≡ (
            some (fulfilled flushed),
            declared true (codes "celery") ∷ repeat 2 (publish [] (codes "celery") buffer options),
          ))
        × (worker_reads libraries options buffer ≡ some body)
        × (let r = worker options body in
            let w = result_write codec (codes "app") r in
            (put_on codec options.reply_to r answers
              ≡ (some (fulfilled flushed), assert_queue (codes "app") ∷ repeat 2 w))
            × ((message : Message (ResultMessage Json)) × (delivers w ≡ some message)
                × AnsweredInAnyOrder codec r.result
                    (some 100)
                    (value (record { content = unused; correlation_id = [] }))
                    message
                    (result_of apply_options (codes "i") answered_task))))
unfolding date_or_null create_task new_client new_backend JsMap.get PromiseMap.new_map
apply_async-AnsweredInAnyOrder_example =
    apply_async-AnsweredInAnyOrder libraries lawful host answered_task apply_options (codes "i")
      (yaml_text body) (some (5 ∷ [])) none answers 1 [] worker codec delivers answers 1 []
      (some 100) (value (record { content = unused; correlation_id = [] })) rpc refl refl refl refl
      refl refl (λ options args. refl) (λ routing_key content options. refl) (λ m. refl) refl refl
      refl refl refl refl refl
