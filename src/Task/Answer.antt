-- ===== src/Task/Answer.antt =====
-- A call of a task and its answer: applyAsync of src/task.ts over src/amqp/broker.ts, and the
-- Result of src/result.ts over src/amqp/backend.ts.
use node_celery_ts.Prelude.{
  ◌≡◌, sym, ap, ◌∙◌, subst, Bool, true, false, Option, none, some, List, [], ◌∷◌, ◌++◌, ℕ, suc,
}
use node_celery_ts.Text.{Text}
use node_celery_ts.Text.Keys.{text_keys}
use node_celery_ts.JsMap
use node_celery_ts.Deque.{Deque}
use node_celery_ts.Messages.{Json, TaskMessage, ResultMessage}
use node_celery_ts.Packer.{Libraries, SerializerType}
use node_celery_ts.Packer.Laws.{Lawful, text_of}
use node_celery_ts.PromiseMap.{Awaited}
use node_celery_ts.ResourcePool.{Settled}
use node_celery_ts.Utility.Timeouts.{create_timeout_promise}
use node_celery_ts.Amqp.Channels.{Answers, PublishOptions, Command, publish}
use node_celery_ts.Amqp.Broker.{flushed, publish_on}
use node_celery_ts.Amqp.Broker.Publishing.{repeat}
use node_celery_ts.Amqp.Backend.{Failure, Message, Codec, Backend, put_on, assert_queue}
use node_celery_ts.Amqp.Backend.Delivery.{
  result_write, Delivers, HeardInAnyOrder, put_on-HeardInAnyOrder,
}
use node_celery_ts.Redis.Broker
use node_celery_ts.Task.{
  Task, Host, TaskApplyOptions, or_default, task_body, date_or_null, publish_options,
}
use node_celery_ts.Task.Publish
use node_celery_ts.Task.Publish.{ResultBackend, null_backend, result_of}
use node_celery_ts.Task.Results
use node_celery_ts.Task.Results.{Fetched, result_turn, get_result}
use node_celery_ts.Task.Transport.{declared, buffer_from, worker_reads, publish_options-publish_on}
use node_celery_ts.Task.Asking.{ClientBackend, choosing, turns_of, AnsweredInAnyOrder}

module _ {V Buffer : Type 0} {D : Deque ℕ} (C : Codec V Buffer) (r : ResultMessage V)
    (timeout : Option ℕ) where
  abbrev asking : Text → Backend Buffer D → Publish.Result (ClientBackend Buffer D)
  asking id b = record {
    task_id = id;
    result_backend = ResultBackend.backend (ResultBackend.backend b);
  }

  heard-answered :
      (a : Awaited (Message Buffer) Failure) (message : Message Buffer) (b : Backend Buffer D)
      → HeardInAnyOrder C r none a message b
      → AnsweredInAnyOrder C r.result timeout a message (asking r.task_id b)
  unfolding Results.get result_turn get_result create_timeout_promise
  heard-answered a message b (after, before) = (
    ap (λ o. Results.get timeout (turns_of o)) after,
    ap (λ o. Results.get timeout (turns_of o)) before,
  )

  -- The Result of a call that does not ignore it has the backend of the task.
  result_of-asking :
      {TaskBroker Date : Type 0} (o : TaskApplyOptions Date) (id : Text)
      (t : Task TaskBroker (ClientBackend Buffer D)) (b : Backend Buffer D)
      → or_default o.ignore_result false ≡ false
      → t.backend ≡ ResultBackend.backend b
      → result_of o id t ≡ asking id b
  unfolding result_of choosing
  result_of-asking o id t b e h = ap (choosing id t.backend) e ∙ ap (λ x. choosing id x false) h

-- With libraries that read what they write, if the serializer can write the arguments, and the
-- dates given are valid, applyAsync has a message to publish, and returns a Result with the
-- identifier. On a channel that rejects no request on the queue and whose writes return false any
-- number of times and then true, AmqpBroker writes a message from which a worker reads the
-- arguments. Let a worker put any result message for the correlation ID of what it read, of any
-- status, on the queue that it is told to answer to, over a channel that asserts the queue and
-- takes the write after any number of full buffers. If the call does not ignore its result, and the
-- backend of the task is the RPC backend, which consumes from the queue of the client and knows
-- nothing of the task yet, then the worker writes to the queue that the backend consumes from, and
-- if RabbitMQ delivers the content and the correlation ID of a write, and JSON.parse reads what
-- JSON.stringify writes, the `get` of the Result gives the result of the worker on the arguments of
-- the call, with any time limit that has not passed, whether the answer comes before the Result
-- asks the backend or after it.
pub apply_async-AnsweredInAnyOrder :
    {Wire Buffer TaskBroker Date E V Content : Type 0} {D : Deque ℕ} (L : Libraries Wire Buffer)
    (laws : Lawful L) (H : Host Date) (t : Task TaskBroker (ClientBackend Content D))
    (o : TaskApplyOptions Date) (id : Text) (text : Wire) (eta expires : Option Text)
    (answers : Answers E) (k : ℕ) (later : List Bool)
    (worker : PublishOptions → Json → ResultMessage V) (C : Codec V Content)
    (deliver : Command Content → Option (Message Content)) (worker_answers : Answers Failure)
    (j : ℕ) (worker_later : List Bool) (timeout : Option ℕ) (a : Awaited (Message Content) Failure)
    (b : Backend Content D)
    → text_of L (or_default o.serializer SerializerType.json) (task_body o.args o.kwargs)
      ≡ some text
    → date_or_null H o.eta ≡ some eta
    → date_or_null H o.expires ≡ some expires
    → answers.writes ≡ repeat k false ++ true ∷ later
    → answers.queue_error ≡ none
    → answers.check_error ≡ none
    → ((options : PublishOptions) (args : Json)
        → (worker options args).task_id ≡ options.correlation_id)
    → Delivers deliver
    → ((m : ResultMessage V) → C.parse (C.stringify m) ≡ some m)
    → worker_answers.writes ≡ repeat j false ++ true ∷ worker_later
    → worker_answers.queue_error ≡ none
    → or_default o.ignore_result false ≡ false
    → t.backend ≡ ResultBackend.backend b
    → b.routing_key ≡ t.app_id
    → JsMap.get id b.promises.entries ≡ none
    → JsMap.get id b.promises.promises ≡ none
    → let args = task_body o.args o.kwargs in
      (m : TaskMessage Wire) × (publish_options H t L o id ≡ some m)
      × ((body : Buffer) × (options : PublishOptions) × (publish_on (buffer_from L) m answers ≡ (
        some (Settled.fulfilled flushed),
        declared (or_default o.assert_queue true) (or_default o.queue t.queue)
            ∷ repeat (suc k) (publish [] (or_default o.queue t.queue) body options),
      ))
          × (worker_reads L options body ≡ some args)
          × (let r = worker options args in
              let w = result_write C b.routing_key r in
              (put_on C options.reply_to r worker_answers
                ≡ (some (Settled.fulfilled flushed), assert_queue b.routing_key ∷ repeat (suc j) w))
              × ((message : Message Content) × (deliver w ≡ some message)
                  × AnsweredInAnyOrder C r.result timeout a message (result_of o id t))))
apply_async-AnsweredInAnyOrder L laws H t o id text eta expires answers k later worker C deliver
      worker_answers j worker_later timeout a b written he hx h q c answering delivers round h' q'
      wanted own consumes unknown free =
    let args = task_body o.args o.kwargs in
    let (m, made, (body, options, published, read, correlated, replied), pushed) =
      publish_options-publish_on L laws H t o id text eta expires answers k later (λ m. m.body)
        (Broker.new_broker none) written he hx h q c in
    let r = worker options args in
    let same : r.task_id ≡ id = answering options args ∙ correlated in
    let (put, (message, delivered, heard)) =
      put_on-HeardInAnyOrder C deliver r b.routing_key worker_answers j worker_later none a b
        delivers (round r) h' q' (ap (λ i. JsMap.get i b.promises.entries) same ∙ unknown)
        (ap (λ i. JsMap.get i b.promises.promises) same ∙ free) in
    (
      m,
      made,
      (
        body,
        options,
        published,
        read,
        (
          ap (λ key. put_on C key r worker_answers) (replied ∙ sym consumes) ∙ put,
          (
            message,
            delivered,
            subst (AnsweredInAnyOrder C r.result timeout a message)
                (ap (λ i. asking C r timeout i b) same
                  ∙ sym (result_of-asking C r timeout o id t b wanted own))
                (heard-answered C r timeout a message b heard),
          ),
        ),
      ),
    )
