-- ===== src/Amqp/Backend/Delivery.antt =====
-- Who puts a result and who gets it, by src/amqp/backend.ts.
use node_celery_ts.Prelude.{
  ◌≡◌, ap, ◌∙◌, Bool, true, false, Option, none, some, List, [], ◌∷◌, ◌++◌, ℕ, suc, length, ◌>>=◌,
}
use node_celery_ts.Text.{Text}
use node_celery_ts.Text.Keys.{text_keys}
use node_celery_ts.JsMap
use node_celery_ts.Deque.{Deque}
use node_celery_ts.Messages.{ResultMessage}
use node_celery_ts.ResourcePool.{fulfilled}
use node_celery_ts.PromiseMap.{Awaited, finish_resolve}
use node_celery_ts.PromiseMap.Delivery.{value_at, get-receive, receive-get}
use node_celery_ts.Utility.Timeouts.{settles, create_timeout_promise, promise_settles}
use node_celery_ts.Amqp.Channels.{Answers, Command, SendOptions, send_to_queue, write_until}
use node_celery_ts.Amqp.Broker.{flushed, loop_settled, and_then}
use node_celery_ts.Amqp.Broker.Publishing.{repeat, write_until-repeat}
use node_celery_ts.Amqp.Backend.{
  Failure, Message, Codec, Backend, create_publish_options, assert_queue, put_on, get, get_received,
  on_message,
}

-- The write of a result.
abbrev pub result_write :
    {V Buffer : Type 0} → Codec V Buffer → Text → ResultMessage V → Command Buffer
result_write C routing_key m = send_to_queue routing_key (C.stringify m) (create_publish_options m)

-- What RabbitMQ delivers for a write has its content and its correlation ID.
abbrev pub Delivers : {Buffer : Type 0} → (Command Buffer → Option (Message Buffer)) → Type 0
Delivers {Buffer = Buffer} deliver =
    (routing_key : Text) (content : Buffer) (options : SendOptions)
    → deliver (send_to_queue routing_key content options)
      ≡ some (record { content = content; correlation_id = options.correlation_id })

module _ {V Buffer : Type 0} (C : Codec V Buffer) where
  pub put_on-repeat :
      (routing_key : Text) (m : ResultMessage V) (answers : Answers Failure) (k : ℕ)
      (later : List Bool)
      → answers.writes ≡ repeat k false ++ true ∷ later
      → answers.queue_error ≡ none
      → put_on C routing_key m answers ≡ (
        some (fulfilled flushed),
        assert_queue routing_key ∷ repeat (suc k) (result_write C routing_key m),
      )
  unfolding put_on
  put_on-repeat routing_key m answers k later h e =
      let w = result_write C routing_key m in
      ap
        (λ q.
          and_then (q, assert_queue routing_key ∷ [])
            (loop_settled ((write_until w answers.writes).0), (write_until w answers.writes).1))
        e
      ∙ ap (λ t. and_then (none, assert_queue routing_key ∷ []) (loop_settled (t.0), t.1))
          (ap (write_until w) h ∙ write_until-repeat w k later)

  module _ {D : Deque ℕ} (m : ResultMessage V) (timeout : Option ℕ) where
    abbrev pub come_back :
        ℕ → Awaited (Message Buffer) Failure → Backend Buffer D → Backend Buffer D
    come_back i a b = record b { promises = finish_resolve i a b.promises }

    -- `get` that waits for a promise gives the result.
    abbrev pub HasResult : ℕ → Backend Buffer D → Type 0
    HasResult p b = (value_at b.promises.states p >>= get_received C timeout) ≡ some (settles m)

    -- The message that comes and the call of `get`, in either order.
    abbrev pub HeardInAnyOrder :
        Awaited (Message Buffer) Failure → Message Buffer → Backend Buffer D → Type 0
    HeardInAnyOrder a message b =
        (let (p, b₁) = get m.task_id b in
          HasResult p (come_back (length b₁.promises.resolving) a (on_message (some message) b₁)))
        × (let (p, b₁) =
              get m.task_id
                (come_back (length b.promises.resolving) a (on_message (some message) b)) in
            HasResult p b₁)

    heard :
        (a : Awaited (Message Buffer) Failure) (b : Backend Buffer D)
        → C.parse (C.stringify m) ≡ some m
        → JsMap.get m.task_id b.promises.entries ≡ none
        → JsMap.get m.task_id b.promises.promises ≡ none
        → HeardInAnyOrder a (record { content = C.stringify m; correlation_id = m.task_id }) b
    unfolding get on_message get_received
    heard a b round absent free =
        let message : Message Buffer = record {
          content = C.stringify m;
          correlation_id = m.task_id;
        } in
        let last =
          ap (λ o. o >>= λ result. create_timeout_promise timeout (promise_settles result ∷ []))
            round in
        (
          ap (λ o. o >>= get_received C timeout) (get-receive m.task_id message a b.promises free)
              ∙ last,
          ap (λ o. o >>= get_received C timeout) (receive-get m.task_id message a b.promises absent)
              ∙ last,
        )

-- On a channel that asserts the queue and whose writes return false any number of times and then
-- true, put is fulfilled, after writing the result once for every full buffer and once more. If
-- RabbitMQ delivers the content and the correlation ID of a write, and JSON.parse reads what
-- JSON.stringify writes, then of the write a message is delivered for which get, called before or
-- after it comes to a backend that knows nothing of the task, gives the result that was put, with
-- any time limit.
pub put_on-HeardInAnyOrder :
    {V Buffer : Type 0} {D : Deque ℕ} (C : Codec V Buffer)
    (deliver : Command Buffer → Option (Message Buffer)) (m : ResultMessage V) (routing_key : Text)
    (answers : Answers Failure) (k : ℕ) (later : List Bool) (timeout : Option ℕ)
    (a : Awaited (Message Buffer) Failure) (b : Backend Buffer D)
    → Delivers deliver
    → C.parse (C.stringify m) ≡ some m
    → answers.writes ≡ repeat k false ++ true ∷ later
    → answers.queue_error ≡ none
    → JsMap.get m.task_id b.promises.entries ≡ none
    → JsMap.get m.task_id b.promises.promises ≡ none
    → let w = result_write C routing_key m in
      (put_on C routing_key m answers
        ≡ (some (fulfilled flushed), assert_queue routing_key ∷ repeat (suc k) w))
      × ((message : Message Buffer) × (deliver w ≡ some message)
          × HeardInAnyOrder C m timeout a message b)
unfolding create_publish_options
put_on-HeardInAnyOrder C deliver m routing_key answers k later timeout a b delivers round writes
      asserted absent free =
    (
      put_on-repeat C routing_key m answers k later writes asserted,
      (
        record { content = C.stringify m; correlation_id = m.task_id },
        delivers routing_key (C.stringify m) (create_publish_options m),
        heard C m timeout a b round absent free,
      ),
    )
