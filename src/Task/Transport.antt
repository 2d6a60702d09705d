-- ===== src/Task/Transport.antt =====
-- The message that applyAsync of src/task.ts makes, on its way through src/amqp/broker.ts and
-- src/redis/broker.ts.
use node_celery_ts.Prelude.{
  ◌≡◌, refl, ap, ap₂, ◌∙◌, Bool, true, false, Option, none, some, List, [], ◌∷◌, ◌++◌, ℕ, suc,
  if◌then◌else◌, ◌>>=◌,
}
use node_celery_ts.Text.{Text, text_eq, codes}
use node_celery_ts.Messages.{Json, TaskMessage, ContentEncodingMime}
use node_celery_ts.Packer.{Libraries, SerializerType}
use node_celery_ts.Packer.Laws.{Lawful, text_of}
use node_celery_ts.Task.{
  Task, Host, TaskApplyOptions, or_default, task_body, date_or_null, publish_options,
}
use node_celery_ts.Task.Message.{
  decoded, decompressed, deserialized, read_body, publish_options-read_body,
}
use node_celery_ts.ResourcePool.{fulfilled}
use node_celery_ts.Amqp.Channels.{
  Answers, PublishOptions, Command, assert_queue, assert_exchange, check_queue, publish,
}
use node_celery_ts.Amqp.Broker.{flushed, first_error, get_body, get_publish_options, publish_on}
use node_celery_ts.Amqp.Broker.Publishing.{
  repeat, settled_by, unless_refused, refusal, requests, write, publish_on-settled_by,
}
use node_celery_ts.Redis.Broker

-- What a queue is declared with, or checked.
abbrev pub declared : {Buffer : Type 0} → Bool → Text → Command Buffer
declared true queue = assert_queue queue none
declared false queue = check_queue queue

-- The requests, and their error, by whether the queue is asserted, the exchange and the queue.
abbrev requested : {Buffer : Type 0} → Bool → Text → Text → List (Command Buffer)
requested asserts exchange queue =
    if asserts
    then (if text_eq exchange []
        then assert_queue queue none ∷ []
        else assert_queue queue none ∷ assert_exchange exchange (codes "direct") ∷ [])
    else check_queue queue ∷ []

abbrev refused : {E : Type 0} → Answers E → Bool → Text → Option E
refused answers asserts exchange =
    if asserts
    then (if text_eq exchange []
        then answers.queue_error
        else first_error answers.queue_error answers.exchange_error)
    else answers.check_error

requested-declared :
    {Buffer : Type 0} (asserts : Bool) (queue : Text)
    → requested {Buffer = Buffer} asserts [] queue ≡ declared asserts queue ∷ []
requested-declared true queue = refl
requested-declared false queue = refl

refused-none :
    {E : Type 0} (answers : Answers E) (asserts : Bool)
    → answers.queue_error ≡ none
    → answers.check_error ≡ none
    → refused answers asserts [] ≡ none
refused-none answers true q c = q
refused-none answers false q c = c

-- A message that goes to the default exchange.
module _ {Wire : Type 0} (m : TaskMessage Wire) (asserts : Bool) (queue : Text)
    (default : m.properties.delivery_info.exchange ≡ [])
    (asserting : m.properties.assert_queue ≡ asserts)
    (routed : m.properties.delivery_info.routing_key ≡ queue) where
  requests-declared : {Buffer : Type 0} → requests {Buffer = Buffer} m ≡ declared asserts queue ∷ []
  requests-declared =
      ap₂ (λ a e. requested a e m.properties.delivery_info.routing_key) asserting default
      ∙ ap (requested asserts []) routed
      ∙ requested-declared asserts queue

  refusal-none :
      {E : Type 0} (answers : Answers E)
      → answers.queue_error ≡ none
      → answers.check_error ≡ none
      → refusal m answers ≡ none
  refusal-none answers q c =
      ap₂ (refused answers) asserting default ∙ refused-none answers asserts q c

  publish_on-declared :
      {Buffer E : Type 0} (from : Wire → ContentEncodingMime → Buffer) (answers : Answers E) (k : ℕ)
      (later : List Bool)
      → answers.writes ≡ repeat k false ++ true ∷ later
      → answers.queue_error ≡ none
      → answers.check_error ≡ none
      → publish_on from m answers ≡ (
        some (fulfilled flushed),
        declared asserts queue
            ∷ repeat (suc k) (publish [] queue (get_body from m) (get_publish_options m)),
      )
  publish_on-declared from answers k later h q c =
      publish_on-settled_by from m answers k later h
      ∙ ap₂ (λ e r. (some (settled_by e), r ++ unless_refused e (repeat (suc k) (write from m))))
          (refusal-none answers q c) requests-declared
      ∙ ap₂
          (λ e r. (
            some (fulfilled flushed),
            declared asserts queue
                ∷ repeat (suc k) (publish e r (get_body from m) (get_publish_options m)),
          ))
          default routed

module _ {Wire Buffer : Type 0} (L : Libraries Wire Buffer) where
  -- `Buffer.from`, in the encodings of a body.
  abbrev pub buffer_from : Wire → ContentEncodingMime → Buffer
  buffer_from body encoding = decoded L encoding body

  -- A worker of RabbitMQ decompresses the body as the headers say, and deserializes it as the
  -- content type says.
  abbrev pub worker_reads : PublishOptions → Buffer → Option Json
  worker_reads options body =
      decompressed L options.headers.compression body >>= deserialized L options.content_type

  get_body-read_body :
      (m : TaskMessage Wire)
      → m.properties.body_encoding ≡ m.content_encoding
      → worker_reads (get_publish_options m) (get_body buffer_from m) ≡ read_body L m
  unfolding get_body get_publish_options
  get_body-read_body m e =
      ap
        (λ c.
          decompressed L m.headers.compression (decoded L c m.body)
          >>= deserialized L m.content_type)
        e

-- With libraries that read what they write, if the serializer can write the arguments, and the
-- dates given are valid, applyAsync has a message to publish. On a channel that rejects no request
-- on the queue and whose writes return false any number of times and then true, AmqpBroker asserts
-- the queue of the call or the task, or checks it if told so, and then writes the message once for
-- every full buffer and once more to the default exchange, routed to that queue: the decoded body,
-- from which a worker that decompresses it as the headers say reads the arguments, with the
-- identifier as the correlation ID and the queue of the client to answer to. RedisBroker pushes the
-- message onto the same queue.
pub publish_options-publish_on :
    {Wire Buffer TaskBroker Backend Date E : Type 0} (L : Libraries Wire Buffer) (laws : Lawful L)
    (H : Host Date) (t : Task TaskBroker Backend) (o : TaskApplyOptions Date) (id : Text)
    (text : Wire) (eta expires : Option Text) (answers : Answers E) (k : ℕ) (later : List Bool)
    (stringify : TaskMessage Wire → Wire) (redis : Broker.Broker Wire)
    → text_of L (or_default o.serializer SerializerType.json) (task_body o.args o.kwargs)
      ≡ some text
    → date_or_null H o.eta ≡ some eta
    → date_or_null H o.expires ≡ some expires
    → answers.writes ≡ repeat k false ++ true ∷ later
    → answers.queue_error ≡ none
    → answers.check_error ≡ none
    → let queue = or_default o.queue t.queue in
      (m : TaskMessage Wire) × (publish_options H t L o id ≡ some m)
      × ((body : Buffer) × (options : PublishOptions) × (publish_on (buffer_from L) m answers ≡ (
        some (fulfilled flushed),
        declared (or_default o.assert_queue true) queue
            ∷ repeat (suc k) (publish [] queue body options),
      ))
          × (worker_reads L options body ≡ some (task_body o.args o.kwargs))
          × (options.correlation_id ≡ id)
          × (options.reply_to ≡ t.app_id))
      × ((Broker.publish stringify m redis).lpushed ≡ redis.lpushed ++ (queue, stringify m) ∷ [])
unfolding get_publish_options Broker.publish
publish_options-publish_on L laws H t o id text eta expires answers k later stringify redis written
      he hx h q c =
    let (m, made, read, consistent) =
      publish_options-read_body L laws H t o id text eta expires written he hx in
    let queue = or_default o.queue t.queue in
    let routed = consistent.5 ∙ consistent.6 in
    (
      m,
      made,
      (
        get_body (buffer_from L) m,
        get_publish_options m,
        publish_on-declared m (or_default o.assert_queue true) queue consistent.7 consistent.8
            routed (buffer_from L) answers k later h q c,
        get_body-read_body L m consistent.4 ∙ read,
        consistent.3,
        consistent.9,
      ),
      ap (λ r. redis.lpushed ++ (r, stringify m) ∷ []) consistent.6,
    )
