-- ===== src/Amqp/Broker.antt =====
-- src/amqp/broker.ts: the message broker over RabbitMQ. The channels are resources of ResourcePool,
-- and `sent` lists the commands with the channel of each. `from` is `Buffer.from`.
pub mod Publishing
pub mod History
use node_celery_ts.Prelude.{
  ℕ, Bool, true, false, Option, none, some, List, [], ◌∷◌, ◌++◌, map, if◌then◌else◌,
}
use node_celery_ts.Text.{Text, codes, text_eq}
use node_celery_ts.Objects.{Object}
use node_celery_ts.Messages.{TaskMessage, ContentEncodingMime}
use node_celery_ts.Deque.{Deque}
use node_celery_ts.ResourcePool
use node_celery_ts.ResourcePool.{
  Resource, Settled, fulfilled, rejected_with, new_world, start_get, deliver, use_resource,
  settle_use, returns, got, start_destroy_all, finish_destroy_all,
}
use node_celery_ts.Amqp.Uri.{default_amqp_options}
use node_celery_ts.Amqp.Channels.{
  Answers, PublishOptions, Command, assert_queue, assert_exchange, check_queue, write_until,
}
use node_celery_ts.Amqp.Channels

abbrev pub flushed : Text
flushed = codes "flushed to write buffer"

module _ (Buffer E : Type 0) (D : Deque ℕ) where
  pub record Broker : Type 0 where
    pub options : Object
    pub channels : ResourcePool.World E D
    pub sent : List (Resource × Command Buffer)
    pub connection_closed : Bool

module _ {Wire Buffer : Type 0} (from : Wire → ContentEncodingMime → Buffer) where
  unfoldable pub get_body : TaskMessage Wire → Buffer
  get_body message = from message.body message.properties.body_encoding

unfoldable pub get_publish_options : {Wire : Type 0} → TaskMessage Wire → PublishOptions
get_publish_options message = record {
  content_encoding = message.content_encoding;
  content_type = message.content_type;
  correlation_id = message.properties.correlation_id;
  delivery_mode = message.properties.delivery_mode;
  headers = message.headers;
  priority = message.properties.priority;
  reply_to = message.properties.reply_to;
}

-- The error of two requests at once: the reply to the first comes first.
abbrev pub first_error : {E : Type 0} → Option E → Option E → Option E
first_error none second = second
first_error (some e) second = some e

-- `none` while the loop has not ended.
abbrev pub loop_settled : {E : Type 0} → Bool → Option (Settled Text E)
loop_settled true = some (fulfilled flushed)
loop_settled false = none

module _ {Buffer E : Type 0} where
  -- The error that the promise of `assert` is rejected with, and the requests.
  unfoldable pub assert : Text → Text → Answers E → Option E × List (Command Buffer)
  assert exchange routing_key answers =
      if text_eq exchange [] then (answers.queue_error, assert_queue routing_key none ∷ []) else (
        first_error answers.queue_error answers.exchange_error,
        assert_queue routing_key none ∷ assert_exchange exchange (codes "direct") ∷ [],
      )

  unfoldable pub do_publish :
      Text
      → Text
      → Buffer
      → PublishOptions
      → Answers E
      → Option (Settled Text E) × List (Command Buffer)
  unfolding write_until
  do_publish exchange routing_key body options answers =
      let (ended, commands) =
        write_until (Channels.publish exchange routing_key body options) answers.writes in
      (loop_settled ended, commands)

  -- The requests, and then, if none is rejected, the writes.
  abbrev pub and_then :
      Option E × List (Command Buffer)
      → Option (Settled Text E) × List (Command Buffer)
      → Option (Settled Text E) × List (Command Buffer)
  and_then (none, requests) (settled, writes) = (settled, requests ++ writes)
  and_then (some e, requests) (settled, writes) = (some (rejected_with e), requests)

abbrev or_default : Option Object → Object
unfolding default_amqp_options
or_default none = default_amqp_options
or_default (some o) = o

module _ {Wire Buffer E : Type 0} (from : Wire → ContentEncodingMime → Buffer) where
  -- The function that `publish` calls `use` with, on a channel: how its promise settles, and the
  -- commands.
  unfoldable pub publish_on :
      TaskMessage Wire → Answers E → Option (Settled Text E) × List (Command Buffer)
  unfolding get_body get_publish_options assert do_publish
  publish_on message answers =
      let exchange = message.properties.delivery_info.exchange in
      let routing_key = message.properties.delivery_info.routing_key in
      let written =
        do_publish exchange routing_key (get_body from message) (get_publish_options message)
          answers in
      if message.properties.assert_queue
      then and_then (assert exchange routing_key answers) written
      else and_then (answers.check_error, check_queue routing_key ∷ []) written

module _ {Buffer E : Type 0} {D : Deque ℕ} where
  -- The constructor.
  unfoldable pub new_broker : Option Object → Broker Buffer E D
  unfolding or_default
  new_broker options = record {
    options = or_default options;
    channels = new_world E D 2;
    sent = [];
    connection_closed = false;
  }

  abbrev pub used :
      Resource
      → List (Command Buffer)
      → Option (Settled Text E)
      → Broker Buffer E D
      → Option (Settled Text E) × Broker Buffer E D
  used r commands none b = (
    none,
    record b { channels = deliver E D r b.channels; sent = b.sent ++ map (λ c. (r, c)) commands },
  )
  used r commands (some s) b =
      let (s', channels) =
        settle_use E D (λ x. x) (use_resource E D (λ _. returns s) (got r))
          (deliver E D r b.channels) in
      (some s', record b { channels = channels; sent = b.sent ++ map (λ c. (r, c)) commands })

  -- `end`, and behind its two `await`s.
  unfoldable pub end : Broker Buffer E D → Broker Buffer E D
  end b = record b { channels = start_destroy_all E D b.channels }

  unfoldable pub disconnect : Broker Buffer E D → Broker Buffer E D
  unfolding end
  disconnect = end

  unfoldable pub end_drained : Broker Buffer E D → Broker Buffer E D
  end_drained b = record b {
    channels = (finish_destroy_all E D (λ r. codes "closed") b.channels).1;
    connection_closed = true;
  }

module _ {Wire Buffer E : Type 0} {D : Deque ℕ} (from : Wire → ContentEncodingMime → Buffer) where
  -- `publish` up to the `await` of `use`, and from when the channel is delivered: what the promise
  -- is, `none` if it is pending, with the channel still in use.
  unfoldable pub publish : TaskMessage Wire → Broker Buffer E D → Broker Buffer E D
  publish message b = record b { channels = start_get E D b.channels }

  unfoldable pub publish_connected :
      Resource
      → TaskMessage Wire
      → Answers E
      → Broker Buffer E D
      → Option (Settled Text E) × Broker Buffer E D
  unfolding publish_on
  publish_connected r message answers =
      let (settled, commands) = publish_on from message answers in used r commands settled
