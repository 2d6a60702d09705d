-- ===== src/Amqp/Backend.antt =====
-- src/amqp/backend.ts: the result backend over RabbitMQ. The messages wait in a map of PromiseMap,
-- the channels are resources of ResourcePool, and `sent` lists the commands with the channel of
-- each. Of a message, only what the backend reads is there: the content and the correlation ID.
pub mod Delivery
pub mod History
pub mod Clients
use node_celery_ts.Prelude.{
  ℕ, Bool, true, false, Option, none, some, List, [], ◌∷◌, ◌++◌, map, if◌then◌else◌, ◌>>=◌,
}
use node_celery_ts.Text.{Text, codes}
use node_celery_ts.Text.Keys.{text_keys}
use node_celery_ts.Objects.{Object}
use node_celery_ts.Result.{Result, err, Error}
use node_celery_ts.Messages.{ResultMessage}
use node_celery_ts.Deque.{Deque}
use node_celery_ts.PromiseMap
use node_celery_ts.PromiseMap.{plain, given, resolve, reject_all}
use node_celery_ts.ResourcePool
use node_celery_ts.ResourcePool.{
  Resource, Settled, new_world, start_get, deliver, use_resource, settle_use, returns, got,
  return_resource, start_destroy_all, finish_destroy_all,
}
use node_celery_ts.Utility.Timeouts.{Timed, promise_settles, create_timeout_promise}
use node_celery_ts.Amqp.Uri.{default_amqp_options}
use node_celery_ts.Amqp.Channels.{Answers, SendOptions, Command, cancel, consume, write_until}
use node_celery_ts.Amqp.Channels
use node_celery_ts.Amqp.Broker.{loop_settled, and_then}

-- The reasons that the class rejects with, and those of amqplib.
pub data Failure : Type 0 where
  disconnecting cancelled_consumer : Failure
  of_channel : ℕ → Failure

pub record Message (Buffer : Type 0) : Type 0 where
  pub content : Buffer
  pub correlation_id : Text

-- `none` is an exception of JSON.parse.
pub record Codec (V Buffer : Type 0) : Type 0 where
  pub stringify : ResultMessage V → Buffer
  pub parse : Buffer → Option (ResultMessage V)

module _ (Buffer : Type 0) (D : Deque ℕ) where
  pub record Backend : Type 0 where
    pub channels : ResourcePool.World Failure D
    pub connection_closed : Bool
    pub options : Object
    pub promises : PromiseMap.World Text (Message Buffer) Failure
    pub routing_key : Text
    pub sent : List (Resource × Command Buffer)

abbrev or_default : Option Object → Object
unfolding default_amqp_options
or_default none = default_amqp_options
or_default (some o) = o

unfoldable pub create_publish_options : {V : Type 0} → ResultMessage V → SendOptions
create_publish_options message = record {
  content_encoding = codes "utf-8";
  content_type = codes "application/json";
  correlation_id = message.task_id;
  persistent = false;
  priority = 0;
}

unfoldable pub parse_message :
    {V Buffer : Type 0} → Codec V Buffer → Message Buffer → Option (ResultMessage V)
parse_message C message = C.parse message.content

unfoldable pub assert_queue : {Buffer : Type 0} → Text → Command Buffer
assert_queue routing_key =
    Channels.assert_queue routing_key
      (some (record { auto_delete = false; durable = false; expires = 86400000 }))

unfoldable pub send_to_queue :
    {Buffer : Type 0}
    → Text
    → SendOptions
    → Buffer
    → List Bool
    → Option (Settled Text Failure) × List (Command Buffer)
send_to_queue routing_key options to_send writes =
    let (ended, commands) =
      write_until (Channels.send_to_queue routing_key to_send options) writes in
    (loop_settled ended, commands)

-- The function that `put` calls `use` with, on a channel: how its promise settles, and the
-- commands.
unfoldable pub put_on :
    {V Buffer : Type 0}
    → Codec V Buffer
    → Text
    → ResultMessage V
    → Answers Failure
    → Option (Settled Text Failure) × List (Command Buffer)
unfolding create_publish_options assert_queue send_to_queue
put_on C routing_key message answers =
    and_then (answers.queue_error, assert_queue routing_key ∷ [])
      (send_to_queue routing_key (create_publish_options message) (C.stringify message)
        answers.writes)

-- `get` from when its promise has a message: only then a timer is started, and what it races with
-- is no promise but the result.
unfoldable pub get_received :
    {V Buffer : Type 0}
    → Codec V Buffer
    → Option ℕ
    → Message Buffer
    → Option (Timed (ResultMessage V))
unfolding parse_message create_timeout_promise
get_received C timeout raw =
    parse_message C raw >>= λ result. create_timeout_promise timeout (promise_settles result ∷ [])

module _ {Buffer : Type 0} {D : Deque ℕ} where
  -- The constructor, which asks the pool for the consumer.
  unfoldable pub new_backend : Text → Option Object → Backend Buffer D
  unfolding or_default
  new_backend routing_key options = record {
    channels = start_get Failure D (new_world Failure D 2);
    connection_closed = false;
    options = or_default options;
    promises = PromiseMap.new_map (some 86400000);
    routing_key = routing_key;
    sent = [];
  }

  abbrev pub sending : Resource → List (Command Buffer) → Backend Buffer D → Backend Buffer D
  sending r commands b = record b { sent = b.sent ++ map (λ c. (r, c)) commands }

  -- The consumer is delivered, and its queue asserted.
  unfoldable pub consumer_connected : Resource → Backend Buffer D → Backend Buffer D
  unfolding assert_queue
  consumer_connected r b =
      sending r (assert_queue b.routing_key ∷ [])
        (record b { channels = deliver Failure D r b.channels })

  unfoldable pub create_consumer : Resource → Backend Buffer D → Backend Buffer D
  create_consumer consumer b = sending consumer (consume b.routing_key true ∷ []) b

  -- `put` up to the `await` of `use`, and from when the channel is delivered.
  unfoldable pub put : {V : Type 0} → ResultMessage V → Backend Buffer D → Backend Buffer D
  put message b = record b { channels = start_get Failure D b.channels }

  abbrev pub used :
      Resource
      → List (Command Buffer)
      → Option (Settled Text Failure)
      → Backend Buffer D
      → Option (Settled Text Failure) × Backend Buffer D
  used r commands none b =
      (none, sending r commands (record b { channels = deliver Failure D r b.channels }))
  used r commands (some s) b =
      let (s', channels) =
        settle_use Failure D (λ x. x) (use_resource Failure D (λ x. returns s) (got r))
          (deliver Failure D r b.channels) in
      (some s', sending r commands (record b { channels = channels }))

  unfoldable pub put_connected :
      {V : Type 0}
      → Codec V Buffer
      → Resource
      → ResultMessage V
      → Answers Failure
      → Backend Buffer D
      → Option (Settled Text Failure) × Backend Buffer D
  unfolding put_on
  put_connected C r message answers b =
      let (settled, commands) = put_on C b.routing_key message answers in used r commands settled b

  -- `get` up to its `await`: the promise that it awaits.
  unfoldable pub get : Text → Backend Buffer D → ℕ × Backend Buffer D
  get task_id b =
      let (p, promises) = PromiseMap.get task_id b.promises in (p, record b { promises = promises })

  unfoldable pub delete : Text → Backend Buffer D → Text × Backend Buffer D
  delete task_id b =
      let (deleted, promises) = PromiseMap.delete task_id b.promises in
      (
        if deleted then codes "deleted" else codes "no result found",
        record b { promises = promises },
      )

  unfoldable pub on_message : Option (Message Buffer) → Backend Buffer D → Backend Buffer D
  on_message none b = record b { promises = (reject_all (given cancelled_consumer) b.promises).1 }
  on_message (some message) b = record b {
    promises = (resolve message.correlation_id (plain message) b.promises).1;
  }

  -- `end` from when there are a consumer and its tag, and behind its `await`s; `none` is the Error
  -- that `return` throws.
  unfoldable pub end : Resource → Text → Backend Buffer D → Backend Buffer D
  end consumer consumer_tag b =
      sending consumer (cancel consumer_tag ∷ [])
        (record b { promises = (reject_all (given disconnecting) b.promises).1 })

  unfoldable pub disconnect : Resource → Text → Backend Buffer D → Backend Buffer D
  unfolding end
  disconnect = end

  abbrev pub destroy_after :
      Option (ResourcePool.World Failure D) → Backend Buffer D → Option (Backend Buffer D)
  destroy_after none b = none
  destroy_after (some channels) b =
      some (record b { channels = start_destroy_all Failure D channels })

  unfoldable pub end_cancelled : Resource → Backend Buffer D → Option (Backend Buffer D)
  end_cancelled consumer b = destroy_after (return_resource Failure D consumer b.channels) b

  unfoldable pub end_drained : Backend Buffer D → Backend Buffer D
  end_drained b = record b {
    channels = (finish_destroy_all Failure D (λ r. codes "closed") b.channels).1;
    connection_closed = true;
  }

  unfoldable pub uri : Backend Buffer D → Result Text
  uri b = err Error.unimplemented_error
