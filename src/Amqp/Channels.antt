-- ===== src/Amqp/Channels.antt =====
-- What src/amqp calls on a channel of amqplib: the commands in order, and how the channel answers
-- them.
use node_celery_ts.Prelude.{ℕ, Bool, true, false, Option, List, [], ◌∷◌}
use node_celery_ts.Text.{Text}
use node_celery_ts.Messages.{TaskHeaders, ContentEncodingMime, ContentTypeMime}

-- `AmqpLib.Options.Publish`, with the properties that src/amqp/broker.ts sets.
pub record PublishOptions : Type 0 where
  pub content_encoding : ContentEncodingMime
  pub content_type : ContentTypeMime
  pub correlation_id : Text
  pub delivery_mode : ℕ
  pub headers : TaskHeaders
  pub priority : ℕ
  pub reply_to : Text

-- The properties that src/amqp/backend.ts sets.
pub record SendOptions : Type 0 where
  pub content_encoding : Text
  pub content_type : Text
  pub correlation_id : Text
  pub persistent : Bool
  pub priority : ℕ

pub record QueueOptions : Type 0 where
  pub auto_delete : Bool
  pub durable : Bool
  pub expires : ℕ

pub data Command (Buffer : Type 0) : Type 0 where
  assert_queue : Text → Option QueueOptions → Command Buffer
  assert_exchange : Text → Text → Command Buffer
  check_queue cancel : Text → Command Buffer
  publish : Text → Text → Buffer → PublishOptions → Command Buffer
  send_to_queue : Text → Buffer → SendOptions → Command Buffer
  consume : Text → Bool → Command Buffer

-- How a channel answers: the error of each request that is rejected, and what each write returns,
-- until the end of the history. Between a write that returns false and the next one a "drain" event
-- is emitted.
pub record Answers (E : Type 0) : Type 0 where
  pub queue_error : Option E
  pub exchange_error : Option E
  pub check_error : Option E
  pub writes : List Bool

abbrev pub after_write : {C : Type 0} → C → Bool → Bool × List C → Bool × List C
after_write write true rest = (true, write ∷ [])
after_write write false (ended, rest) = (ended, write ∷ rest)

-- `while (!write()) { await "drain"; }`: whether the loop ends, and the writes.
unfoldable pub write_until : {C : Type 0} → C → List Bool → Bool × List C
write_until write [] = (false, [])
write_until write (b ∷ writes) = after_write write b (write_until write writes)
