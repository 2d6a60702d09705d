-- ===== src/Task.antt =====
-- src/task.ts: a task and the message that applyAsync makes. The failover strategy is a function
-- with a state, which the closure of the source keeps. The host (process id, host name, dates) is
-- the record `Host`.
pub mod Results
pub mod Transport
pub mod Asking
pub mod Answer
pub mod Publish
pub mod Message
pub mod Failover
use node_celery_ts.Prelude.{ℕ, Bool, true, Option, none, some, List, ◌++◌, ◌>>=◌}
use node_celery_ts.Text.{Text, codes}
use node_celery_ts.Messages.{
  Json, null, array, object, Items, no_items, item, Fields, no_fields, field, TaskMessage,
  TaskHeaders, TaskProperties, ContentTypeMime, ContentEncodingMime, CompressionMime,
}
use node_celery_ts.Packer.{
  Libraries, Packer, CompressorType, EncoderType, SerializerType, pack, create_packer,
}

pub data DeliveryMode : Type 0 where
  persistent transient : DeliveryMode

pub record Host (Date : Type 0) : Type 0 where
  pub pid : Text
  pub hostname : Text
  pub to_iso_string : Date → Option Text

-- A parameter with a default.
abbrev pub or_default {ℓ} : {A : Type ℓ} → Option A → A → A
or_default none a = a
or_default (some b) a = b

-- The strategy of the client, which keeps a state of its own; `none` is `undefined`.
abbrev pub FailoverStrategy : Type 0 → Type 0 → Type 0
FailoverStrategy Broker S = List Broker → S → Option Broker × S

pub record TaskOptions (Broker Backend : Type 0) : Type 0 where
  pub app_id : Text
  pub backend : Backend
  pub brokers : List Broker
  pub delivery_mode : Option DeliveryMode
  pub hard_time_limit : Option ℕ
  pub name : Text
  pub queue : Option Text
  pub soft_time_limit : Option ℕ

pub record Task (Broker Backend : Type 0) : Type 0 where
  pub app_id : Text
  pub backend : Backend
  pub broker : Option Broker
  pub brokers : List Broker
  pub delivery_mode : DeliveryMode
  pub name : Text
  pub queue : Text
  pub time_limit : Option ℕ × Option ℕ

-- A `null` limit is `none`, as an undefined one is.
pub get_time_limit : Option ℕ → Option ℕ → Option ℕ × Option ℕ
get_time_limit (some soft) (some hard) = (some soft, some hard)
get_time_limit (some soft) none = (some soft, none)
get_time_limit none (some hard) = (none, some hard)
get_time_limit none none = (none, none)

unfoldable pub new_task :
    {Broker Backend S : Type 0}
    → FailoverStrategy Broker S
    → TaskOptions Broker Backend
    → S
    → Task Broker Backend × S
new_task strategy o s =
    let (broker, s') = strategy o.brokers s in
    (
      record {
        app_id = o.app_id;
        backend = o.backend;
        broker = broker;
        brokers = o.brokers;
        delivery_mode = or_default o.delivery_mode persistent;
        name = o.name;
        queue = or_default o.queue (codes "celery");
        time_limit = get_time_limit o.soft_time_limit o.hard_time_limit;
      },
      s',
    )

pub record TaskApplyOptions (Date : Type 0) : Type 0 where
  pub args : Items
  pub compression : Option CompressorType
  pub eta : Option Date
  pub expires : Option Date
  pub ignore_result : Option Bool
  pub kwargs : Fields
  pub priority : Option ℕ
  pub queue : Option Text
  pub assert_queue : Option Bool
  pub serializer : Option SerializerType

pub select_encoder : CompressorType → EncoderType
select_encoder CompressorType.identity = EncoderType.plaintext
select_encoder CompressorType.gzip = EncoderType.base64
select_encoder CompressorType.zlib = EncoderType.base64

pub real_compressor : CompressorType → CompressorType
real_compressor CompressorType.gzip = CompressorType.zlib
real_compressor CompressorType.identity = CompressorType.identity
real_compressor CompressorType.zlib = CompressorType.zlib

pub get_content_type_mime : SerializerType → ContentTypeMime
get_content_type_mime SerializerType.json = ContentTypeMime.json
get_content_type_mime SerializerType.yaml = ContentTypeMime.yaml

pub get_encoding_mime : EncoderType → ContentEncodingMime
get_encoding_mime EncoderType.base64 = ContentEncodingMime.base64
get_encoding_mime EncoderType.plaintext = ContentEncodingMime.utf8

-- The `compression` of the headers, which the identity has not.
pub compression_header : CompressorType → Option CompressionMime
compression_header CompressorType.identity = none
compression_header CompressorType.gzip = some CompressionMime.zlib
compression_header CompressorType.zlib = some CompressionMime.zlib

pub create_packer_of :
    {Wire Buffer : Type 0}
    → Libraries Wire Buffer
    → SerializerType
    → CompressorType
    → Packer Wire Buffer × EncoderType
unfolding select_encoder real_compressor
create_packer_of L serializer compressor = (
  create_packer L serializer (real_compressor compressor) (select_encoder compressor),
  select_encoder compressor,
)

-- `[args, kwargs, { callbacks: null, ... }]`
pub task_body : Items → Fields → Json
task_body args kwargs = array (
    item (array args) (
      item (object kwargs) (
        item
          (object (
            field (codes "callbacks") null (
              field (codes "chain") null
                (field (codes "chord") null (field (codes "errbacks") null no_fields)))))
          no_items)))

pub pack_body : {Wire Buffer : Type 0} → Items → Fields → Packer Wire Buffer → Option Wire
unfolding task_body
pack_body args kwargs packer = pack packer (task_body args kwargs)

module _ {Date : Type 0} (H : Host Date) where
  -- `none` is an exception, and `some none` is null.
  unfoldable pub date_or_null : Option Date → Option (Option Text)
  date_or_null none = some none
  date_or_null (some date) = do text ← H.to_iso_string date; some (some text)

  pub get_origin : Text
  get_origin = H.pid ++ codes "@" ++ H.hostname

pub get_delivery_mode : DeliveryMode → ℕ
get_delivery_mode transient = 1
get_delivery_mode persistent = 2

module _ {Broker Backend Date : Type 0} (H : Host Date) (t : Task Broker Backend) where
  pub create_headers : CompressorType → Option Text → Option Text → Text → TaskHeaders
  unfolding get_origin compression_header
  create_headers compression eta expires id = record {
    eta = eta;
    expires = expires;
    group = none;
    id = id;
    lang = codes "py";
    origin = get_origin H;
    parent_id = none;
    retries = 0;
    root_id = id;
    shadow = none;
    task = t.name;
    timelimit = t.time_limit;
    compression = compression_header compression;
  }

  pub create_properties : ℕ → EncoderType → Text → ℕ → Text → Bool → TaskProperties
  unfolding get_encoding_mime
  create_properties delivery_mode encoding id priority queue assert_queue = record {
    body_encoding = get_encoding_mime encoding;
    correlation_id = id;
    delivery_info = record { exchange = codes ""; routing_key = queue };
    delivery_mode = delivery_mode;
    delivery_tag = codes "celery";
    queue = queue;
    assert_queue = assert_queue;
    priority = priority;
    reply_to = t.app_id;
  }

  -- The object `publishOptions` of `applyAsync`.
  pub task_message :
      {Wire : Type 0}
      → TaskApplyOptions Date
      → Text
      → EncoderType
      → Wire
      → Option Text
      → Option Text
      → TaskMessage Wire
  unfolding get_content_type_mime create_headers create_properties get_delivery_mode
  task_message o id encoding body eta expires = record {
    body = body;
    content_encoding = get_encoding_mime encoding;
    content_type = get_content_type_mime (or_default o.serializer SerializerType.json);
    headers = create_headers (or_default o.compression CompressorType.identity) eta expires id;
    properties =
        create_properties (get_delivery_mode t.delivery_mode) encoding id (or_default o.priority 0)
          (or_default o.queue t.queue) (or_default o.assert_queue true);
  }

  -- The part of `applyAsync` that makes it, with the new identifier.
  unfoldable pub publish_options :
      {Wire Buffer : Type 0}
      → Libraries Wire Buffer
      → TaskApplyOptions Date
      → Text
      → Option (TaskMessage Wire)
  unfolding create_packer_of pack_body date_or_null task_message
  publish_options L o id =
      let (packer, encoding) =
        create_packer_of L (or_default o.serializer SerializerType.json)
          (or_default o.compression CompressorType.identity) in
      (do
        body ← pack_body o.args o.kwargs packer
        eta ← date_or_null H o.eta
        expires ← date_or_null H o.expires
        some (task_message o id encoding body eta expires))
