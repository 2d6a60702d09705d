-- ===== src/Messages.antt =====
-- src/messages.ts: the messages that go to a broker and come from a result backend. JSON values are
-- a type of the model; a `Wire` string is the body of a message.
use node_celery_ts.Prelude.{ℕ, Option, Bool, List}
use node_celery_ts.Text.{Text}

mutual
  pub data Json : Type 0 where
    null : Json
    boolean : Bool → Json
    number : ℕ → Json
    string : Text → Json
    array : Items → Json
    object : Fields → Json

  pub data Items : Type 0 where
    no_items : Items
    item : Json → Items → Items

  pub data Fields : Type 0 where
    no_fields : Fields
    field : Text → Json → Fields → Fields

pub data Status : Type 0 where
  failure pending received retry revoked started success : Status

pub data ContentTypeMime : Type 0 where
  json yaml : ContentTypeMime

pub data ContentEncodingMime : Type 0 where
  utf8 base64 : ContentEncodingMime

pub data CompressionMime : Type 0 where
  zlib : CompressionMime

-- The optional fields that the source never sets are left out, and `group`, `parent_id` and
-- `shadow`, which it sets to null, are `none`.
pub record TaskHeaders : Type 0 where
  pub group : Option Text
  pub id : Text
  pub lang : Text
  pub parent_id : Option Text
  pub root_id : Text
  pub task : Text
  pub compression : Option CompressionMime
  pub eta : Option Text
  pub expires : Option Text
  pub origin : Text
  pub retries : ℕ
  pub shadow : Option Text
  pub timelimit : Option ℕ × Option ℕ

pub record TaskDeliveryInfo : Type 0 where
  pub exchange : Text
  pub routing_key : Text

pub record TaskProperties : Type 0 where
  pub body_encoding : ContentEncodingMime
  pub correlation_id : Text
  pub delivery_info : TaskDeliveryInfo
  pub delivery_mode : ℕ
  pub delivery_tag : Text
  pub priority : ℕ
  pub queue : Text
  pub assert_queue : Bool
  pub reply_to : Text

pub record TaskMessage (Wire : Type 0) : Type 0 where
  pub body : Wire
  pub content_encoding : ContentEncodingMime
  pub content_type : ContentTypeMime
  pub headers : TaskHeaders
  pub properties : TaskProperties

pub record ResultMessage (V : Type 0) : Type 0 where
  pub children : List Json
  pub result : V
  pub status : Status
  pub task_id : Text
  pub traceback : Option Text
