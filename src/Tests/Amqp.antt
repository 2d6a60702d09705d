-- ===== src/Tests/Amqp.antt =====
-- src/amqp at concrete inputs.
use node_celery_ts.Prelude.{
  ℕ, suc, arith, ◌≡◌, refl, true, false, Option, none, some, [], ◌∷◌, ◌++◌, map,
}
use node_celery_ts.Text.{Text, codes}
use node_celery_ts.Text.Keys.{text_keys}
use node_celery_ts.JsMap
use node_celery_ts.Result.{ok}
use node_celery_ts.QueryParser.{scalar}
use node_celery_ts.Deque.{Deque, list_deque}
use node_celery_ts.Messages.{
  ResultMessage, success, TaskMessage, ContentEncodingMime, utf8, base64, json,
}
use node_celery_ts.PromiseMap
use node_celery_ts.PromiseMap.{value}
use node_celery_ts.ResourcePool.{created, start_get, new_world, fulfilled}
use node_celery_ts.ResourcePool.Set
use node_celery_ts.ResourcePool.Invariant.{Inv, reachable-Inv}
use node_celery_ts.ResourcePool.Steps.{gets, creates, Reach, here, next}
use node_celery_ts.Uri.{
  Scheme, Uri, UriJs, Parts, parse_uri, uri_of_parsed, validate_host, parse_port,
}
use node_celery_ts.Utility.{to_camel_case, parse_int, digit_value}
use node_celery_ts.Uri.Authorities.{parts_of, user_info_of}
use node_celery_ts.Amqp.Uri.{parse_amqp_uri, protocol_of, is_vhost_char}
use node_celery_ts.Amqp.Uri.Parsing.{
  options_of, parse_amqp_uri-options_of, HasNoVhost, parse_amqp_uri-HasNoVhost,
}
use node_celery_ts.Amqp.Channels.{Answers, Command, send_to_queue}
use node_celery_ts.Amqp.Broker.{flushed, Broker, publish_connected}
use node_celery_ts.Sessions.{IsOrderly}
use node_celery_ts.Amqp.Broker
use node_celery_ts.Amqp.Broker.{new_broker}
use node_celery_ts.Amqp.Broker.History
use node_celery_ts.Amqp.Broker.History.{reachable_broker-IsOrderly}
use node_celery_ts.ResourcePool
use node_celery_ts.ResourcePool.{return_after}
use node_celery_ts.Amqp.Broker.Publishing.{
  repeat, settled_by, unless_refused, refusal, requests, write, publish_connected-settled_by,
}
use node_celery_ts.Amqp.Backend.{
  Backend, Failure, Message, Codec, new_backend, put_on, assert_queue,
}
use node_celery_ts.Amqp.Backend.Delivery.{result_write, HeardInAnyOrder, put_on-HeardInAnyOrder}

abbrev parts : Parts
parts =
    parts_of (codes "/my%2Fhost") (codes "amqp") (codes "Example.com") (some (codes "me"))
      (some (codes "secret")) (some (codes "5672")) none

abbrev js : UriJs
js = record { parse = λ s. some parts; parse_query = λ s. [] }

parse_amqp_uri-options_of_example :
    parse_amqp_uri
      (λ t. some (codes "my/host"))
      js
      (codes "RPC" ++ codes "://me:secret@Example.com:5672/my%2Fhost")
    ≡ ok (
        options_of Scheme.amqp
          (codes "Example.com")
          (user_info_of (some (codes "me")) (some (codes "secret")))
          (some (some 5672))
          (codes "my/host"))
unfolding validate_host parse_port protocol_of parse_int digit_value is_vhost_char
parse_amqp_uri-options_of_example =
    parse_amqp_uri-options_of (λ t. some (codes "my/host")) js Scheme.rpc Scheme.amqp (codes "RPC")
      (codes "me:secret@Example.com:5672") (codes "my%2Fhost") (codes "my/host")
      (codes "/my%2Fhost") (codes "amqp") (codes "Example.com") (some (codes "me"))
      (some (codes "secret")) (some (codes "5672")) (some (some 5672)) refl refl refl refl refl refl
      refl refl

abbrev with_query : Text
with_query = codes "amqp" ++ b':' ∷ (codes "//Example.com/mine" ++ b'?' ∷ codes "heartbeat=5")

abbrev query_parts : Parts
query_parts =
    parts_of (codes "/mine") (codes "amqp") (codes "Example.com") none none none
      (some (codes "heartbeat=5"))

abbrev query_js : UriJs
query_js = record {
  parse = λ s. some query_parts;
  parse_query = λ s. (codes "heartbeat", scalar (codes "5")) ∷ [];
}

abbrev query_uri : Uri
query_uri = record {
  authority = some (record { user_info = none; host = codes "example.com"; port = none });
  path = codes "/mine";
  query = some ((codes "heartbeat", scalar (codes "5")) ∷ []);
  raw = with_query;
  scheme = codes "amqp";
}

query_parsed : parse_uri query_js with_query ≡ ok query_uri
unfolding parse_uri uri_of_parsed to_camel_case
query_parsed = refl

parse_amqp_uri-HasNoVhost_example : HasNoVhost (parse_amqp_uri (λ t. some t) query_js with_query)
unfolding protocol_of
parse_amqp_uri-HasNoVhost_example =
    parse_amqp_uri-HasNoVhost (λ t. some t) query_js Scheme.amqp Scheme.amqp (codes "amqp")
      (codes "//Example.com/mine") (codes "heartbeat=5") query_uri
      (record { user_info = none; host = codes "example.com"; port = none }) refl refl refl
      query_parsed refl

abbrev message : TaskMessage ℕ
message = record {
  body = 7;
  content_encoding = utf8;
  content_type = json;
  headers = record {
    group = none;
    id = codes "id";
    lang = codes "js";
    parent_id = none;
    root_id = codes "id";
    task = codes "add";
    compression = none;
    eta = none;
    expires = none;
    origin = codes "host";
    retries = 0;
    shadow = none;
    timelimit = (none, none);
  };
  properties = record {
    body_encoding = base64;
    correlation_id = codes "id";
    delivery_info = record { exchange = []; routing_key = codes "celery" };
    delivery_mode = 2;
    delivery_tag = codes "tag";
    priority = 0;
    queue = codes "celery";
    assert_queue = true;
    reply_to = codes "id";
  };
}

abbrev D : Deque ℕ
D = list_deque ℕ

abbrev from : ℕ → ContentEncodingMime → ℕ
from w e = suc w

-- The channel 10 is on its way; its first write finds a full buffer.
abbrev broker : Broker ℕ ℕ D
broker = record {
  options = [];
  channels = created ℕ D 10 (start_get ℕ D (new_world ℕ D 2));
  sent = [];
  connection_closed = false;
}

abbrev answers : Answers ℕ
answers = record {
  queue_error = none;
  exchange_error = some 4;
  check_error = none;
  writes = false ∷ true ∷ false ∷ [];
}

granted-Reach : Reach D (new_world ℕ D 2) broker.channels
unfolding start_get new_world
granted-Reach = next (next here gets) (creates 10 (omega arith) refl)

publish_connected-settled_by_example :
    let e = refusal message answers in
    (b' : Broker ℕ ℕ D) × (publish_connected from 10 message answers broker
      ≡ (some (settled_by e), b'))
    × (b'.sent
        ≡ broker.sent
          ++ map
              (λ c. (10, c))
              (requests message ++ unless_refused e (repeat 2 (write from message))))
    × (Set.has 10 b'.channels.in_use ≡ false)
    × Inv D b'.channels
unfolding start_get created new_world
publish_connected-settled_by_example =
    publish_connected-settled_by D from message answers 1 (false ∷ []) 10 broker refl
      (reachable-Inv D 2 broker.channels granted-Reach) refl

-- A buffer is what was written into it.
abbrev codec : Codec ℕ (ResultMessage ℕ)
codec = record { stringify = λ m. m; parse = λ s. some s }

abbrev delivers : Command (ResultMessage ℕ) → Option (Message (ResultMessage ℕ))
delivers (send_to_queue routing_key content options) =
    some (record { content = content; correlation_id = options.correlation_id })
delivers _ = none

abbrev result : ResultMessage ℕ
result = record {
  children = [];
  result = 3;
  status = success;
  task_id = codes "id";
  traceback = none;
}

abbrev backend : Backend (ResultMessage ℕ) D
backend = new_backend (codes "queue") none

abbrev sound : Answers Failure
sound = record {
  queue_error = none;
  exchange_error = none;
  check_error = none;
  writes = false ∷ true ∷ [];
}

put_on-HeardInAnyOrder_example :
    let w = result_write codec (codes "queue") result in
    (put_on codec (codes "queue") result sound
      ≡ (some (fulfilled flushed), assert_queue (codes "queue") ∷ repeat 2 w))
    × ((message : Message (ResultMessage ℕ)) × (delivers w ≡ some message)
        × HeardInAnyOrder codec result
            (some 100)
            (value (record { content = result; correlation_id = [] }))
            message
            backend)
unfolding new_backend JsMap.get PromiseMap.new_map
put_on-HeardInAnyOrder_example =
    put_on-HeardInAnyOrder codec delivers result (codes "queue") sound 1 [] (some 100)
      (value (record { content = result; correlation_id = [] })) backend
      (λ routing_key content options. refl) refl refl refl refl refl

-- A channel comes for a call of publish, which waits until its buffer is drained, writes once more,
-- and ends.
abbrev new_b : Broker ℕ ℕ D
unfolding new_broker
new_b = new_broker none

abbrev created_b : Broker ℕ ℕ D
created_b =
    let b = Broker.publish from message new_b in record b { channels = created ℕ D 10 b.channels }

abbrev full : Answers ℕ
full = record { queue_error = none; exchange_error = none; check_error = none; writes = false ∷ [] }

abbrev publishing : Broker ℕ ℕ D
publishing = (publish_connected from 10 message full created_b).1

abbrev written : Broker ℕ ℕ D
written = record publishing {
  sent = publishing.sent ++ map (λ c. (10, c)) (write from message ∷ []);
}

abbrev released : Broker ℕ ℕ D
released = record written {
  channels = (return_after ℕ D (fulfilled flushed) 10 written.channels).1;
}

released-Reach : History.Reach from new_b released
unfolding new_broker new_world start_get created Broker.publish publish_connected
    ResourcePool.deliver
released-Reach =
    History.next
      (History.next
        (History.next
          (History.next (History.next History.here (History.publishes message))
            (History.creates 10 (omega arith) refl))
          (History.publishes_on 10 message full refl))
        (History.goes_on 10 (write from message ∷ []) refl))
      (History.releases (fulfilled flushed) 10)

reachable_broker-IsOrderly_example : IsOrderly 2 (History.session released)
unfolding new_broker new_b
reachable_broker-IsOrderly_example = reachable_broker-IsOrderly from none released released-Reach
