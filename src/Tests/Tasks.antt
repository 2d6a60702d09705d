-- ===== src/Tests/Tasks.antt =====
-- src/task.ts, src/client.ts and src/packer at concrete inputs.
use node_celery_ts.Prelude.{
  ℕ, ◌+◌, ◌==◌, ◌≡◌, refl, sym, ap, Option, none, some, true, false, [], ◌∷◌, ◌++◌, if◌then◌else◌,
  ◌>>=◌, map,
}
use node_celery_ts.Text.{Text, codes}
use node_celery_ts.Messages.{Json, no_items, item, no_fields, null, number, TaskMessage}
use node_celery_ts.Packer.{
  Libraries, CompressorType, EncoderType, SerializerType, pack, unpack, create_packer,
}
use node_celery_ts.Packer.Laws.{Lawful, unpack-pack}
use node_celery_ts.Task.{
  Task, new_task, Host, TaskApplyOptions, publish_options, task_body, date_or_null,
}
use node_celery_ts.Task.Publish.{
  ResultBackend, Response, thrown, returned, call_publish, try_publish,
}
use node_celery_ts.Task.Message.{read_body, Consistent, publish_options-read_body}
use node_celery_ts.Task.Transport.{buffer_from, worker_reads, declared, publish_options-publish_on}
use node_celery_ts.ResourcePool.{fulfilled}
use node_celery_ts.Amqp.Channels.{Answers, PublishOptions, publish}
use node_celery_ts.Amqp.Broker.{flushed, publish_on}
use node_celery_ts.Amqp.Broker.Publishing.{repeat}
use node_celery_ts.Redis.Broker
use node_celery_ts.Client.{
  Client, ClientOptions, next_index, create_task, new_client, get_round_robin_strategy,
}
use node_celery_ts.Client.Closing
use node_celery_ts.Client.Closing.{
  ToInvoke, disconnects, ends, Target, of_broker, of_backend, promise_all, disconnect, end,
}
use node_celery_ts.Client.Settling.{calls, closing, targets, fulfilling, covers, closes_all}
use node_celery_ts.Client.RoundRobin.{Ends, round_robin-Ends}
use node_celery_ts.Client.Family.{Family, new_family, Reach, Step}

-- Texts and bytes that remember how they were made. Compressed bytes are no text.
mutual
  pub data Wire : Type 0 where
    json_text : Json → Wire
    yaml_text : Json → Wire
    base64_text : Bytes → Wire

  pub data Bytes : Type 0 where
    text_bytes : Wire → Bytes
    gzipped : Bytes → Bytes
    deflated : Bytes → Bytes

abbrev read_json : Wire → Option Json
read_json (json_text v) = some v
read_json (yaml_text v) = none
read_json (base64_text b) = none

abbrev read_yaml : Wire → Option Json
read_yaml (json_text v) = some v
read_yaml (yaml_text v) = some v
read_yaml (base64_text b) = none

abbrev read_text : Bytes → Wire
read_text (text_bytes s) = s
read_text (gzipped b) = json_text null
read_text (deflated b) = json_text null

abbrev read_base64 : Wire → Bytes
read_base64 (json_text v) = text_bytes (json_text v)
read_base64 (yaml_text v) = text_bytes (yaml_text v)
read_base64 (base64_text b) = b

abbrev unzip : Bytes → Option Bytes
unzip (text_bytes s) = none
unzip (gzipped b) = some b
unzip (deflated b) = some b

abbrev pub libraries : Libraries Wire Bytes
libraries = record {
  stringify = λ v. some (json_text v);
  parse = read_json;
  safe_dump = λ v. some (yaml_text v);
  safe_load = read_yaml;
  from_utf8 = text_bytes;
  to_utf8 = read_text;
  from_base64 = read_base64;
  to_base64 = base64_text;
  gzip_sync = gzipped;
  deflate_sync = deflated;
  unzip_sync = unzip;
}

pub lawful : Lawful libraries
lawful = record {
  WellFormed = λ _. Unit;
  to_utf8-from_utf8 = λ s _. refl;
  from_base64-to_base64 = λ b. refl;
  unzip_sync-gzip_sync = λ b. refl;
  unzip_sync-deflate_sync = λ b. refl;
  stringify-WellFormed = λ v s e. tt;
  parse-stringify = λ v s e. ap (λ o. o >>= read_json) (sym e);
  safe_dump-WellFormed = λ v s e. tt;
  safe_load-safe_dump = λ v s e. ap (λ o. o >>= read_yaml) (sym e);
}

abbrev pub host : Host ℕ
host = record { pid = codes "7"; hostname = codes "h"; to_iso_string = λ n. some (n ∷ []) }

abbrev client_options : ClientOptions ℕ ℕ
client_options = record {
  client_backend = some 9;
  brokers = 10 ∷ 11 ∷ 12 ∷ [];
  id = codes "app";
  task_defaults = none;
}

abbrev pub apply_options : TaskApplyOptions ℕ
apply_options = record {
  args = item (number 1) (item (number 2) no_items);
  compression = some CompressorType.gzip;
  eta = some 5;
  expires = none;
  ignore_result = none;
  kwargs = no_fields;
  priority = none;
  queue = none;
  assert_queue = none;
  serializer = some SerializerType.yaml;
}

-- The client when its closure stands at an index.
abbrev client_at : ClientOptions ℕ ℕ → ℕ → Client ℕ ℕ (Option ℕ)
client_at o i = record (new_client o) { strategy_state = some i }

-- A task of the client whose closure stands at the last broker.
abbrev pub task : Task ℕ (ResultBackend ℕ)
task = (create_task (codes "add") (client_at client_options 2)).0

abbrev pub body : Json
body = task_body apply_options.args apply_options.kwargs

unpack-pack_example :
    (w : Wire) × (pack
        (create_packer libraries SerializerType.yaml CompressorType.zlib EncoderType.base64)
        body
      ≡ some w)
    × (unpack (create_packer libraries SerializerType.yaml CompressorType.zlib EncoderType.base64) w
        ≡ some body)
unpack-pack_example =
    unpack-pack libraries lawful SerializerType.yaml CompressorType.zlib EncoderType.base64 body
      (yaml_text body) refl refl

publish_options-read_body_example :
    (m : TaskMessage Wire) × (publish_options host task libraries apply_options (codes "i")
      ≡ some m)
    × (read_body libraries m ≡ some body)
    × Consistent libraries lawful host task apply_options (codes "i") m
unfolding date_or_null
publish_options-read_body_example =
    publish_options-read_body libraries lawful host task apply_options (codes "i") (yaml_text body)
      (some (5 ∷ [])) none refl refl refl

-- Broker 10 throws, and the others answer with a promise, which the world counts.
abbrev call_of : {Message : Type 0} → ℕ → Message → ℕ → Response ℕ × ℕ
call_of b m w = if b == 10 then (thrown, w + 1) else (returned b, w + 1)

abbrev made : {Broker : Type 0} → Text → Family Broker ℕ → Family Broker ℕ
made name f =
    let (task, client) = create_task name f.client in
    record { client = client; tasks = task ∷ f.tasks }

-- A task at broker 10, and one at broker 11.
abbrev first_made : Family ℕ ℕ
first_made = made (codes "add") (new_family client_options)

abbrev both_made : Family ℕ ℕ
both_made = made (codes "mul") first_made

abbrev first_task : Task ℕ (ResultBackend ℕ)
first_task = (create_task (codes "add") (new_family client_options).client).0

abbrev second_task : Task ℕ (ResultBackend ℕ)
second_task = (create_task (codes "mul") first_made.client).0

-- The first task publishes after the second has moved the index on.
round_robin-Ends_example : Ends (
    try_publish both_made.client.failover_strategy call_of 4
      (codes "message")
      first_task
      both_made.client.strategy_state
      0)
unfolding new_family new_client create_task
round_robin-Ends_example =
    round_robin-Ends call_of (codes "message") client_options 2 12 both_made (second_task ∷ []) []
      first_task 0 refl (λ w. (12, w + 1, refl))
      (Reach.next (Reach.next Reach.here (Step.makes (codes "add"))) (Step.makes (codes "mul")))
      refl

-- With two brokers three calls may be needed: the index is back at broker 10, which throws.
abbrev fewer_brokers : ClientOptions ℕ ℕ
fewer_brokers = record client_options { brokers = 10 ∷ 11 ∷ [] }

abbrev fewer_made : Family ℕ ℕ
fewer_made = made (codes "mul") (made (codes "add") (new_family fewer_brokers))

abbrev fewer_first : Task ℕ (ResultBackend ℕ)
fewer_first = (create_task (codes "add") (new_family fewer_brokers).client).0

abbrev calls_with : ℕ → Option ℕ
calls_with fuel =
    try_publish fewer_made.client.failover_strategy call_of fuel (codes "message") fewer_first
      fewer_made.client.strategy_state 0
    >>= λ r. some r.3

three_calls : (calls_with 2 ≡ none) × (calls_with 3 ≡ some 3)
unfolding new_family new_client create_task new_task get_round_robin_strategy next_index try_publish
    call_publish
three_calls = (refl, refl)

abbrev answers : Answers ℕ
answers = record {
  queue_error = none;
  exchange_error = some 4;
  check_error = none;
  writes = false ∷ true ∷ [];
}

abbrev redis : Broker.Broker Wire
redis = Broker.new_broker none

publish_options-publish_on_example :
    (m : TaskMessage Wire) × (publish_options host task libraries apply_options (codes "i")
      ≡ some m)
    × ((buffer : Bytes) × (options : PublishOptions) × (publish_on (buffer_from libraries) m answers
          ≡ (
            some (fulfilled flushed),
            declared true (codes "celery") ∷ repeat 2 (publish [] (codes "celery") buffer options),
          ))
        × (worker_reads libraries options buffer ≡ some body)
        × (options.correlation_id ≡ codes "i")
        × (options.reply_to ≡ codes "app"))
    × ((Broker.publish (λ m. m.body) m redis).lpushed
        ≡ redis.lpushed ++ (codes "celery", m.body) ∷ [])
unfolding date_or_null create_task new_client
publish_options-publish_on_example =
    publish_options-publish_on libraries lawful host task apply_options (codes "i") (yaml_text body)
      (some (5 ∷ [])) none answers 1 [] (λ m. m.body) redis refl refl refl refl refl refl

-- The promise of a broker is its number, and that of the backend 9.
abbrev promise_of : ToInvoke → Target ℕ ℕ → ℕ
promise_of to_invoke (of_broker b) = b
promise_of to_invoke (of_backend b) = 9

-- The call of the last broker is rejected when only that of the second one has been fulfilled.
closes_all_example :
    let c = client_at client_options 0 in
    let ps = map (promise_of ends) (targets promise_of c) in
    (disconnect (calls promise_of) c [] ≡ closing promise_of disconnects c [])
    × (end (calls promise_of) c [] ≡ closing promise_of ends c [])
    × (promise_all {E = ℕ} ps (fulfilling (11 ∷ []))
        ≡ (if covers ps (11 ∷ []) then Closing.fulfilled else Closing.pending))
    × (promise_all {E = ℕ} ps (fulfilling (11 ∷ []) ++ Closing.rejects 12 5 ∷ [])
        ≡ Closing.rejected 5)
unfolding new_client
closes_all_example =
    closes_all promise_of ends (client_at client_options 0) [] (11 ∷ []) 12 5 [] refl refl
