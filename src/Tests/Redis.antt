-- ===== src/Tests/Redis.antt =====
-- src/redis and src/factories.ts at concrete inputs.
use node_celery_ts.Prelude.{arith, ℕ, ◌≡◌, refl, Option, none, some, [], ◌∷◌, ◌++◌, if◌then◌else◌}
use node_celery_ts.Text.{Text, codes, text_eq}
use node_celery_ts.Text.Keys.{text_keys}
use node_celery_ts.JsMap
use node_celery_ts.Result.{ok, ◌>>=◌}
use node_celery_ts.Objects.{merge, text, number, Object}
use node_celery_ts.Objects.Laws.{final}
use node_celery_ts.QueryParser.{scalar, map_result, parse, new_query_parser}
use node_celery_ts.Deque.{list_deque}
use node_celery_ts.Messages.{ResultMessage, Status, success, failure}
use node_celery_ts.PromiseMap
use node_celery_ts.PromiseMap.{value}
use node_celery_ts.Uri.{Scheme, UriJs, Parts, validate_host, parse_uri, uri_of_parsed, get_scheme}
use node_celery_ts.Utility.{to_camel_case, parse_int, digit_value}
use node_celery_ts.Uri.Scan.{split}
use node_celery_ts.Uri.Authorities.{parts_of}
use node_celery_ts.Redis.Uri.Tcp.{parse_tcp_uri}
use node_celery_ts.Redis.Uri.Sentinel.{parse_individual, parse_sentinel_uri}
use node_celery_ts.Redis.Uri.Sentinel.Groups.{HasGroup, queried, parse_sentinel_uri-HasGroup}
use node_celery_ts.Redis.Options.{
  new_tcp_options, create_uri, create_client, create_options, forced_options, single,
}
use node_celery_ts.Redis.Options.RoundTrip.{
  options_over_tcp, path_of, port_text, create_uri-parse_tcp_uri,
}
use node_celery_ts.Redis.Options.Overrides.{HasOption, properties, create_options-HasOption}
use node_celery_ts.Redis.Backend.{Backend, new_backend, is_uuid}
use node_celery_ts.Redis.Backend.Delivery.{HeardInAnyOrder, get-HeardInAnyOrder}
use node_celery_ts.Redis.Backend.{put, released}
use node_celery_ts.Redis.Backend.Waiting.{put_waits_for_client}
use node_celery_ts.PromiseQueue
use node_celery_ts.ResourcePool.{World, fulfilled, start_get, new_world, deliver, created}
use node_celery_ts.ResourcePool.Steps.{gets, creates, delivers, Reach, here, next}
use node_celery_ts.ResourcePool.Invariant.{reachable-Inv}
use node_celery_ts.Factories.{create_broker, create_backend}
use node_celery_ts.Factories.Outcomes.{
  HasOutcome, supports_broker, supports_backend, factories-HasOutcome,
}

-- urijs on the one string of the test.
abbrev tcp_parts : Parts
tcp_parts =
    parts_of (path_of (some 7)) (codes "redis") (codes "example.com") none (some (codes "secret"))
      (port_text (some 6379)) none

abbrev tcp_js : UriJs
tcp_js = record { parse = λ s. some tcp_parts; parse_query = λ s. [] }

create_uri-parse_tcp_uri_example :
    (create_uri (
        new_tcp_options
          (options_over_tcp (codes "example.com") (some 7) (some (codes "secret")) (some 6379)))
      >>= parse_tcp_uri tcp_js)
    ≡ ok (options_over_tcp (codes "example.com") (some 7) (some (codes "secret")) (some 6379))
unfolding validate_host
create_uri-parse_tcp_uri_example =
    create_uri-parse_tcp_uri tcp_js (codes "example.com") (some 7) (some (codes "secret"))
      (some 6379) (omega arith) (omega arith) refl refl refl

written :
    create_uri (
      new_tcp_options
        (options_over_tcp (codes "example.com") (some 7) (some (codes "secret")) (some 6379)))
    ≡ ok (codes "redis://:secret@example.com:6379/7")
unfolding create_uri new_tcp_options JsMap.get merge JsMap.set
written = refl

abbrev native : Object
native =
    (codes "path", text (codes "/tmp/redis"))
    ∷ (codes "keyPrefix", text (codes "mine-"))
    ∷ (codes "db", number (some 2))
    ∷ []

abbrev override : Object
override = (codes "keyPrefix", text []) ∷ []

create_options-HasOption_example :
    HasOption
      (codes "keyPrefix")
      (final
        (codes "keyPrefix")
        (properties (some override))
        (final (codes "keyPrefix") forced_options (JsMap.get (codes "keyPrefix") native)))
      (create_client (create_options (single native)) (some override))
create_options-HasOption_example =
    create_options-HasOption (codes "keyPrefix") native (some override) refl

-- Two sentinels; the second names the group.
abbrev sentinel_parts : Text → Option Parts
sentinel_parts s =
    if text_eq s (codes "sentinel://a:1")
    then some (parts_of [] (codes "sentinel") (codes "a") none none (some (codes "1")) none)
    else some (
        parts_of [] (codes "sentinel") (codes "b") none none (some (codes "2"))
          (some (codes "name=mine")))

abbrev sentinel_js : UriJs
sentinel_js = record {
  parse = sentinel_parts;
  parse_query = λ s. (codes "name", scalar (codes "mine")) ∷ [];
}

abbrev first_sentinel : (Text × Option ℕ) × Object
first_sentinel = ((codes "a", some 1), [])

abbrev second_sentinel : (Text × Option ℕ) × Object
second_sentinel = ((codes "b", some 2), (codes "name", text (codes "mine")) ∷ [])

two_sentinels :
    map_result (parse_individual sentinel_js) (split b';' (codes "sentinel://a:1;sentinel://b:2"))
    ≡ ok (first_sentinel ∷ second_sentinel ∷ [])
unfolding parse_individual map_result parse_uri uri_of_parsed get_scheme parse new_query_parser
    JsMap.set JsMap.get to_camel_case parse_int digit_value
two_sentinels = refl

parse_sentinel_uri-HasGroup_example :
    HasGroup first_sentinel
      (second_sentinel ∷ [])
      (queried (codes "name") first_sentinel (second_sentinel ∷ []))
      (parse_sentinel_uri sentinel_js (codes "sentinel://a:1;sentinel://b:2"))
parse_sentinel_uri-HasGroup_example =
    parse_sentinel_uri-HasGroup sentinel_js (codes "sentinel://a:1;sentinel://b:2") first_sentinel
      (second_sentinel ∷ []) two_sentinels

-- A string is what was written, and so is what is read.
abbrev V : Type 0
V = ℕ

abbrev result : Status → ResultMessage V
result s = record {
  children = [];
  result = 3;
  status = s;
  task_id = codes "01234567-89ab-cdef-0123-456789ABCDEF";
  traceback = none;
}

abbrev fresh : Backend (ResultMessage V) ℕ (list_deque ℕ)
fresh = new_backend none

get-HeardInAnyOrder_example :
    HeardInAnyOrder
      (λ m. m)
      (λ s. some s)
      (result failure)
      (value (result success))
      fresh
      10
      (some (result failure))
unfolding new_backend is_uuid JsMap.get PromiseMap.new_map
get-HeardInAnyOrder_example =
    get-HeardInAnyOrder (λ m. m) (λ s. some s) (result failure) (value (result success)) fresh 10
      (some (result failure)) refl refl refl refl (result failure, refl, refl)

factories-HasOutcome_example :
    HasOutcome
      (supports_broker Scheme.redis_secure)
      (create_broker (λ t. some t) tcp_js (codes "REDISS" ++ codes "://a"))
    × HasOutcome
        (supports_backend Scheme.redis_secure)
        (create_backend (λ t. some t) tcp_js (codes "id") (codes "REDISS" ++ codes "://a"))
factories-HasOutcome_example =
    factories-HasOutcome (λ t. some t) tcp_js (codes "id") Scheme.redis_secure (codes "REDISS")
      (codes "//a") refl

-- The client 1 is the subscriber's, and 2 that of a get that listens.
abbrev created_first : World ℕ (list_deque ℕ)
created_first =
    created ℕ (list_deque ℕ) 1 (start_get ℕ (list_deque ℕ) (new_world ℕ (list_deque ℕ) 2))

abbrev subscribed : World ℕ (list_deque ℕ)
subscribed = start_get ℕ (list_deque ℕ) (deliver ℕ (list_deque ℕ) 1 created_first)

abbrev created_second : World ℕ (list_deque ℕ)
created_second = created ℕ (list_deque ℕ) 2 subscribed

abbrev listening_pool : World ℕ (list_deque ℕ)
listening_pool = deliver ℕ (list_deque ℕ) 2 created_second

abbrev listening_backend : Backend (ResultMessage V) ℕ (list_deque ℕ)
listening_backend = record fresh { pool = listening_pool }

listening-Reach : Reach (list_deque ℕ) (new_world ℕ (list_deque ℕ) 2) listening_pool
unfolding start_get new_world deliver created
listening-Reach =
    next
      (next
        (next (next (next (next here gets) (creates 1 (omega arith) refl)) (delivers 1 refl)) gets)
        (creates 2 (omega arith) refl))
      (delivers 2 refl)

put_waits_for_client_example :
    let b₁ = put (λ m. m) (λ s. some s) (result success) listening_backend in
    let (outcome, b₂) = released (fulfilled (result success)) 2 b₁ in
    (b₁.sent ≡ listening_backend.sent)
    × (b₁.pool.granted ≡ [])
    × (b₁.pool.creating ≡ 0)
    × ((list_deque ℕ).view b₁.pool.waiting.queue
        ≡ (PromiseQueue.push ℕ ℕ (list_deque ℕ) listening_backend.pool.waiting).0 ∷ [])
    × (outcome ≡ fulfilled (result success))
    × (b₂.pool.granted ≡ 2 ∷ [])
    × ((list_deque ℕ).view b₂.pool.waiting.queue ≡ [])
unfolding start_get new_world deliver created PromiseQueue.new_queue
put_waits_for_client_example =
    put_waits_for_client (λ m. m) (λ s. some s) (result success) (fulfilled (result success)) 2
      listening_backend (reachable-Inv (list_deque ℕ) 2 listening_pool listening-Reach) refl refl
      refl refl
