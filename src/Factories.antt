-- ===== src/Factories.antt =====
-- src/factories.ts: clients, brokers and result backends from their URIs. A broker or a backend is
-- the options that it is constructed with, `new_uuid` is what `Uuid.v4()` gives, and the two
-- functions of urijs and `decodeURIComponent` are parameters.
pub mod Outcomes
use node_celery_ts.Prelude.{ℕ, Option, none, some, List, [], ◌∷◌}
use node_celery_ts.Text.{Text}
use node_celery_ts.Result.{Error, Result, ok, err, ◌>>=◌}
use node_celery_ts.Objects.{Object}
use node_celery_ts.QueryParser.{map_result}
use node_celery_ts.Uri.{
  Scheme, amqp, amqp_secure, redis, redis_secure, redis_sentinel, redis_sentinel_secure,
  redis_socket, redis_socket_secure, rpc, rpc_secure, UriJs, get_scheme,
}
use node_celery_ts.Redis.Uri.Tcp.{parse_tcp_uri}
use node_celery_ts.Redis.Uri.Socket.{parse_socket_uri}
use node_celery_ts.Redis.Uri.Sentinel.{parse_sentinel_uri}
use node_celery_ts.Redis.Options.{
  RedisOptions, new_tcp_options, new_socket_options, new_sentinel_options,
}
use node_celery_ts.Amqp.Uri.{parse_amqp_uri}
use node_celery_ts.Client.{Client, new_client}

pub data Backend : Type 0 where
  redis_backend : RedisOptions → Backend
  rpc_backend : Text → Object → Backend

pub data Broker : Type 0 where
  redis_broker : RedisOptions → Broker
  amqp_broker : Object → Broker

-- What the `try` block comes to: it returns, falls out of its `switch`, or throws.
pub data Attempt (A : Type 0) : Type 0 where
  returns : A → Attempt A
  falls_through : Attempt A
  throws : Error → Attempt A

abbrev pub attempted : {A B : Type 0} → (A → B) → Result A → Attempt B
attempted f (ok a) = returns (f a)
attempted f (err e) = throws e

-- The `catch` block, and the `throw` behind it.
abbrev pub conclude : {A : Type 0} → Attempt A → Result A
conclude (returns a) = ok a
conclude falls_through = err Error.unimplemented_error
conclude (throws e) = err Error.generic

-- `brokerUrl`: a string, or an array of strings.
pub data BrokerUrl : Type 0 where
  one_url : Text → BrokerUrl
  urls : List Text → BrokerUrl

module _ (decode : Text → Option Text) (U : UriJs) where
  -- The two `switch` statements.
  unfoldable pub backend_of_scheme : Text → Text → Scheme → Attempt Backend
  backend_of_scheme id raw_uri redis =
      attempted (λ o. redis_backend (new_tcp_options o)) (parse_tcp_uri U raw_uri)
  backend_of_scheme id raw_uri redis_socket =
      attempted (λ o. redis_backend (new_socket_options o)) (parse_socket_uri U raw_uri)
  backend_of_scheme id raw_uri redis_sentinel =
      attempted (λ o. redis_backend (new_sentinel_options o)) (parse_sentinel_uri U raw_uri)
  backend_of_scheme id raw_uri rpc = attempted (rpc_backend id) (parse_amqp_uri decode U raw_uri)
  backend_of_scheme id raw_uri amqp = falls_through
  backend_of_scheme id raw_uri amqp_secure = falls_through
  backend_of_scheme id raw_uri redis_secure = falls_through
  backend_of_scheme id raw_uri redis_sentinel_secure = falls_through
  backend_of_scheme id raw_uri redis_socket_secure = falls_through
  backend_of_scheme id raw_uri rpc_secure = falls_through

  unfoldable pub broker_of_scheme : Text → Scheme → Attempt Broker
  broker_of_scheme raw_uri redis =
      attempted (λ o. redis_broker (new_tcp_options o)) (parse_tcp_uri U raw_uri)
  broker_of_scheme raw_uri redis_socket =
      attempted (λ o. redis_broker (new_socket_options o)) (parse_socket_uri U raw_uri)
  broker_of_scheme raw_uri redis_sentinel =
      attempted (λ o. redis_broker (new_sentinel_options o)) (parse_sentinel_uri U raw_uri)
  broker_of_scheme raw_uri amqp = attempted amqp_broker (parse_amqp_uri decode U raw_uri)
  broker_of_scheme raw_uri amqp_secure = falls_through
  broker_of_scheme raw_uri redis_secure = falls_through
  broker_of_scheme raw_uri redis_sentinel_secure = falls_through
  broker_of_scheme raw_uri redis_socket_secure = falls_through
  broker_of_scheme raw_uri rpc = falls_through
  broker_of_scheme raw_uri rpc_secure = falls_through

  abbrev pub with_scheme : {A : Type 0} → (Scheme → Attempt A) → Result Scheme → Attempt A
  with_scheme f (ok scheme) = f scheme
  with_scheme f (err e) = throws e

  unfoldable pub create_backend : Text → Text → Result Backend
  unfolding backend_of_scheme
  create_backend id raw_uri =
      conclude (with_scheme (backend_of_scheme id raw_uri) (get_scheme raw_uri))

  unfoldable pub create_broker : Text → Result Broker
  unfolding broker_of_scheme
  create_broker raw_uri = conclude (with_scheme (broker_of_scheme raw_uri) (get_scheme raw_uri))

  -- No result backend is `NullBackend`, which is what a client has when it gets none.
  abbrev pub client_backend : Text → Option Text → Result (Option Backend)
  client_backend id none = ok none
  client_backend id (some raw_uri) = create_backend id raw_uri >>= λ b. ok (some b)

  abbrev pub client_brokers : BrokerUrl → Result (List Broker)
  client_brokers (one_url raw_uri) = create_broker raw_uri >>= λ b. ok (b ∷ [])
  client_brokers (urls raw_uris) = map_result create_broker raw_uris

  unfoldable pub create_client :
      Text → BrokerUrl → Option Text → Result (Client Broker Backend (Option ℕ))
  create_client new_uuid broker_url result_backend =
      client_backend new_uuid result_backend >>= λ backend. client_brokers broker_url >>= λ brokers.
      ok (
        new_client (record {
          client_backend = backend;
          brokers = brokers;
          id = new_uuid;
          task_defaults = none;
        }))
