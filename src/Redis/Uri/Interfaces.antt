-- ===== src/Redis/Uri/Interfaces.antt =====
-- The interfaces of src/redis/basic_options.ts that the parsers of src/redis/uri return.
use node_celery_ts.Prelude.{[], ◌∷◌}
use node_celery_ts.Text.{codes}
use node_celery_ts.Objects.Interfaces.{
  Interface, Kind, a_text, a_number, a_boolean, a_role, a_family, some_nodes, an_object, property,
  optional,
}

-- `BasicRedisOptions`, but for the type of `password`.
unfoldable pub basic_redis_options : Kind → Interface
basic_redis_options password =
    optional (codes "autoResendUnfulfilledCommands") a_boolean
    ∷ optional (codes "autoResubscribe") a_boolean
    ∷ optional (codes "connectionName") a_text
    ∷ optional (codes "connectTimeout") a_number
    ∷ optional (codes "db") a_number
    ∷ optional (codes "dropBufferSupport") a_boolean
    ∷ optional (codes "enableOfflineQueue") a_boolean
    ∷ optional (codes "enableReadyCheck") a_boolean
    ∷ optional (codes "keepAlive") a_number
    ∷ optional (codes "keyPrefix") a_text
    ∷ optional (codes "lazyConnect") a_boolean
    ∷ optional (codes "noDelay") a_boolean
    ∷ optional (codes "password") password
    ∷ property (codes "protocol") a_text
    ∷ optional (codes "readOnly") a_boolean
    ∷ optional (codes "reconnectOnError") an_object
    ∷ optional (codes "retryStrategy") an_object
    ∷ optional (codes "stringNumbers") a_boolean
    ∷ optional (codes "tls") an_object
    ∷ []

-- `BasicRedisTcpOptions`
unfoldable pub tcp_interface : Kind → Interface
unfolding basic_redis_options
tcp_interface password =
    optional (codes "family") a_family
    ∷ optional (codes "host") a_text
    ∷ optional (codes "port") a_number
    ∷ basic_redis_options password

-- `BasicRedisSocketOptions`
unfoldable pub socket_interface : Kind → Interface
unfolding basic_redis_options
socket_interface password = property (codes "path") a_text ∷ basic_redis_options password

-- `BasicRedisSentinelOptions`, but for the type of `name`.
unfoldable pub sentinel_interface : Kind → Interface
unfolding tcp_interface
sentinel_interface name =
    property (codes "name") name
    ∷ optional (codes "role") a_role
    ∷ optional (codes "sentinelRetryStrategy") an_object
    ∷ property (codes "sentinels") some_nodes
    ∷ tcp_interface a_text
