-- ===== src/Redis/Options.antt =====
-- src/redis/options.ts: which options a Redis client is made with, and the URI of options. A client
-- is what is passed to the constructor of ioredis.
pub mod Overrides
pub mod RoundTrip
use node_celery_ts.Prelude.{ℕ, true, Option, none, some, List, [], ◌∷◌, ◌++◌, ◌>>=◌, if◌then◌else◌}
use node_celery_ts.Text.{Text, codes}
use node_celery_ts.Text.Keys.{text_keys}
use node_celery_ts.JsMap
use node_celery_ts.Result.{Error, Result, ok, err}
use node_celery_ts.Objects.{Value, text, boolean, Object, merge, value_text, is_truthy}

-- The options of a cluster: its nodes, `redisOptions`, and the others.
pub record ClusterOptions : Type 0 where
  pub cluster_nodes : List (Text × Option ℕ)
  pub redis_options : Option Object
  pub others : Object

-- The classes that implement `RedisOptions`, with their `options`.
pub data RedisOptions : Type 0 where
  tcp_options socket_options sentinel_options : Object → RedisOptions
  cluster_options : ClusterOptions → RedisOptions

-- The options that `createOptions` is called with: `nodes` and `redisOptions`, if they are defined,
-- and the others.
pub record NativeOptions : Type 0 where
  pub nodes : Option (List (Text × Option ℕ))
  pub nested_options : Option Object
  pub properties : Object

-- Options without nodes.
abbrev pub single : Object → NativeOptions
single o = record { nodes = none; nested_options = none; properties = o }

-- The options as those of a cluster, if their `nodes` are not undefined.
unfoldable pub is_cluster : NativeOptions → Option ClusterOptions
is_cluster options = do
  nodes ← options.nodes
  some (record {
    cluster_nodes = nodes;
    redis_options = options.nested_options;
    others = options.properties;
  })

abbrev pub forced_options : Object
forced_options =
    (codes "dropBufferSupport", boolean true)
    ∷ (codes "keyPrefix", text (codes "celery-task-meta-"))
    ∷ (codes "stringNumbers", boolean true)
    ∷ []

unfoldable pub append_default_options : Object → Object
append_default_options options = merge options forced_options

unfoldable pub maybe_override : Object → Option Object → Object
maybe_override options none = options
maybe_override options (some override) = merge options override

-- The four constructors.
unfoldable pub new_tcp_options : Object → RedisOptions
unfolding append_default_options
new_tcp_options options = tcp_options (append_default_options options)

unfoldable pub new_socket_options : Object → RedisOptions
unfolding append_default_options
new_socket_options options = socket_options (append_default_options options)

unfoldable pub new_sentinel_options : Object → RedisOptions
unfolding append_default_options
new_sentinel_options options = sentinel_options (append_default_options options)

abbrev with_defaults : Option Object → Option Object
unfolding append_default_options
with_defaults none = none
with_defaults (some o) = some (append_default_options o)

unfoldable pub new_cluster_options : ClusterOptions → RedisOptions
unfolding with_defaults
new_cluster_options c = cluster_options (record c { redis_options = with_defaults c.redis_options })

-- What ioredis is called with: options, or the nodes and options of a cluster, which takes no
-- override.
pub data Client : Type 0 where
  redis_client : Object → Client
  cluster_client : List (Text × Option ℕ) → ClusterOptions → Client

unfoldable pub create_client : RedisOptions → Option Object → Client
unfolding maybe_override
create_client (tcp_options o) override = redis_client (maybe_override o override)
create_client (socket_options o) override = redis_client (maybe_override o override)
create_client (sentinel_options o) override = redis_client (maybe_override o override)
create_client (cluster_options c) override = cluster_client c.cluster_nodes c

-- `createUri`

-- `uri += text` if the option is defined.
abbrev pub shown : (Text → Text) → Option Value → Text
shown f none = []
shown f (some v) = f (value_text v)

abbrev pub secure_mark : Option Value → Text
secure_mark none = []
secure_mark (some v) = codes "s"

abbrev pub authority_text : Option Value → Option Value → Option Value → Text
authority_text none none port = []
authority_text (some host) password port = value_text host ++ shown (λ t. codes ":" ++ t) port
authority_text none (some password) port = codes "localhost" ++ shown (λ t. codes ":" ++ t) port

unfoldable pub tcp_uri : Object → Text
unfolding value_text
tcp_uri o =
    let password = JsMap.get (codes "password") o in
    codes "redis"
    ++ (secure_mark (JsMap.get (codes "tls") o)
        ++ (codes "://"
            ++ (shown (λ t. codes ":" ++ (t ++ codes "@")) password
                ++ (authority_text (JsMap.get (codes "host") o) password
                      (JsMap.get (codes "port") o)
                    ++ shown (λ t. codes "/" ++ t) (JsMap.get (codes "db") o)))))

-- A path that is not there is written as "undefined".
abbrev path_text : Option Value → Text
path_text none = codes "undefined"
path_text (some v) = value_text v

unfoldable pub socket_uri : Object → Text
socket_uri o =
    codes "redis"
    ++ (secure_mark (JsMap.get (codes "tls") o)
        ++ (codes "+socket://"
            ++ (path_text (JsMap.get (codes "path") o)
                ++ shown (λ t. codes "?password=" ++ t) (JsMap.get (codes "password") o))))

unfoldable pub create_uri : RedisOptions → Result Text
unfolding tcp_uri socket_uri
create_uri (tcp_options o) = ok (tcp_uri o)
create_uri (socket_options o) = ok (socket_uri o)
create_uri (sentinel_options o) = err Error.unimplemented_error
create_uri (cluster_options c) = err Error.unimplemented_error

unfoldable pub default_redis_options : RedisOptions
unfolding new_tcp_options
default_redis_options = new_tcp_options ((codes "protocol", text (codes "redis")) ∷ [])

unfoldable pub create_options : NativeOptions → RedisOptions
unfolding is_cluster new_tcp_options new_socket_options new_sentinel_options new_cluster_options
create_options options =
    let o = options.properties in
    elim (is_cluster options) [
      | some c ↦ new_cluster_options c
      | none ↦
          if is_truthy (JsMap.get (codes "sentinels") o)
          then new_sentinel_options o
          else if is_truthy (JsMap.get (codes "path") o)
          then new_socket_options o
          else new_tcp_options (
              JsMap.set (codes "protocol")
                (text
                  (if is_truthy (JsMap.get (codes "tls") o) then codes "rediss" else codes "redis"))
                o)
    ]
