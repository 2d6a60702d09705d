-- ===== src/Redis/Uri/Socket.antt =====
-- src/redis/uri/socket.ts: options from the URI of a socket.
use node_celery_ts.Prelude.{◌==◌, leb, Bool, true, false, ◌&&◌, not, [], ◌∷◌, if◌then◌else◌, length}
use node_celery_ts.Text.{Text, codes, all_of}
use node_celery_ts.Text.Keys.{text_keys}
use node_celery_ts.Result.{Error, Result, ok, err, ◌>>=◌}
use node_celery_ts.Objects.{text, Object, merge}
use node_celery_ts.Uri.{
  Scheme, amqp, amqp_secure, redis, redis_secure, redis_sentinel, redis_sentinel_secure,
  redis_socket, redis_socket_secure, rpc, rpc_secure, scheme_text, UriJs, get_scheme, parse_uri,
}
use node_celery_ts.Redis.Uri.Common.{parse_redis_query}

unfoldable pub is_socket_scheme : Scheme → Bool
is_socket_scheme redis_socket = true
is_socket_scheme redis_socket_secure = true
is_socket_scheme amqp = false
is_socket_scheme amqp_secure = false
is_socket_scheme redis = false
is_socket_scheme redis_secure = false
is_socket_scheme redis_sentinel = false
is_socket_scheme redis_sentinel_secure = false
is_socket_scheme rpc = false
is_socket_scheme rpc_secure = false

-- `/^[^\0]+$/`
unfoldable pub validate_path : Text → Result Text
validate_path path =
    if leb 1 (length path) && all_of (λ c. not (c == 0)) path
    then ok path
    else err Error.parse_error

unfoldable pub parse_socket_uri : UriJs → Text → Result Object
unfolding is_socket_scheme validate_path parse_redis_query
parse_socket_uri U uri = get_scheme uri >>= λ protocol.
    if is_socket_scheme protocol
    then (parse_uri U uri >>= λ parsed. validate_path parsed.path >>= λ path.
        parse_redis_query parsed.query >>= λ query. ok (
          merge ((codes "path", text path) ∷ (codes "protocol", text (scheme_text protocol)) ∷ [])
            query))
    else err Error.parse_error
