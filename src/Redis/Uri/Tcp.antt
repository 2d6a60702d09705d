-- ===== src/Redis/Uri/Tcp.antt =====
-- src/redis/uri/tcp.ts: options from a URI over TCP.
use node_celery_ts.Prelude.{ℕ, ◌==◌, Bool, true, false, Option, none, some, [], ◌∷◌, if◌then◌else◌}
use node_celery_ts.Text.{Text, codes, text_eq, is_digit}
use node_celery_ts.Text.Keys.{text_keys}
use node_celery_ts.JsMap
use node_celery_ts.Result.{Error, Result, ok, err, ◌>>=◌}
use node_celery_ts.Objects.{Value, text, number, Object, merge}
use node_celery_ts.Utility.{parse_integer}
use node_celery_ts.Uri.{
  Scheme, amqp, amqp_secure, redis, redis_secure, redis_sentinel, redis_sentinel_secure,
  redis_socket, redis_socket_secure, rpc, rpc_secure, scheme_text, Uri, UserInfo, Authority, UriJs,
  get_scheme, parse_uri,
}
use node_celery_ts.Redis.Uri.Common.{parse_redis_query}

-- The digits that `\d+` takes.
abbrev pub leading_digits : Text → Text
leading_digits [] = []
leading_digits (c ∷ s) = let rest = leading_digits s in if is_digit c then c ∷ rest else []

-- `0*` leaves one digit.
abbrev pub strip_zeros : Text → Text
strip_zeros [] = []
strip_zeros (c ∷ []) = c ∷ []
strip_zeros (c ∷ d ∷ s) = let rest = strip_zeros (d ∷ s) in if c == b'0' then rest else c ∷ d ∷ s

abbrev pub parse_digits_found : Text → Result (Option ℕ)
parse_digits_found [] = err Error.parse_error
parse_digits_found (c ∷ s) = parse_integer (strip_zeros (c ∷ s))

-- `/^\/0*(\d+)/`
unfoldable pub parse_db : Text → Result (Option ℕ)
parse_db [] = err Error.parse_error
parse_db (c ∷ s) =
    if c == b'/' then parse_digits_found (leading_digits s) else err Error.parse_error

unfoldable pub add_database : Uri → Object → Result Object
unfolding parse_db
add_database uri iterating =
    if text_eq uri.path (codes "/")
    then ok iterating
    else (parse_db uri.path >>= λ db. ok (JsMap.set (codes "db") (number db) iterating))

abbrev pub set_optional : Text → Option Value → Object → Object
set_optional key none iterating = iterating
set_optional key (some v) iterating = JsMap.set key v iterating

abbrev pub password_of : Option UserInfo → Option Value
password_of none = none
password_of (some i) = elim i.pass [ none ↦ none | some p ↦ some (text p) ]

abbrev pub port_value : Option (Option ℕ) → Option Value
port_value none = none
port_value (some n) = some (number n)

unfoldable pub add_hostname : Authority → Object → Object
add_hostname a iterating = JsMap.set (codes "host") (text a.host) iterating

unfoldable pub add_password : Authority → Object → Object
add_password a iterating = set_optional (codes "password") (password_of a.user_info) iterating

unfoldable pub add_port : Authority → Object → Object
add_port a iterating = set_optional (codes "port") (port_value a.port) iterating

-- `addOptions`, in the order of the members of `Option`.
unfoldable pub add_options : Uri → Authority → Object → Result Object
unfolding add_database add_hostname add_password add_port
add_options uri a options =
    add_database uri options >>= λ o. ok (add_port a (add_password a (add_hostname a o)))

unfoldable pub tcp_options_of : Scheme → Uri → Option Authority → Result Object
unfolding add_options parse_redis_query
tcp_options_of protocol uri none = err Error.parse_error
tcp_options_of protocol uri (some a) =
    add_options uri a ((codes "protocol", text (scheme_text protocol)) ∷ []) >>= λ raw_options.
    parse_redis_query uri.query >>= λ query. ok (merge raw_options query)

unfoldable pub is_tcp_scheme : Scheme → Bool
is_tcp_scheme redis = true
is_tcp_scheme redis_secure = true
is_tcp_scheme amqp = false
is_tcp_scheme amqp_secure = false
is_tcp_scheme redis_sentinel = false
is_tcp_scheme redis_sentinel_secure = false
is_tcp_scheme redis_socket = false
is_tcp_scheme redis_socket_secure = false
is_tcp_scheme rpc = false
is_tcp_scheme rpc_secure = false

unfoldable pub parse_tcp_uri : UriJs → Text → Result Object
unfolding tcp_options_of is_tcp_scheme
parse_tcp_uri U raw_uri = get_scheme raw_uri >>= λ protocol.
    if is_tcp_scheme protocol
    then (parse_uri U raw_uri >>= λ parsed. tcp_options_of protocol parsed parsed.authority)
    else err Error.parse_error
