-- ===== src/Redis/Uri/Sentinel.antt =====
-- src/redis/uri/sentinel.ts: options from the URIs of sentinels.
pub mod Groups
pub mod Types
use node_celery_ts.Prelude.{
  ℕ, Bool, true, false, ◌||◌, Option, none, some, List, [], ◌∷◌, map, if◌then◌else◌,
}
use node_celery_ts.Text.{Text, codes, text_eq}
use node_celery_ts.Text.Keys.{text_keys}
use node_celery_ts.JsMap
use node_celery_ts.Result.{Error, Result, ok, err, ◌>>=◌}
use node_celery_ts.Objects.{Value, text, nodes, raw, Object, merge}
use node_celery_ts.QueryParser.{QueryDescriptor, as_scalar, new_query_parser, parse, map_result}
use node_celery_ts.Uri.{
  Scheme, amqp, amqp_secure, redis, redis_secure, redis_sentinel, redis_sentinel_secure,
  redis_socket, redis_socket_secure, rpc, rpc_secure, Uri, Authority, Queries, UriJs, get_scheme,
  parse_uri,
}
use node_celery_ts.Uri.Scan.{split}

unfoldable pub is_sentinel_scheme : Scheme → Bool
is_sentinel_scheme redis_sentinel = true
is_sentinel_scheme redis_sentinel_secure = true
is_sentinel_scheme amqp = false
is_sentinel_scheme amqp_secure = false
is_sentinel_scheme redis = false
is_sentinel_scheme redis_secure = false
is_sentinel_scheme redis_socket = false
is_sentinel_scheme redis_socket_secure = false
is_sentinel_scheme rpc = false
is_sentinel_scheme rpc_secure = false

-- `none` is `undefined`, which is no role.
unfoldable pub parse_role : Option Text → Result Text
parse_role none = err Error.parse_error
parse_role (some role) =
    if text_eq role (codes "master") || text_eq role (codes "slave")
    then ok role
    else err Error.parse_error

unfoldable pub sentinel_descriptors : List (QueryDescriptor Text Value)
unfolding parse_role
sentinel_descriptors =
    record { parser = none; source = codes "name"; target = none }
    ∷ record {
      parser = some (λ x. parse_role (as_scalar x) >>= λ role. ok (text role));
      source = codes "role";
      target = none;
    }
    ∷ []

unfoldable pub parse_queries : Option Queries → Result Object
unfolding sentinel_descriptors
parse_queries none = ok []
parse_queries (some query) = parse (new_query_parser raw sentinel_descriptors) query []

abbrev pub node_of : Option Authority → Result (Text × Option ℕ)
node_of none = err Error.parse_error
node_of (some a) = elim a.port [ none ↦ err Error.parse_error | some port ↦ ok (a.host, port) ]

unfoldable pub parse_authority : Uri → Result (Text × Option ℕ)
unfolding is_sentinel_scheme
parse_authority uri = get_scheme uri.raw >>= λ scheme.
    if is_sentinel_scheme scheme then node_of uri.authority else err Error.parse_error

unfoldable pub parse_individual : UriJs → Text → Result ((Text × Option ℕ) × Object)
unfolding parse_authority parse_queries
parse_individual U raw_uri = parse_uri U raw_uri >>= λ uri. parse_authority uri >>= λ authority.
    parse_queries uri.query >>= λ queries. ok (authority, queries)

-- `reduce((lhs, rhs) => ({ ...lhs, ...rhs }))` from the first of the objects.
unfoldable pub merge_all : Object → List Object → Object
merge_all o [] = o
merge_all o (p ∷ ps) = merge_all (merge o p) ps

-- `split` has at least one part, and so has `parsed`.
abbrev pub individual_options : List Object → Object
individual_options [] = []
individual_options (o ∷ os) = merge_all o os

abbrev pub named_options : List (Text × Option ℕ) → Object → Option Value → Result Object
named_options sentinels options none = err Error.parse_error
named_options sentinels options (some name) = ok (
    JsMap.set (codes "sentinels") (nodes sentinels)
      (JsMap.set (codes "protocol") (text (codes "sentinel")) options))

unfoldable pub sentinel_options : List ((Text × Option ℕ) × Object) → Result Object
unfolding merge_all
sentinel_options parsed =
    let options = individual_options (map (λ p. p.1) parsed) in
    named_options (map (λ p. p.0) parsed) options (JsMap.get (codes "name") options)

unfoldable pub parse_sentinel_uri : UriJs → Text → Result Object
unfolding parse_individual sentinel_options
parse_sentinel_uri U raw_uris =
    map_result (parse_individual U) (split b';' raw_uris) >>= sentinel_options
