-- ===== src/Uri.antt =====
-- src/uri.ts: URIs from what urijs makes of a string, and the schemes. `UriJs` is the record of the
-- two functions of urijs that are called. A query is its properties in order, as a map of JsMap.
pub mod Scan
pub mod Authorities
pub mod Schemes
use node_celery_ts.Prelude.{ℕ, Option, none, some, List, [], ◌∷◌, map, if◌then◌else◌}
use node_celery_ts.Text.{Text, codes, text_eq, to_lower_case}
use node_celery_ts.Result.{Error, Result, ok, err, ◌>>=◌}
use node_celery_ts.Utility.{to_camel_case, parse_int}
use node_celery_ts.JsMap
use node_celery_ts.Text.Keys.{text_keys}
use node_celery_ts.JsMap.{Eq}
use node_celery_ts.QueryParser.{Raw}
use node_celery_ts.Uri.Scan.{match_scheme, is_label, split, every, is_number, is_query}

pub data Scheme : Type 0 where
  amqp amqp_secure redis redis_secure redis_sentinel redis_sentinel_secure : Scheme
  redis_socket redis_socket_secure rpc rpc_secure : Scheme

abbrev pub scheme_text : Scheme → Text
scheme_text amqp = codes "amqp"
scheme_text amqp_secure = codes "amqps"
scheme_text redis = codes "redis"
scheme_text redis_secure = codes "rediss"
scheme_text redis_sentinel = codes "sentinel"
scheme_text redis_sentinel_secure = codes "sentinels"
scheme_text redis_socket = codes "redis+socket"
scheme_text redis_socket_secure = codes "rediss+socket"
scheme_text rpc = codes "rpc"
scheme_text rpc_secure = codes "rpcs"

pub schemes : List Scheme
schemes =
    amqp ∷ amqp_secure ∷ redis ∷ redis_secure ∷ redis_sentinel ∷ redis_sentinel_secure
    ∷ redis_socket ∷ redis_socket_secure ∷ rpc ∷ rpc_secure ∷ []

pub record UserInfo : Type 0 where
  pub user : Text
  pub pass : Option Text

pub record Authority : Type 0 where
  pub user_info : Option UserInfo
  pub host : Text
  pub port : Option (Option ℕ)

abbrev pub Queries : Type 0
Queries = List (Text × Raw)

pub record Uri : Type 0 where
  pub authority : Option Authority
  pub path : Text
  pub query : Option Queries
  pub raw : Text
  pub scheme : Text

-- `UriJs.Parts`; null and undefined are `none`.
pub record Parts : Type 0 where
  pub protocol : Option Text
  pub username : Option Text
  pub password : Option Text
  pub hostname : Option Text
  pub port : Option Text
  pub path : Option Text
  pub query : Option Text

-- `none` is an exception.
pub record UriJs : Type 0 where
  pub parse : Text → Option Parts
  pub parse_query : Text → Queries

-- `SCHEMES.has(scheme)`, with the member that it is.
abbrev pub find_scheme : Text → List Scheme → Result Scheme
find_scheme t [] = err Error.parse_error
find_scheme t (s ∷ ss) = if text_eq (scheme_text s) t then ok s else find_scheme t ss

abbrev pub known_scheme : Option Text → Result Scheme
known_scheme none = err Error.parse_error
known_scheme (some t) = find_scheme (to_lower_case t) schemes

unfoldable pub get_scheme : Text → Result Scheme
unfolding match_scheme schemes
get_scheme raw_uri = known_scheme (match_scheme raw_uri)

unfoldable pub validate_host : Text → Result Text
unfolding is_label
validate_host host = if every is_label (split b'.' host) then ok host else err Error.parse_error

unfoldable pub parse_port : Text → Result (Option ℕ)
unfolding is_number
parse_port s = if is_number s then ok (parse_int s 10) else err Error.parse_error

add_host : Parts → Uri → Result Uri
unfolding validate_host
add_host parts parsing = elim parts.hostname [
  | none ↦ ok parsing
  | some hostname ↦
      (validate_host hostname >>= λ host. ok (record parsing {
        authority = some (record { user_info = none; host = to_lower_case host; port = none });
      }))
]

-- Objects copied with a new `userInfo`, `pass` or `port`.
with_user_info : Option UserInfo → Authority → Uri → Uri
with_user_info i a u = record u { authority = some (record a { user_info = i }) }

add_host_and_user : Parts → Uri → Result Uri
unfolding add_host with_user_info
add_host_and_user parts parsing = add_host parts parsing >>= λ with_host. elim with_host.authority [
  | none ↦ ok with_host
  | some a ↦ elim parts.username [
    | none ↦ ok with_host
    | some name ↦ ok (with_user_info (some (record { user = name; pass = none })) a with_host)
  ]
]

add_host_user_and_pass : Parts → Uri → Result Uri
unfolding add_host_and_user with_user_info
add_host_user_and_pass parts parsing = add_host_and_user parts parsing >>= λ with_user.
    elim with_user.authority [
      | none ↦ ok with_user
      | some a ↦ elim parts.password [
        | none ↦ ok with_user
        | some password ↦ elim a.user_info [
          | none ↦
              ok (with_user_info (some (record { user = []; pass = some password })) a with_user)
          | some i ↦ ok (with_user_info (some (record i { pass = some password })) a with_user)
        ]
      ]
    ]

unfoldable pub add_host_user_pass_and_port : Parts → Uri → Result Uri
unfolding add_host_user_and_pass parse_port
add_host_user_pass_and_port parts parsing = add_host_user_and_pass parts parsing >>= λ with_pass.
    elim with_pass.authority [
      | none ↦ ok with_pass
      | some a ↦ elim parts.port [
        | none ↦ ok with_pass
        | some port ↦
            (parse_port port >>= λ p.
            ok (record with_pass { authority = some (record a { port = some p }) }))
      ]
    ]

rename : Text → Text → Queries → Queries
rename key cased queries = elim (JsMap.get key queries) [
  | none ↦ JsMap.delete key queries
  | some v ↦ JsMap.delete key (JsMap.set cased v queries)
]

camel_case_query : Queries → Text → Queries
unfolding rename
camel_case_query queries key =
    let cased = to_camel_case key in if text_eq cased key then queries else rename key cased queries

camel_case_keys : List Text → Queries → Queries
unfolding camel_case_query
camel_case_keys [] queries = queries
camel_case_keys (k ∷ ks) queries = camel_case_keys ks (camel_case_query queries k)

key_of : Text × Raw → Text
key_of p = p.0

module _ (U : UriJs) where
  unfoldable pub add_query : Parts → Uri → Result Uri
  unfolding is_query camel_case_keys key_of
  add_query parts parsing = elim parts.query [
    | none ↦ ok parsing
    | some q ↦
        let unconverted = U.parse_query q in
        if is_query q
        then ok
            (record parsing { query = some (camel_case_keys (map key_of unconverted) unconverted) })
        else err Error.parse_error
  ]

  -- From when urijs has parsed the string.
  unfoldable pub uri_of_parts : Text → Parts → Result Uri
  unfolding add_host_user_pass_and_port add_query
  uri_of_parts to_parse parsed = elim parsed.path [
    | none ↦ err Error.parse_error
    | some path ↦ elim parsed.protocol [
      | none ↦ err Error.parse_error
      | some protocol ↦
          (add_host_user_pass_and_port parsed (record {
            authority = none;
            path = path;
            query = none;
            raw = to_parse;
            scheme = to_lower_case protocol;
          })
            >>= add_query parsed)
    ]
  ]

  unfoldable pub uri_of_parsed : Text → Option Parts → Result Uri
  unfolding uri_of_parts
  uri_of_parsed to_parse none = err Error.parse_error
  uri_of_parsed to_parse (some parsed) = uri_of_parts to_parse parsed

  unfoldable pub parse_uri : Text → Result Uri
  parse_uri to_parse = uri_of_parsed to_parse (U.parse to_parse)
