-- ===== src/Amqp/Uri.antt =====
-- src/amqp/uri.ts and src/amqp/options.ts: connection options from a URI. The options are an object
-- of Objects, and `decode` is decodeURIComponent, which is `none` where it throws.
pub mod Vhost
pub mod Parsing
pub mod Options
use node_celery_ts.Prelude.{
  ◌>>=◌ as ◌and_then◌, ℕ, ◌==◌, leb, Bool, true, ◌&&◌, ◌||◌, not, Option, none, some, List, [], ◌∷◌,
  if◌then◌else◌, length,
}
use mathlib.Core.List.{reverse}
use node_celery_ts.Text.{Text, codes, all_of, is_digit, is_lower, is_upper}
use node_celery_ts.Text.Keys.{text_keys}
use node_celery_ts.JsMap
use node_celery_ts.Result.{Error, Result, ok, err, ◌>>=◌}
use node_celery_ts.Objects.{Value, text, number, raw, Object}
use node_celery_ts.QueryParser.{
  QueryDescriptor, create_integer_query_descriptor, new_query_parser, parse,
}
use node_celery_ts.Uri.{
  Scheme, amqp, amqp_secure, redis, redis_secure, redis_sentinel, redis_sentinel_secure,
  redis_socket, redis_socket_secure, rpc, rpc_secure, scheme_text, Uri, UserInfo, Authority,
  Queries, UriJs, get_scheme, parse_uri,
}
use node_celery_ts.Uri.Scan.{split}

-- `DEFAULT_AMQP_OPTIONS`
unfoldable pub default_amqp_options : Object
default_amqp_options =
    (codes "hostname", text (codes "localhost")) ∷ (codes "protocol", text (codes "amqp")) ∷ []

-- The test on the scheme, with the protocol that it stands for.
unfoldable pub protocol_of : Scheme → Option Scheme
protocol_of amqp = some amqp
protocol_of amqp_secure = some amqp_secure
protocol_of rpc = some amqp
protocol_of rpc_secure = some amqp_secure
protocol_of redis = none
protocol_of redis_secure = none
protocol_of redis_sentinel = none
protocol_of redis_sentinel_secure = none
protocol_of redis_socket = none
protocol_of redis_socket_secure = none

-- `{ ...options, key: value }` if there is a value.
abbrev pub append : Text → Option Value → Object → Object
append key none options = options
append key (some v) options = JsMap.set key v options

abbrev pub map_option : {A B : Type 0} → (A → B) → Option A → Option B
map_option f none = none
map_option f (some a) = some (f a)

abbrev pub user_info : Uri → Option UserInfo
user_info uri = uri.authority and_then λ a. a.user_info

unfoldable pub append_pass : Uri → Object → Object
append_pass uri = append (codes "password") (map_option text (user_info uri and_then λ i. i.pass))

unfoldable pub append_port : Uri → Object → Object
append_port uri = append (codes "port") (map_option number (uri.authority and_then λ a. a.port))

unfoldable pub append_user : Uri → Object → Object
append_user uri = append (codes "username") (map_option (λ i. text i.user) (user_info uri))

unfoldable pub append_options : Uri → Object → Object
unfolding append_pass append_port append_user
append_options uri appending = append_user uri (append_port uri (append_pass uri appending))

unfoldable pub query_descriptors : List (QueryDescriptor Text Value)
query_descriptors =
    create_integer_query_descriptor number (codes "channelMax") none
    ∷ create_integer_query_descriptor number (codes "frameMax") none
    ∷ create_integer_query_descriptor number (codes "heartbeat") none
    ∷ record { parser = none; source = codes "locale"; target = none }
    ∷ []

unfoldable pub parsed_query : Option Queries → Object → Result Object
unfolding query_descriptors
parsed_query none appending = ok appending
parsed_query (some query) appending = parse (new_query_parser raw query_descriptors) query appending

unfoldable pub append_queries : Uri → Object → Result Object
append_queries uri = parsed_query uri.query

-- The virtual host

-- What `.` does not match.
unfoldable pub is_line_end : ℕ → Bool
is_line_end c = c == 10 || (c == 13) || (c == 0x2028) || (c == 0x2029)

-- `[\w\d-.~%]`
unfoldable pub is_vhost_char : ℕ → Bool
is_vhost_char c =
    is_upper c
    || is_lower c
    || is_digit c
    || (c == b'_')
    || (c == b'-')
    || (c == b'.')
    || (c == b'~')
    || (c == b'%')

-- The text before a colon at its end.
unfoldable pub before_colon : Text → Option Text
before_colon [] = none
before_colon (c ∷ []) = if c == b':' then some [] else none
before_colon (c ∷ d ∷ s) = map_option (λ t. c ∷ t) (before_colon (d ∷ s))

unfoldable pub is_one_line : Text → Bool
unfolding is_line_end
is_one_line s = all_of (λ c. not (is_line_end c)) s

abbrev pub every_line : List Text → Bool
every_line [] = true
every_line (s ∷ ss) = is_one_line s && every_line ss

-- The `.+` of the expression, which ends in `last` behind the slash-separated parts of `rest`.
unfoldable pub is_prefix : Text → List Text → Bool
unfolding is_one_line
is_prefix last [] = leb 1 (length last) && is_one_line last
is_prefix last (s ∷ rest) = is_one_line last && every_line (s ∷ rest)

abbrev pub check_prefix : Text → List Text → Option Text → Option Text
check_prefix vhost rest none = none
check_prefix vhost rest (some last) =
    if is_prefix last rest && all_of is_vhost_char vhost then some vhost else none

-- `/^.+:\/\/[^/]*\/([\w\d-.~%]*)$/` on the parts between the slashes, the last one first: the
-- virtual host, the authority, nothing between the two slashes, and a part that ends with the
-- colon.
unfoldable pub match_vhost : List Text → Option Text
unfolding is_prefix before_colon
match_vhost (vhost ∷ authority ∷ [] ∷ scheme ∷ rest) = check_prefix vhost rest (before_colon scheme)
match_vhost _ = none

module _ (decode : Text → Option Text) where
  abbrev pub decoded : Object → Option Text → Result Object
  decoded appending none = err Error.generic
  decoded appending (some vhost) = ok (JsMap.set (codes "vhost") (text vhost) appending)

  abbrev pub with_vhost : Object → Option Text → Result Object
  with_vhost appending none = ok appending
  with_vhost appending (some vhost) = decoded appending (decode vhost)

  unfoldable pub append_vhost : Text → Object → Result Object
  unfolding match_vhost
  append_vhost raw_uri appending = with_vhost appending (match_vhost (reverse (split b'/' raw_uri)))

  -- From when the URI has been parsed.
  unfoldable pub options_of_authority : Text → Scheme → Uri → Option Authority → Result Object
  unfolding append_options append_vhost append_queries
  options_of_authority raw_uri protocol uri none = err Error.parse_error
  options_of_authority raw_uri protocol uri (some a) =
      append_vhost raw_uri (
        append_options uri
          ((codes "hostname", text a.host) ∷ (codes "protocol", text (scheme_text protocol)) ∷ []))
      >>= append_queries uri

  unfoldable pub options_of_uri : Text → Scheme → Uri → Result Object
  options_of_uri raw_uri protocol uri = options_of_authority raw_uri protocol uri uri.authority

  abbrev pub options_of_protocol : UriJs → Text → Option Scheme → Result Object
  options_of_protocol U raw_uri none = err Error.parse_error
  options_of_protocol U raw_uri (some protocol) =
      parse_uri U raw_uri >>= options_of_uri raw_uri protocol

  unfoldable pub parse_amqp_uri : UriJs → Text → Result Object
  unfolding protocol_of options_of_uri
  parse_amqp_uri U raw_uri =
      get_scheme raw_uri >>= λ scheme. options_of_protocol U raw_uri (protocol_of scheme)
