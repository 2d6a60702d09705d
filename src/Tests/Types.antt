-- ===== src/Tests/Types.antt =====
-- URIs whose queries repeat a property, and the types of the options of src/amqp and src/redis.
use node_celery_ts.Prelude.{◌≡◌, refl, true, false, none, some, [], ◌∷◌}
use node_celery_ts.Text.{Text, codes}
use node_celery_ts.Text.Keys.{text_keys}
use node_celery_ts.JsMap
use node_celery_ts.Result.{ok}
use node_celery_ts.Objects.{Object, merge, text, texts, number, nodes}
use node_celery_ts.Objects.Interfaces.{conforms, a_text, text_or_texts}
use node_celery_ts.QueryParser.{
  many, parse, new_query_parser, map_result, create_integer_query_descriptor,
  create_boolean_query_descriptor,
}
use node_celery_ts.Utility.{to_camel_case, parse_int, digit_value}
use node_celery_ts.Uri.{UriJs, Uri, parse_uri, uri_of_parsed, get_scheme}
use node_celery_ts.Uri.Authorities.{parts_of}
use node_celery_ts.Amqp.Uri.{
  parse_amqp_uri, options_of_uri, options_of_authority, protocol_of, append_options, append_pass,
  append_port, append_user, append_queries, append_vhost, match_vhost, is_vhost_char, parsed_query,
  query_descriptors,
}
use node_celery_ts.Amqp.Uri.Options.{amqp_options, parse_amqp_uri-conforms}
use node_celery_ts.Redis.Uri.Tcp.{
  parse_tcp_uri, tcp_options_of, is_tcp_scheme, add_options, add_database, add_hostname,
  add_password, add_port,
}
use node_celery_ts.Redis.Uri.Common.{parse_redis_query, redis_query_descriptors}
use node_celery_ts.Redis.Uri.Interfaces.{tcp_interface, sentinel_interface}
use node_celery_ts.Redis.Uri.Types.{parse_tcp_uri-conforms}
use node_celery_ts.Redis.Uri.Sentinel.{
  parse_sentinel_uri, parse_individual, parse_authority, is_sentinel_scheme, parse_queries,
  sentinel_descriptors, sentinel_options, merge_all,
}
use node_celery_ts.Redis.Uri.Sentinel.Types.{parse_sentinel_uri-conforms}

-- What urijs makes of a URI with a host and a query that repeats the property.
abbrev repeating : Text → Text → UriJs
repeating scheme property = record {
  parse = λ s. some (
      parts_of (codes "/") scheme (codes "h") none none (some (codes "1"))
        (some (codes "x=a&x=b")));
  parse_query = λ s. (property, many (codes "a" ∷ codes "b" ∷ [])) ∷ [];
}

abbrev uri_of : Text → Text → Text → Uri
uri_of raw_uri scheme property = record {
  authority = some (record { user_info = none; host = codes "h"; port = some (some 1) });
  path = codes "/";
  query = some ((property, many (codes "a" ∷ codes "b" ∷ [])) ∷ []);
  raw = raw_uri;
  scheme = scheme;
}

abbrev amqp_uri : Text
amqp_uri = codes "amqp://h:1/?locale=a&locale=b"

abbrev amqp_js : UriJs
amqp_js = repeating (codes "amqp") (codes "locale")

abbrev repeated_locale : Object
repeated_locale =
    (codes "hostname", text (codes "h"))
    ∷ (codes "protocol", text (codes "amqp"))
    ∷ (codes "port", number (some 1))
    ∷ (codes "locale", texts (codes "a" ∷ codes "b" ∷ []))
    ∷ []

amqp_read : parse_uri amqp_js amqp_uri ≡ ok (uri_of amqp_uri (codes "amqp") (codes "locale"))
unfolding parse_uri uri_of_parsed parse_int to_camel_case digit_value
amqp_read = refl

amqp_parsed : parse_amqp_uri (λ t. some t) amqp_js amqp_uri ≡ ok repeated_locale
unfolding parse_amqp_uri get_scheme parse_uri uri_of_parsed parse_int to_camel_case digit_value
    options_of_uri options_of_authority protocol_of append_options append_pass append_port
    append_user append_queries append_vhost match_vhost is_vhost_char parsed_query query_descriptors
    create_integer_query_descriptor parse new_query_parser JsMap.set JsMap.get
amqp_parsed = refl

parse_amqp_uri-conforms_example : conforms (amqp_options text_or_texts) repeated_locale ≡ true
unfolding JsMap.get
parse_amqp_uri-conforms_example =
    parse_amqp_uri-conforms (λ t. some t) amqp_js amqp_uri
      (uri_of amqp_uri (codes "amqp") (codes "locale")) repeated_locale amqp_read amqp_parsed

-- The declared type of `locale` is string.
repeated_locale-conforms : conforms (amqp_options a_text) repeated_locale ≡ false
unfolding conforms JsMap.get amqp_options
repeated_locale-conforms = refl

abbrev tcp_uri : Text
tcp_uri = codes "redis://h:1/?password=a&password=b"

abbrev tcp_js : UriJs
tcp_js = repeating (codes "redis") (codes "password")

abbrev repeated_password : Object
repeated_password =
    (codes "protocol", text (codes "redis"))
    ∷ (codes "host", text (codes "h"))
    ∷ (codes "port", number (some 1))
    ∷ (codes "password", texts (codes "a" ∷ codes "b" ∷ []))
    ∷ []

tcp_read : parse_uri tcp_js tcp_uri ≡ ok (uri_of tcp_uri (codes "redis") (codes "password"))
unfolding parse_uri uri_of_parsed parse_int to_camel_case digit_value
tcp_read = refl

tcp_parsed : parse_tcp_uri tcp_js tcp_uri ≡ ok repeated_password
unfolding parse_tcp_uri get_scheme parse_uri uri_of_parsed parse_int to_camel_case digit_value
    tcp_options_of is_tcp_scheme add_options add_database add_hostname add_password add_port
    parse_redis_query redis_query_descriptors create_boolean_query_descriptor parse new_query_parser
    merge JsMap.set JsMap.get
tcp_parsed = refl

parse_tcp_uri-conforms_example : conforms (tcp_interface text_or_texts) repeated_password ≡ true
unfolding JsMap.get
parse_tcp_uri-conforms_example =
    parse_tcp_uri-conforms tcp_js tcp_uri (uri_of tcp_uri (codes "redis") (codes "password"))
      repeated_password tcp_read tcp_parsed

abbrev sentinel_uri : Text
sentinel_uri = codes "sentinel://h:1/?name=a&name=b"

abbrev sentinel_js : UriJs
sentinel_js = repeating (codes "sentinel") (codes "name")

abbrev repeated_name : Object
repeated_name =
    (codes "name", texts (codes "a" ∷ codes "b" ∷ []))
    ∷ (codes "protocol", text (codes "sentinel"))
    ∷ (codes "sentinels", nodes ((codes "h", some 1) ∷ []))
    ∷ []

sentinel_parsed : parse_sentinel_uri sentinel_js sentinel_uri ≡ ok repeated_name
unfolding parse_sentinel_uri parse_individual parse_authority is_sentinel_scheme parse_queries
    sentinel_descriptors sentinel_options merge_all map_result get_scheme parse_uri uri_of_parsed
    parse_int to_camel_case digit_value parse new_query_parser merge JsMap.set JsMap.get
sentinel_parsed = refl

parse_sentinel_uri-conforms_example :
    conforms (sentinel_interface text_or_texts) repeated_name ≡ true
parse_sentinel_uri-conforms_example =
    parse_sentinel_uri-conforms sentinel_js sentinel_uri repeated_name sentinel_parsed
