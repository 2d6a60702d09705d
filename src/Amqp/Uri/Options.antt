-- ===== src/Amqp/Uri/Options.antt =====
-- The type of the options that src/amqp/uri.ts parses: the interface of src/amqp/options.ts.
use node_celery_ts.Prelude.{
  ◌>>=◌ as ◌and_then◌, ◌≡◌, refl, sym, ap, ◌∙◌, true, Option, none, some, [], ◌∷◌, Option-cases,
  inl, inr,
}
use mathlib.Core.List.{reverse}
use node_celery_ts.Text.{Text, codes}
use node_celery_ts.Text.Laws.{and-left, and-right}
use node_celery_ts.Text.Keys.{text_keys}
use node_celery_ts.JsMap
use node_celery_ts.Result.{Error, ok, err, ◌>>=◌, bind-inv}
use node_celery_ts.Utility.{parse_integer}
use node_celery_ts.QueryParser.{new_query_parser, create_integer_query_descriptor}
use node_celery_ts.QueryParser.Keeping.{parse-keeps}
use node_celery_ts.Objects.{Value, Object, text, number, raw}
use node_celery_ts.Objects.Interfaces.{
  Interface, Kind, a_text, a_number, kind_of, kind_in, property, optional, allows, fits,
  has_required, conforms, set-conforms, and-both,
}
use node_celery_ts.Objects.Queries.{scalar-keeps, raw-keeps, required-keeps}
use node_celery_ts.Uri.{Queries, Uri, UriJs, Authority, Scheme, scheme_text, get_scheme, parse_uri}
use node_celery_ts.Uri.Scan.{split}
use node_celery_ts.Amqp.Uri.{
  parsed_query, query_descriptors, append, append_options, append_pass, append_port, append_user,
  append_vhost, append_queries, with_vhost, decoded, match_vhost, map_option, user_info,
  protocol_of, options_of_authority, options_of_uri, options_of_protocol, parse_amqp_uri,
}

-- `AmqpOptions`, but for the type of `locale`.
unfoldable pub amqp_options : Kind → Interface
amqp_options locale =
    optional (codes "channelMax") a_number
    ∷ optional (codes "frameMax") a_number
    ∷ optional (codes "heartbeat") a_number
    ∷ property (codes "hostname") a_text
    ∷ optional (codes "locale") locale
    ∷ optional (codes "password") a_text
    ∷ optional (codes "port") a_number
    ∷ property (codes "protocol") a_text
    ∷ optional (codes "username") a_text
    ∷ optional (codes "vhost") a_text
    ∷ []

module _ (I : Interface) where
  append-conforms :
      (key : Text) (value : Option Value) (o : Object)
      → ((v : Value) → value ≡ some v → allows (JsMap.get key I) v ≡ true)
      → conforms I o ≡ true
      → conforms I (append key value o) ≡ true
  append-conforms key none o h c = c
  append-conforms key (some v) o h c = set-conforms I key v o (h v refl) c

  map_option-allows :
      {A : Type 0} (key : Text) (into : A → Value) (o : Option A)
      → ((a : A) → allows (JsMap.get key I) (into a) ≡ true)
      → (v : Value) → map_option into o ≡ some v
      → allows (JsMap.get key I) v ≡ true
  map_option-allows key into none h v e = cc
  map_option-allows key into (some a) h v e =
      let same : into a ≡ v = cc in ap (allows (JsMap.get key I)) (sym same) ∙ h a

start-conforms :
    (locale : Kind) (host protocol : Text)
    → conforms
        (amqp_options locale)
        ((codes "hostname", text host) ∷ (codes "protocol", text protocol) ∷ [])
      ≡ true
unfolding conforms fits has_required amqp_options JsMap.get
start-conforms locale host protocol = refl

module _ (locale : Kind) where
  append_options-conforms :
      (uri : Uri) (o : Object)
      → conforms (amqp_options locale) o ≡ true
      → conforms (amqp_options locale) (append_options uri o) ≡ true
  unfolding append_options append_pass append_port append_user amqp_options JsMap.get
  append_options-conforms uri o c =
      let I = amqp_options locale in
      append-conforms I (codes "username") _ _
        (map_option-allows I (codes "username") _ (user_info uri) (λ i. refl))
        (append-conforms I (codes "port") _ _
          (map_option-allows I (codes "port") number (uri.authority and_then λ a. a.port)
            (λ n. refl))
          (append-conforms I (codes "password") _ o
            (map_option-allows I (codes "password") text (user_info uri and_then λ i. i.pass)
              (λ t. refl))
            c))

  with_vhost-conforms :
      (decode : Text → Option Text) (vhost : Option Text) (o options : Object)
      → conforms (amqp_options locale) o ≡ true
      → with_vhost decode o vhost ≡ ok options
      → conforms (amqp_options locale) options ≡ true
  unfolding amqp_options JsMap.get
  with_vhost-conforms decode none o options c h =
      let same : o ≡ options = cc in ap (conforms (amqp_options locale)) (sym same) ∙ c
  with_vhost-conforms decode (some vhost) o options c h = elim (Option-cases (decode vhost)) [
    | inl absent ↦
        let failed : err Error.generic ≡ ok options = ap (decoded decode o) (sym absent) ∙ h in cc
    | inr (d, at) ↦
        let same : ok (JsMap.set (codes "vhost") (text d) o) ≡ ok options =
          ap (decoded decode o) (sym at) ∙ h in
        let same' : JsMap.set (codes "vhost") (text d) o ≡ options = cc in
        ap (conforms (amqp_options locale)) (sym same')
        ∙ set-conforms (amqp_options locale) (codes "vhost") (text d) o refl c
  ]

parsed_query-conforms :
    (query : Option Queries) (o options : Object)
    → conforms (amqp_options (kind_in (codes "locale") query)) o ≡ true
    → parsed_query query o ≡ ok options
    → conforms (amqp_options (kind_in (codes "locale") query)) options ≡ true
unfolding amqp_options JsMap.get parsed_query query_descriptors new_query_parser
    create_integer_query_descriptor conforms JsMap.set
parsed_query-conforms none o options c h =
    let same : o ≡ options = cc in ap (conforms (amqp_options a_text)) (sym same) ∙ c
parsed_query-conforms (some query) o options c h =
    let I = amqp_options (kind_of (JsMap.get (codes "locale") query)) in
    let functions = new_query_parser raw query_descriptors in
    and-both (fits I options) (has_required I options)
      (parse-keeps query (λ x. fits I x ≡ true) functions o options
        (
          scalar-keeps query I (codes "channelMax") parse_integer number a_number (λ v k. k)
              (λ n. refl),
          (
            scalar-keeps query I (codes "frameMax") parse_integer number a_number (λ v k. k)
                (λ n. refl),
            (
              scalar-keeps query I (codes "heartbeat") parse_integer number a_number (λ v k. k)
                  (λ n. refl),
              (raw-keeps query I (codes "locale") (λ v k. k), tt),
            ),
          ),
        )
        (and-left (fits I o) (has_required I o) c) h)
      (parse-keeps query (λ x. has_required I x ≡ true) functions o options
        (required-keeps query I functions) (and-right (fits I o) (has_required I o) c) h)

module _ (decode : Text → Option Text) (U : UriJs) where
  options_of_uri-conforms :
      (raw_uri : Text) (protocol : Scheme) (uri : Uri) (a : Option Authority) (options : Object)
      → options_of_authority decode raw_uri protocol uri a ≡ ok options
      → conforms (amqp_options (kind_in (codes "locale") uri.query)) options ≡ true
  unfolding options_of_authority append_queries append_vhost
  options_of_uri-conforms raw_uri protocol uri none options h = cc
  options_of_uri-conforms raw_uri protocol uri (some a) options h =
      let locale = kind_in (codes "locale") uri.query in
      let start : Object =
        append_options uri (
          (codes "hostname", text a.host) ∷ (codes "protocol", text (scheme_text protocol)) ∷ []) in
      let (o, l, m) =
        bind-inv (with_vhost decode start (match_vhost (reverse (split b'/' raw_uri))))
          (append_queries uri) options h in
      parsed_query-conforms uri.query o options
        (with_vhost-conforms locale decode (match_vhost (reverse (split b'/' raw_uri))) start o
          (append_options-conforms locale uri _
            (start-conforms locale a.host (scheme_text protocol)))
          l)
        m

  options_of_protocol-conforms :
      (raw_uri : Text) (protocol : Option Scheme) (uri : Uri) (options : Object)
      → parse_uri U raw_uri ≡ ok uri
      → options_of_protocol decode U raw_uri protocol ≡ ok options
      → conforms (amqp_options (kind_in (codes "locale") uri.query)) options ≡ true
  unfolding options_of_uri
  options_of_protocol-conforms raw_uri none uri options parsed h = cc
  options_of_protocol-conforms raw_uri (some protocol) uri options parsed h =
      options_of_uri-conforms raw_uri protocol uri uri.authority options
        (sym (ap (λ r. r >>= options_of_uri decode raw_uri protocol) parsed) ∙ h)

-- If parseUri reads a URI, then what parseAmqpUri returns for it has every property that
-- AmqpOptions requires and only properties that it declares, each with a value of its type; except
-- that `locale` may be an array of strings when the query has an array for it.
pub parse_amqp_uri-conforms :
    (decode : Text → Option Text) (U : UriJs) (raw_uri : Text) (uri : Uri) (options : Object)
    → parse_uri U raw_uri ≡ ok uri
    → parse_amqp_uri decode U raw_uri ≡ ok options
    → conforms (amqp_options (kind_in (codes "locale") uri.query)) options ≡ true
unfolding parse_amqp_uri
parse_amqp_uri-conforms decode U raw_uri uri options parsed h =
    let (scheme, l, m) =
      bind-inv (get_scheme raw_uri) (λ s. options_of_protocol decode U raw_uri (protocol_of s))
        options h in
    options_of_protocol-conforms decode U raw_uri (protocol_of scheme) uri options parsed m
