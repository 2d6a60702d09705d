-- ===== src/Redis/Uri/Types.antt =====
-- The types of the options that src/redis/uri/tcp.ts and socket.ts parse: the interfaces of
-- src/redis/basic_options.ts.
use node_celery_ts.Prelude.{
  ◌≡◌, refl, sym, ap, ◌∙◌, Bool, true, false, Option, none, some, [], ◌∷◌, ℕ, if◌then◌else◌,
  Bool-cases, Option-cases, not, inl, inr,
}
use node_celery_ts.Text.{Text, codes, text_eq}
use node_celery_ts.Text.Laws.{if-then, if-else}
use node_celery_ts.Text.Keys.{text_keys}
use node_celery_ts.JsMap
use node_celery_ts.Result.{Error, Result, ok, err, ◌>>=◌, bind-inv}
use node_celery_ts.Utility.{parse_boolean}
use node_celery_ts.QueryParser.{new_query_parser, create_boolean_query_descriptor}
use node_celery_ts.QueryParser.Keeping.{parse-keeps}
use node_celery_ts.Objects.{Value, Object, text, number, boolean, raw, merge}
use node_celery_ts.Objects.Interfaces.{
  Interface, a_number, a_boolean, has_kind, kind_of-text, kind_in, allows, fits, has_required,
  conforms, set-conforms, merge-conforms,
}
use node_celery_ts.Objects.Queries.{scalar-keeps, raw-keeps}
use node_celery_ts.Uri.{
  Queries, Uri, UriJs, Authority, UserInfo, Scheme, scheme_text, get_scheme, parse_uri,
}
use node_celery_ts.Redis.Uri.Interfaces.{tcp_interface, socket_interface}
use node_celery_ts.Redis.Uri.Common.{parse_redis_query, redis_query_descriptors}
use node_celery_ts.Redis.Uri.Tcp.{
  parse_db, add_database, set_optional, password_of, port_value, add_hostname, add_password,
  add_port, add_options, tcp_options_of, is_tcp_scheme, parse_tcp_uri,
}
use node_celery_ts.Redis.Uri.Socket.{is_socket_scheme, validate_path, parse_socket_uri}

parse_redis_query-fits :
    (I : Interface) (query : Option Queries) (options : Object)
    → JsMap.get (codes "noDelay") I ≡ some (record { kind = a_boolean; required = false })
    → JsMap.get (codes "password") I
      ≡ some (record { kind = kind_in (codes "password") query; required = false })
    → parse_redis_query query ≡ ok options
    → fits I options ≡ true
unfolding parse_redis_query redis_query_descriptors new_query_parser create_boolean_query_descriptor
    JsMap.set fits
parse_redis_query-fits I none options d p h = let same : [] ≡ options = cc in ap (fits I) (sym same)
parse_redis_query-fits I (some query) options d p h =
    parse-keeps query (λ x. fits I x ≡ true) (new_query_parser raw redis_query_descriptors) []
      options
      (
        raw-keeps query I (codes "password") (λ v k. ap (λ m. allows m v) p ∙ k),
        (
          scalar-keeps query I (codes "noDelay") parse_boolean boolean a_boolean
              (λ v k. ap (λ m. allows m v) d ∙ k) (λ b. refl),
          tt,
        ),
      )
      refl h

set_optional-conforms :
    (I : Interface) (key : Text) (value : Option Value) (o : Object)
    → ((v : Value) → value ≡ some v → allows (JsMap.get key I) v ≡ true)
    → conforms I o ≡ true
    → conforms I (set_optional key value o) ≡ true
set_optional-conforms I key none o h c = c
set_optional-conforms I key (some v) o h c = set-conforms I key v o (h v refl) c

-- A text is a password either way.
allows-password :
    (query : Option Queries) (t : Text)
    → has_kind (kind_in (codes "password") query) (text t) ≡ true
allows-password none t = refl
allows-password (some query) t = kind_of-text (JsMap.get (codes "password") query) t

module _ (query : Option Queries) where
  abbrev I : Interface
  I = tcp_interface (kind_in (codes "password") query)

  password_of-allows :
      (i : Option UserInfo) (v : Value)
      → password_of i ≡ some v
      → has_kind (kind_in (codes "password") query) v ≡ true
  password_of-allows none v h = cc
  password_of-allows (some i) v h =
      let pass_value : Option Text → Option Value =
        λ o. elim o [ none ↦ none | some p ↦ some (text p) ] in
      elim (Option-cases i.pass) [
        | inl e ↦ let absent : none ≡ some v = ap pass_value (sym e) ∙ h in cc
        | inr (p, e) ↦
            let found : some (text p) ≡ some v = ap pass_value (sym e) ∙ h in
            let same : text p ≡ v = cc in
            ap (has_kind (kind_in (codes "password") query)) (sym same) ∙ allows-password query p
      ]

  port_value-allows :
      (port : Option (Option ℕ)) (v : Value) → port_value port ≡ some v → has_kind a_number v ≡ true
  port_value-allows none v h = cc
  port_value-allows (some n) v h = let same : number n ≡ v = cc in ap (has_kind a_number) (sym same)

  add_database-conforms :
      (uri : Uri) (o options : Object)
      → conforms I o ≡ true
      → add_database uri o ≡ ok options
      → conforms I options ≡ true
  unfolding add_database tcp_interface JsMap.get
  add_database-conforms uri o options c h = elim (Bool-cases (text_eq uri.path (codes "/"))) [
    | inl root ↦
        let same : ok o ≡ ok options = sym (if-then (text_eq uri.path (codes "/")) _ _ root) ∙ h in
        let same' : o ≡ options = cc in ap (conforms I) (sym same') ∙ c
    | inr other ↦
        let (db, l, m) =
          bind-inv (parse_db uri.path) (λ db. ok (JsMap.set (codes "db") (number db) o)) options
            (sym (if-else (text_eq uri.path (codes "/")) _ _ (ap not other)) ∙ h) in
        let same : JsMap.set (codes "db") (number db) o ≡ options = cc in
        ap (conforms I) (sym same) ∙ set-conforms I (codes "db") (number db) o refl c
  ]

  add_options-conforms :
      (uri : Uri) (a : Authority) (o options : Object)
      → conforms I o ≡ true
      → add_options uri a o ≡ ok options
      → conforms I options ≡ true
  unfolding add_options add_hostname add_password add_port tcp_interface JsMap.get
  add_options-conforms uri a o options c h =
      let (d, l, m) =
        bind-inv (add_database uri o) (λ d. ok (add_port a (add_password a (add_hostname a d))))
          options h in
      let same : add_port a (add_password a (add_hostname a d)) ≡ options = cc in
      ap (conforms I) (sym same)
      ∙ set_optional-conforms I (codes "port") (port_value a.port) _ (port_value-allows a.port) (
          set_optional-conforms I (codes "password") (password_of a.user_info) _
            (password_of-allows a.user_info)
            (set-conforms I (codes "host") (text a.host) d refl
              (add_database-conforms uri o d c l)))

  query-fits : (options : Object) → parse_redis_query query ≡ ok options → fits I options ≡ true
  unfolding tcp_interface JsMap.get
  query-fits options h = parse_redis_query-fits I query options refl refl h

start-conforms :
    (query : Option Queries) (protocol : Text)
    → conforms (I query) ((codes "protocol", text protocol) ∷ []) ≡ true
unfolding conforms fits has_required tcp_interface JsMap.get
start-conforms query protocol = refl

tcp_options_of-conforms :
    (protocol : Scheme) (uri : Uri) (a : Option Authority) (options : Object)
    → tcp_options_of protocol uri a ≡ ok options
    → conforms (I uri.query) options ≡ true
unfolding tcp_options_of
tcp_options_of-conforms protocol uri none options h = cc
tcp_options_of-conforms protocol uri (some a) options h =
    let start : Object = (codes "protocol", text (scheme_text protocol)) ∷ [] in
    let (o, l, m) =
      bind-inv (add_options uri a start)
        (λ raw_options. parse_redis_query uri.query >>= λ query. ok (merge raw_options query))
        options h in
    let (q, l', m') =
      bind-inv (parse_redis_query uri.query) (λ query. ok (merge o query)) options m in
    let same : merge o q ≡ options = cc in
    ap (conforms (I uri.query)) (sym same)
    ∙ merge-conforms (I uri.query) o q
        (add_options-conforms uri.query uri a start o
          (start-conforms uri.query (scheme_text protocol)) l)
        (query-fits uri.query q l')

-- A test and its error.
if-ok :
    {A : Type 0} (b : Bool) (p : Result A) (x : Error) (a : A)
    → (if b then p else err x) ≡ ok a
    → p ≡ ok a
if-ok true p x a h = h
if-ok false p x a h = cc

-- If parseUri reads a URI, then what the parser of URIs over TCP returns for it has every property
-- that BasicRedisTcpOptions requires and only properties that it declares, each with a value of its
-- type; except that `password` may be an array of strings when the query has an array for it.
pub parse_tcp_uri-conforms :
    (U : UriJs) (raw_uri : Text) (uri : Uri) (options : Object)
    → parse_uri U raw_uri ≡ ok uri
    → parse_tcp_uri U raw_uri ≡ ok options
    → conforms (tcp_interface (kind_in (codes "password") uri.query)) options ≡ true
unfolding parse_tcp_uri
parse_tcp_uri-conforms U raw_uri uri options parsed h =
    let (protocol, l, m) = bind-inv (get_scheme raw_uri) _ options h in
    tcp_options_of-conforms protocol uri uri.authority options (
      sym (ap (λ r. r >>= λ parsed. tcp_options_of protocol parsed parsed.authority) parsed)
      ∙ if-ok (is_tcp_scheme protocol) _ Error.parse_error options m)

path-conforms :
    (query : Option Queries) (path protocol : Text)
    → conforms
        (socket_interface (kind_in (codes "password") query))
        ((codes "path", text path) ∷ (codes "protocol", text protocol) ∷ [])
      ≡ true
unfolding conforms fits has_required socket_interface JsMap.get
path-conforms query path protocol = refl

-- If parseUri reads a URI, then what the parser of URIs of sockets returns for it has every
-- property that BasicRedisSocketOptions requires and only properties that it declares, each with a
-- value of its type; except that `password` may be an array of strings when the query has an array
-- for it.
pub parse_socket_uri-conforms :
    (U : UriJs) (raw_uri : Text) (uri : Uri) (options : Object)
    → parse_uri U raw_uri ≡ ok uri
    → parse_socket_uri U raw_uri ≡ ok options
    → conforms (socket_interface (kind_in (codes "password") uri.query)) options ≡ true
unfolding parse_socket_uri socket_interface JsMap.get
parse_socket_uri-conforms U raw_uri uri options parsed h =
    let J = socket_interface (kind_in (codes "password") uri.query) in
    let (protocol, l, m) = bind-inv (get_scheme raw_uri) _ options h in
    let base : Text → Object =
      λ p. (codes "path", text p) ∷ (codes "protocol", text (scheme_text protocol)) ∷ [] in
    let (path, l', m') =
      bind-inv (validate_path uri.path)
        (λ path. parse_redis_query uri.query >>= λ query. ok (merge (base path) query)) options
        (sym (
            ap
              (λ r. r >>= λ parsed. validate_path parsed.path >>= λ path.
                parse_redis_query parsed.query >>= λ query. ok (merge (base path) query))
              parsed)
          ∙ if-ok (is_socket_scheme protocol) _ Error.parse_error options m) in
    let (q, l'', m'') =
      bind-inv (parse_redis_query uri.query) (λ query. ok (merge (base path) query)) options m' in
    let same : merge (base path) q ≡ options = cc in
    ap (conforms J) (sym same)
    ∙ merge-conforms J (base path) q (path-conforms uri.query path (scheme_text protocol))
        (parse_redis_query-fits J uri.query q refl refl l'')
