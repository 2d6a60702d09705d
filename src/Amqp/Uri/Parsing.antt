-- ===== src/Amqp/Uri/Parsing.antt =====
-- The options that src/amqp/uri.ts parses from whole URIs.
use node_celery_ts.Prelude.{
  ℕ, ◌≡◌, ◌⊎◌, inl, inr, refl, sym, ap, ap₂, subst, ◌∙◌, true, false, Option, none, some, [], ◌∷◌,
  ◌++◌, if◌then◌else◌, append_assoc,
}
use mathlib.Core.List.{reverse}
use node_celery_ts.Uri.Scan.{split}
use node_celery_ts.Text.{Text, codes, to_lower_case, all_of}
use node_celery_ts.Text.Keys.{text_keys}
use node_celery_ts.JsMap
use node_celery_ts.Result.{Error, Result, ok, err, ◌>>=◌}
use node_celery_ts.Objects.{Value, text, number, raw, Object}
use node_celery_ts.QueryParser.{new_query_parser, parse, create_integer_query_descriptor}
use node_celery_ts.QueryParser.Parsing.{latest-other, targets_other, parse-cases}
use node_celery_ts.Utility.{or_else}
use node_celery_ts.Uri.{
  Queries, Scheme, scheme_text, Uri, UserInfo, Authority, UriJs, parse_uri, validate_host,
  add_query,
}
use node_celery_ts.Uri.Schemes.{get_scheme-scheme_text, scheme_text-chars}
use node_celery_ts.Uri.Authorities.{
  user_info_of, port_of, with_authority, bare, parts_of, parse_uri-parts,
}
use node_celery_ts.Amqp.Uri.{
  protocol_of, append, map_option, append_pass, append_port, append_user, append_options,
  append_queries, query_descriptors, is_vhost_char, match_vhost, with_vhost, decoded, append_vhost,
  options_of_uri, options_of_authority, parsed_query, options_of_protocol, parse_amqp_uri,
}
use node_celery_ts.Amqp.Uri.Vhost.{Without, match_vhost-path, match_vhost-query}

-- A property, if there is a value for it.
abbrev pub optional : Text → Option Value → Object
optional key none = []
optional key (some v) = (key, v) ∷ []

abbrev pub pass_of : Option UserInfo → Option Text
pass_of none = none
pass_of (some i) = i.pass

-- The options of an authority with a virtual host.
abbrev pub options_of : Scheme → Text → Option UserInfo → Option (Option ℕ) → Text → Object
options_of protocol host info port vhost =
    (codes "hostname", text (to_lower_case host))
      ∷ (codes "protocol", text (scheme_text protocol))
      ∷ optional (codes "password") (map_option text (pass_of info))
    ++ (optional (codes "port") (map_option number port)
        ++ (optional (codes "username") (map_option (λ i. text i.user) info)
            ++ (codes "vhost", text vhost) ∷ []))

module _ (protocol : Scheme) (u : Uri) (host : Text) (port : Option (Option ℕ)) (vhost : Text) where
  abbrev Set : Option UserInfo → Type 0
  Set info =
      JsMap.set (codes "vhost") (text vhost) (
        append_options (with_authority u info host port) (
          (codes "hostname", text (to_lower_case host))
          ∷ (codes "protocol", text (scheme_text protocol))
          ∷ []))
      ≡ options_of protocol host info port vhost

options-set_user :
    (protocol : Scheme) (u : Uri) (host : Text) (port : Option (Option ℕ)) (vhost name : Text)
    (pass : Option Text)
    → Set protocol u host port vhost (some (record { user = name; pass = pass }))
unfolding append_options JsMap.set
options-set_user protocol u host none vhost name none = refl
options-set_user protocol u host none vhost name (some p) = refl
options-set_user protocol u host (some n) vhost name none = refl
options-set_user protocol u host (some n) vhost name (some p) = refl

options-set :
    (protocol : Scheme) (u : Uri) (host : Text) (port : Option (Option ℕ)) (vhost : Text)
    (info : Option UserInfo)
    → Set protocol u host port vhost info
unfolding append_options JsMap.set
options-set protocol u host none vhost none = refl
options-set protocol u host (some n) vhost none = refl
options-set protocol u host port vhost (some i) =
    options-set_user protocol u host port vhost i.user i.pass

-- From when the scheme has been recognized.
parse_amqp_uri-scheme :
    (decode : Text → Option Text) (U : UriJs) (s p : Scheme) (t r : Text)
    → protocol_of s ≡ some p
    → to_lower_case t ≡ scheme_text s
    → parse_amqp_uri decode U (t ++ b':' ∷ r)
      ≡ (parse_uri U (t ++ b':' ∷ r) >>= options_of_uri decode (t ++ b':' ∷ r) p)
unfolding parse_amqp_uri
parse_amqp_uri-scheme decode U s p t r h e =
    ap (λ x. x >>= λ scheme. options_of_protocol decode U (t ++ b':' ∷ r) (protocol_of scheme))
      (get_scheme-scheme_text s t r e)
    ∙ ap (options_of_protocol decode U (t ++ b':' ∷ r)) h

-- parseAmqpUri on scheme://authority/vhost, for the four schemes of AMQP in either case, an
-- authority without a slash and a virtual host of the characters that appendVhost allows, which
-- decodeURIComponent decodes, when urijs takes a valid hostname and port and no query from the URI:
-- the options are the hostname in lower case, the protocol, the password, port and user name that
-- there are, and the decoded virtual host.
pub parse_amqp_uri-options_of :
    (decode : Text → Option Text) (U : UriJs) (s p : Scheme) (t a v vhost : Text)
    (path protocol hostname : Text) (username password port : Option Text) (n : Option (Option ℕ))
    → protocol_of s ≡ some p
    → to_lower_case t ≡ scheme_text s
    → Without b'/' a
    → all_of is_vhost_char v ≡ true
    → decode v ≡ some vhost
    → U.parse (t ++ b':' ∷ b'/' ∷ b'/' ∷ (a ++ b'/' ∷ v))
      ≡ some (parts_of path protocol hostname username password port none)
    → validate_host hostname ≡ ok hostname
    → port_of port ≡ ok n
    → parse_amqp_uri decode U (t ++ b':' ∷ b'/' ∷ b'/' ∷ (a ++ b'/' ∷ v))
      ≡ ok (options_of p hostname (user_info_of username password) n vhost)
unfolding options_of_uri add_query append_queries parsed_query append_options match_vhost
    options_of_authority
parse_amqp_uri-options_of decode U s p t a v vhost path protocol hostname username password port n
      hs e ha hv hd hu hh hp =
    let raw_uri = t ++ b':' ∷ b'/' ∷ b'/' ∷ (a ++ b'/' ∷ v) in
    let u = bare raw_uri path protocol in
    let info = user_info_of username password in
    let options = append_options (with_authority u info hostname n) (
      (codes "hostname", text (to_lower_case hostname))
      ∷ (codes "protocol", text (scheme_text p))
      ∷ []) in
    parse_amqp_uri-scheme decode U s p t (b'/' ∷ b'/' ∷ (a ++ b'/' ∷ v)) hs e
    ∙ ap (λ x. x >>= options_of_uri decode raw_uri p)
        (parse_uri-parts U raw_uri path protocol hostname username password port none n hu hh hp)
    ∙ ap (λ m. with_vhost decode options m >>= append_queries (with_authority u info hostname n))
        (match_vhost-path t a v (scheme_text-chars s t e).0 (scheme_text-chars s t e).1 ha hv)
    ∙ ap (λ d. decoded decode options d >>= append_queries (with_authority u info hostname n)) hd
    ∙ ap ok (options-set p u hostname n vhost info)

-- Options without a virtual host, or the error of a query.
abbrev pub HasNoVhost : Result Object → Type 0
HasNoVhost r =
    ((o : Object) × (r ≡ ok o) × (JsMap.get (codes "vhost") o ≡ none)) ⊎ (r ≡ err Error.parse_error)

no_vhost-targets : targets_other (codes "vhost") (new_query_parser raw query_descriptors) ≡ true
unfolding new_query_parser query_descriptors create_integer_query_descriptor JsMap.set
no_vhost-targets = refl

parse-HasNoVhost :
    (query : Queries) (init : Object)
    → JsMap.get (codes "vhost") init ≡ none
    → HasNoVhost (parse (new_query_parser raw query_descriptors) query init)
parse-HasNoVhost query init h =
    elim (parse-cases (new_query_parser raw query_descriptors) query init) [
      | inl (o, e, f) ↦ inl (
        o,
        e,
        f (codes "vhost")
            ∙ ap₂ or_else
                (latest-other query (codes "vhost") (new_query_parser raw query_descriptors)
                  no_vhost-targets)
                h,
      )
      | inr (e, fails) ↦ inr e
    ]

parsed_query-HasNoVhost :
    (query : Option Queries) (init : Object)
    → JsMap.get (codes "vhost") init ≡ none
    → HasNoVhost (parsed_query query init)
unfolding parsed_query
parsed_query-HasNoVhost none init h = inl (init, refl, h)
parsed_query-HasNoVhost (some query) init h = parse-HasNoVhost query init h

get-append :
    (k j : Text) (o : Option Value) (m : Object)
    → text_keys.beq j k ≡ false
    → JsMap.get k (append j o m) ≡ JsMap.get k m
get-append k j none m h = refl
get-append k j (some v) m h =
    JsMap.get-set j k v m ∙ ap (λ b. if b then some v else JsMap.get k m) h

get-append_pass :
    (uri : Uri) (m : Object)
    → JsMap.get (codes "vhost") (append_pass uri m) ≡ JsMap.get (codes "vhost") m
unfolding append_pass
get-append_pass uri m = get-append (codes "vhost") (codes "password") _ m refl

get-append_port :
    (uri : Uri) (m : Object)
    → JsMap.get (codes "vhost") (append_port uri m) ≡ JsMap.get (codes "vhost") m
unfolding append_port
get-append_port uri m = get-append (codes "vhost") (codes "port") _ m refl

get-append_user :
    (uri : Uri) (m : Object)
    → JsMap.get (codes "vhost") (append_user uri m) ≡ JsMap.get (codes "vhost") m
unfolding append_user
get-append_user uri m = get-append (codes "vhost") (codes "username") _ m refl

append_options-vhost :
    (uri : Uri) (m : Object)
    → JsMap.get (codes "vhost") (append_options uri m) ≡ JsMap.get (codes "vhost") m
unfolding append_options
append_options-vhost uri m =
    get-append_user uri (append_port uri (append_pass uri m))
    ∙ get-append_port uri (append_pass uri m)
    ∙ get-append_pass uri m

-- parseAmqpUri on a URI of AMQP that urijs parses, with an authority, and that has a question mark
-- behind which no slash comes, gives options without a virtual host, whatever virtual host stands
-- before the question mark, or the error of an invalid query.
pub parse_amqp_uri-HasNoVhost :
    (decode : Text → Option Text) (U : UriJs) (s p : Scheme) (t m q : Text) (uri : Uri)
    (a : Authority)
    → protocol_of s ≡ some p
    → to_lower_case t ≡ scheme_text s
    → Without b'/' q
    → parse_uri U (t ++ b':' ∷ (m ++ b'?' ∷ q)) ≡ ok uri
    → uri.authority ≡ some a
    → HasNoVhost (parse_amqp_uri decode U (t ++ b':' ∷ (m ++ b'?' ∷ q)))
unfolding options_of_uri options_of_authority append_vhost append_queries JsMap.get
parse_amqp_uri-HasNoVhost decode U s p t m q uri a hs e hq hu ha =
    let raw_uri = t ++ b':' ∷ (m ++ b'?' ∷ q) in
    let options =
      append_options uri
        ((codes "hostname", text a.host) ∷ (codes "protocol", text (scheme_text p)) ∷ []) in
    subst HasNoVhost
      (sym (
        parse_amqp_uri-scheme decode U s p t (m ++ b'?' ∷ q) hs e
        ∙ ap (λ x. x >>= options_of_uri decode raw_uri p) hu
        ∙ ap (options_of_authority decode raw_uri p uri) ha
        ∙ ap
            (λ y.
              with_vhost decode options (match_vhost (reverse (split b'/' y)))
              >>= append_queries uri)
            (sym (append_assoc t (b':' ∷ m) (b'?' ∷ q)))
        ∙ ap (λ v. with_vhost decode options v >>= append_queries uri)
            (match_vhost-query (t ++ b':' ∷ m) q hq)))
      (parsed_query-HasNoVhost uri.query options (append_options-vhost uri _))
