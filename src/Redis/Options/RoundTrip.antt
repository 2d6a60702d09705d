-- ===== src/Redis/Options/RoundTrip.antt =====
-- parse of src/redis/uri/tcp.ts on what createUri of src/redis/options.ts prints.
use node_celery_ts.Prelude.{
  ℕ, zero, suc, ◌≤◌, ◌<◌, ◌^◌, ◌==◌, ◌≡◌, refl, sym, ap, ◌∙◌, true, not, Option, none, some, [],
  ◌∷◌, ◌++◌, arith, if◌then◌else◌,
}
use node_celery_ts.Text.{Text, codes, text_eq, to_lower_case, is_digit, all_of}
use node_celery_ts.Text.Laws.{and-left, and-right, if-then, if-else}
use node_celery_ts.Text.Keys.{text_keys}
use node_celery_ts.JsMap
use node_celery_ts.Result.{Error, ok, err, ◌>>=◌}
use node_celery_ts.Objects.{Value, text, number, Object, merge, value_text}
use node_celery_ts.Utility.{parse_integer, Radix}
use node_celery_ts.Utility.Digits.{digit, Leads}
use node_celery_ts.Utility.Decimal.{
  decimal, parse_int-decimal, decimal-digits, decimal-Leads, parse_integer-decimal,
}
use node_celery_ts.Uri.{
  Scheme, Uri, Authority, UriJs, parse_uri, validate_host, parse_port, add_query,
}
use node_celery_ts.Uri.Scan.{is_number}
use node_celery_ts.Uri.Schemes.{get_scheme-scheme_text}
use node_celery_ts.Uri.Authorities.{
  user_info_of, port_of, with_authority, bare, parts_of, parse_uri-parts,
}
use node_celery_ts.Redis.Uri.Common.{parse_redis_query}
use node_celery_ts.Redis.Uri.Tcp.{
  leading_digits, strip_zeros, parse_digits_found, parse_db, add_database, add_hostname,
  add_password, add_port, add_options, tcp_options_of, is_tcp_scheme, parse_tcp_uri,
}
use node_celery_ts.Redis.Options.{append_default_options, new_tcp_options, create_uri}

leading_digits-all : (s : Text) → all_of is_digit s ≡ true → leading_digits s ≡ s
leading_digits-all [] h = refl
leading_digits-all (c ∷ s) h =
    if-then (is_digit c) _ _ (and-left (is_digit c) _ h)
    ∙ ap (λ x. c ∷ x) (leading_digits-all s (and-right (is_digit c) _ h))

-- A numeral has no zeros to strip.
strip_zeros-first : (c : ℕ) (s : Text) → not (c == b'0') ≡ true → strip_zeros (c ∷ s) ≡ c ∷ s
strip_zeros-first c [] h = refl
strip_zeros-first c (d ∷ s) h = if-else (c == b'0') _ _ h

parse_digits_found-Leads :
    (n : ℕ) (s : Text) → 1 ≤ n → Leads Radix.decimal n s → parse_digits_found s ≡ parse_integer s
parse_digits_found-Leads n s h (d, t, e, l, p) =
    ap parse_digits_found e
    ∙ ap parse_integer (strip_zeros-first (digit d) t (ground (arith, p h)))
    ∙ ap parse_integer (sym e)

parse_digits_found-decimal : (n : ℕ) → n < 2 ^ 53 → parse_digits_found (decimal n) ≡ ok (some n)
parse_digits_found-decimal zero exact = parse_integer-decimal 0 exact
parse_digits_found-decimal (suc n) exact =
    parse_digits_found-Leads (suc n) (decimal (suc n)) (omega arith) (decimal-Leads (suc n))
    ∙ parse_integer-decimal (suc n) exact

parse_db-decimal : (n : ℕ) → n < 2 ^ 53 → parse_db (b'/' ∷ decimal n) ≡ ok (some n)
unfolding parse_db
parse_db-decimal n exact =
    ap parse_digits_found (leading_digits-all (decimal n) (decimal-digits n))
    ∙ parse_digits_found-decimal n exact

is_number-Leads :
    (n : ℕ) (s : Text) → Leads Radix.decimal n s → all_of is_digit s ≡ true → is_number s ≡ true
unfolding is_number
is_number-Leads n s (d, t, e, l, p) h = ap is_number e ∙ ap (all_of is_digit) (sym e) ∙ h

parse_port-decimal : (n : ℕ) → n < 2 ^ 53 → parse_port (decimal n) ≡ ok (some n)
unfolding parse_port
parse_port-decimal n exact =
    if-then (is_number (decimal n)) _ _
      (is_number-Leads n (decimal n) (decimal-Leads n) (decimal-digits n))
    ∙ ap ok (parse_int-decimal n exact)

abbrev option : {A : Type 0} → Text → (A → Value) → Option A → Object
option key f none = []
option key f (some a) = (key, f a) ∷ []

abbrev written : {A : Type 0} → (A → Text) → Option A → Text
written f none = []
written f (some a) = f a

-- Options over TCP as parse makes them.
abbrev pub options_over_tcp : Text → Option ℕ → Option Text → Option ℕ → Object
options_over_tcp host db password port =
    (codes "protocol", text (codes "redis")) ∷ option (codes "db") (λ n. number (some n)) db
    ++ ((codes "host", text host) ∷ option (codes "password") text password
        ++ option (codes "port") (λ n. number (some n)) port)

-- What stands behind the scheme and the colon.
abbrev pub hierarchy : Text → Option ℕ → Option Text → Option ℕ → Text
hierarchy host db password port =
    codes "//"
    ++ (written (λ p. codes ":" ++ (p ++ codes "@")) password
        ++ ((host ++ written (λ n. codes ":" ++ decimal n) port)
            ++ written (λ n. codes "/" ++ decimal n) db))

create_uri-hierarchy :
    (host : Text) (db : Option ℕ) (password : Option Text) (port : Option ℕ)
    → create_uri (new_tcp_options (options_over_tcp host db password port))
      ≡ ok (codes "redis" ++ b':' ∷ hierarchy host db password port)
unfolding create_uri new_tcp_options append_default_options merge value_text JsMap.get JsMap.set
create_uri-hierarchy host none none none = refl
create_uri-hierarchy host none none (some n) = refl
create_uri-hierarchy host none (some p) none = refl
create_uri-hierarchy host none (some p) (some n) = refl
create_uri-hierarchy host (some m) none none = refl
create_uri-hierarchy host (some m) none (some n) = refl
create_uri-hierarchy host (some m) (some p) none = refl
create_uri-hierarchy host (some m) (some p) (some n) = refl

abbrev pub path_of : Option ℕ → Text
path_of none = codes "/"
path_of (some n) = b'/' ∷ decimal n

abbrev pub port_text : Option ℕ → Option Text
port_text none = none
port_text (some n) = some (decimal n)

abbrev port_number : Option ℕ → Option (Option ℕ)
port_number none = none
port_number (some n) = some (some n)

-- Doubles have the number exactly, if there is one.
abbrev pub IsExact : Option ℕ → Type 0
IsExact none = Unit
IsExact (some n) = n < 2 ^ 53

port_of-port_text :
    (port : Option ℕ) → IsExact port → port_of (port_text port) ≡ ok (port_number port)
port_of-port_text none exact = refl
port_of-port_text (some n) exact = ap (λ r. r >>= λ p. ok (some p)) (parse_port-decimal n exact)

abbrev init : Object
init = (codes "protocol", text (codes "redis")) ∷ []

numeral-NotRoot :
    (n : ℕ) (s : Text) → Leads Radix.decimal n s → not (text_eq (b'/' ∷ s) (codes "/")) ≡ true
numeral-NotRoot n s (d, t, e, l, p) = ap (λ x. not (text_eq (b'/' ∷ x) (codes "/"))) e

add_database-path_of :
    (uri : Uri) (db : Option ℕ)
    → IsExact db
    → uri.path ≡ path_of db
    → add_database uri init ≡ ok (init ++ option (codes "db") (λ n. number (some n)) db)
unfolding add_database JsMap.set
add_database-path_of uri none exact e = ap (λ p. add_database (record uri { path = p }) init) e
add_database-path_of uri (some n) exact e =
    ap (λ p. add_database (record uri { path = p }) init) e
    ∙ if-else (text_eq (b'/' ∷ decimal n) (codes "/")) _ _
        (numeral-NotRoot n (decimal n) (decimal-Leads n))
    ∙ ap (λ r. r >>= λ db. ok (JsMap.set (codes "db") (number db) init)) (parse_db-decimal n exact)

abbrev found : Text → Option Text → Option ℕ → Authority
found host password port = record {
  user_info = user_info_of none password;
  host = host;
  port = port_number port;
}

-- The options of an authority, from when the database has been added.
finish-options_over_tcp :
    (host : Text) (db : Option ℕ) (password : Option Text) (port : Option ℕ)
    → (parse_redis_query none >>= λ query. ok (
        merge
          (add_port (found host password port) (
            add_password (found host password port) (
              add_hostname
                (found host password port)
                (init ++ option (codes "db") (λ n. number (some n)) db))))
          query))
      ≡ ok (options_over_tcp host db password port)
unfolding parse_redis_query merge add_port add_password add_hostname JsMap.set
finish-options_over_tcp host none none none = refl
finish-options_over_tcp host none none (some n) = refl
finish-options_over_tcp host none (some p) none = refl
finish-options_over_tcp host none (some p) (some n) = refl
finish-options_over_tcp host (some m) none none = refl
finish-options_over_tcp host (some m) none (some n) = refl
finish-options_over_tcp host (some m) (some p) none = refl
finish-options_over_tcp host (some m) (some p) (some n) = refl

-- `RedisTcpOptions.createUri` writes the options over TCP of a host in lower case as
-- redis://:password@host:port/db, without the parts that are not there, and parseRedisTcpUri reads
-- the same options from it, when urijs takes the host, the password, the port and the path from it
-- and the host is valid. The database and the port are below 2 ^ 53, up to which the numbers of the
-- source are exact. The options that every client has are not in the URI and not read.
pub create_uri-parse_tcp_uri :
    (U : UriJs) (host : Text) (db : Option ℕ) (password : Option Text) (port : Option ℕ)
    → IsExact db
    → IsExact port
    → validate_host host ≡ ok host
    → to_lower_case host ≡ host
    → U.parse (codes "redis" ++ b':' ∷ hierarchy host db password port)
      ≡ some (parts_of (path_of db) (codes "redis") host none password (port_text port) none)
    → (create_uri (new_tcp_options (options_over_tcp host db password port)) >>= parse_tcp_uri U)
      ≡ ok (options_over_tcp host db password port)
unfolding parse_tcp_uri add_query add_options
create_uri-parse_tcp_uri U host db password port exact_db exact_port hv lower hu =
    let h = hierarchy host db password port in
    let uri = codes "redis" ++ b':' ∷ h in
    let u = bare uri (path_of db) (codes "redis") in
    let w = with_authority u (user_info_of none password) host (port_number port) in
    ap (λ r. r >>= parse_tcp_uri U) (create_uri-hierarchy host db password port)
    ∙ ap
        (λ r. r >>= λ protocol.
          if is_tcp_scheme protocol
          then (parse_uri U uri >>= λ parsed. tcp_options_of protocol parsed parsed.authority)
          else err Error.parse_error)
        (get_scheme-scheme_text Scheme.redis (codes "redis") h refl)
    ∙ ap (λ r. r >>= λ parsed. tcp_options_of Scheme.redis parsed parsed.authority)
        (parse_uri-parts U uri (path_of db) (codes "redis") host none password (port_text port) none
          (port_number port) hu hv (port_of-port_text port exact_port))
    ∙ ap
        (λ a. add_options w (found a password port) init >>= λ o.
          parse_redis_query none >>= λ query. ok (merge o query))
        lower
    ∙ ap
        (λ r.
          (r >>= λ o. ok (
            add_port (found host password port) (
              add_password (found host password port) (add_hostname (found host password port) o))))
          >>= λ o. parse_redis_query none >>= λ query. ok (merge o query))
        (add_database-path_of w db exact_db refl)
    ∙ finish-options_over_tcp host db password port
