-- ===== src/Uri/Authorities.antt =====
-- The authority that src/uri.ts builds step by step, against a description at once.
use node_celery_ts.Prelude.{ℕ, ◌≡◌, inl, inr, refl, sym, ap, ◌∙◌, Option, none, some, []}
use node_celery_ts.Text.{Text, to_lower_case}
use node_celery_ts.Result.{bind-ok, Result-cases, Error, Result, ok, err, ◌>>=◌}
use node_celery_ts.Uri.{
  UserInfo, Uri, Parts, validate_host, parse_port, add_host, add_host_user_pass_and_port, UriJs,
  add_query, uri_of_parts, uri_of_parsed, parse_uri,
}

-- A password without a name has the empty name.
abbrev pub user_info_of : Option Text → Option Text → Option UserInfo
user_info_of none none = none
user_info_of none (some p) = some (record { user = []; pass = some p })
user_info_of (some u) p = some (record { user = u; pass = p })

abbrev pub port_of : Option Text → Result (Option (Option ℕ))
port_of none = ok none
port_of (some s) = parse_port s >>= λ p. ok (some p)

abbrev pub with_authority : Uri → Option UserInfo → Text → Option (Option ℕ) → Uri
with_authority u i host port = record u {
  authority = some (record { user_info = i; host = to_lower_case host; port = port });
}

abbrev pub authority_of : Option Text → Parts → Uri → Result Uri
authority_of none parts u = ok u
authority_of (some hostname) parts u = validate_host hostname >>= λ host.
    port_of parts.port >>= λ port.
    ok (with_authority u (user_info_of parts.username parts.password) host port)

module _ (protocol path query : Option Text) (w : Uri) where
  -- The URI that the authority is added to.
  abbrev u : Uri
  u = record w { authority = none }

  abbrev parts : Option Text → Option Text → Option Text → Option Text → Parts
  parts hostname username password port = record {
    protocol = protocol;
    username = username;
    password = password;
    hostname = hostname;
    port = port;
    path = path;
    query = query;
  }

  no_host :
      (username password port : Option Text)
      → add_host_user_pass_and_port (parts none username password port) u ≡ ok u
  unfolding add_host_user_pass_and_port
  no_host username password port = refl

  host_invalid :
      (h : Text) (username password port : Option Text) (e : Error)
      → validate_host h ≡ err e
      → add_host_user_pass_and_port (parts (some h) username password port) u ≡ err e
  unfolding add_host_user_pass_and_port add_host
  host_invalid h username password port e q = rw q refl

  host_valid :
      (h : Text) (username password port : Option Text) (host : Text)
      → validate_host h ≡ ok host
      → add_host_user_pass_and_port (parts (some h) username password port) u
        ≡ (port_of port >>= λ p. ok (with_authority u (user_info_of username password) host p))
  unfolding add_host_user_pass_and_port add_host
  host_valid h none none none host q = rw q refl
  host_valid h none none (some s) host q = rw q (sym (bind-ok (parse_port s) some _))
  host_valid h none (some p) none host q = rw q refl
  host_valid h none (some p) (some s) host q = rw q (sym (bind-ok (parse_port s) some _))
  host_valid h (some x) none none host q = rw q refl
  host_valid h (some x) none (some s) host q = rw q (sym (bind-ok (parse_port s) some _))
  host_valid h (some x) (some p) none host q = rw q refl
  host_valid h (some x) (some p) (some s) host q = rw q (sym (bind-ok (parse_port s) some _))

  host_of :
      (hostname username password port : Option Text)
      → add_host_user_pass_and_port (parts hostname username password port) u
        ≡ authority_of hostname (parts hostname username password port) u
  host_of none username password port = no_host username password port
  host_of (some h) username password port = elim (Result-cases (validate_host h)) [
    | inl (host, q) ↦ host_valid h username password port host q ∙ rw q refl
    | inr (e, q) ↦ host_invalid h username password port e q ∙ rw q refl
  ]

-- To a URI without an authority, addHost and its companions add none when there is no hostname;
-- otherwise the hostname in lower case, the port, and the name and password with the empty name for
-- a password alone; they throw exactly when the hostname or else the port is invalid.
pub add_host_user_pass_and_port-authority_of :
    (parts : Parts) (u : Uri)
    → u.authority ≡ none
    → add_host_user_pass_and_port parts u ≡ authority_of parts.hostname parts u
add_host_user_pass_and_port-authority_of parts u bare =
    let e = ap (λ a. record u { authority = a }) bare in
    ap (add_host_user_pass_and_port parts) e
    ∙ host_of parts.protocol parts.path parts.query u parts.hostname parts.username parts.password
        parts.port
    ∙ ap (authority_of parts.hostname parts) (sym e)

abbrev pub bare : Text → Text → Text → Uri
bare raw_uri path protocol = record {
  authority = none;
  path = path;
  query = none;
  raw = raw_uri;
  scheme = to_lower_case protocol;
}

abbrev pub parts_of :
    Text → Text → Text → Option Text → Option Text → Option Text → Option Text → Parts
parts_of path protocol hostname username password port query = record {
  protocol = some protocol;
  username = username;
  password = password;
  hostname = some hostname;
  port = port;
  path = some path;
  query = query;
}

-- What parseUri makes of parts with a valid hostname and port.
pub parse_uri-parts :
    (U : UriJs) (raw_uri path protocol hostname : Text) (username password port query : Option Text)
    (p : Option (Option ℕ))
    → U.parse raw_uri ≡ some (parts_of path protocol hostname username password port query)
    → validate_host hostname ≡ ok hostname
    → port_of port ≡ ok p
    → parse_uri U raw_uri
      ≡ add_query U
          (parts_of path protocol hostname username password port query)
          (with_authority (bare raw_uri path protocol) (user_info_of username password) hostname p)
unfolding parse_uri uri_of_parts uri_of_parsed
parse_uri-parts U raw_uri path protocol hostname username password port query p h hv hp =
    let parts = parts_of path protocol hostname username password port query in
    let u = bare raw_uri path protocol in
    ap (uri_of_parsed U raw_uri) h
    ∙ ap (λ r. r >>= add_query U parts)
        (add_host_user_pass_and_port-authority_of parts u refl
          ∙ ap
              (λ r. r >>= λ host.
                port_of port >>= λ x. ok (with_authority u (user_info_of username password) host x))
              hv
          ∙ ap (λ r. r >>= λ x. ok (with_authority u (user_info_of username password) hostname x))
              hp)
