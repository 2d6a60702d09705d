-- ===== src/Factories/Outcomes.antt =====
-- Which URIs the functions of src/factories.ts take, by their schemes.
use node_celery_ts.Prelude.{
  ◌≡◌, refl, sym, ap, subst, Option, ◌⊎◌, inl, inr, Bool, true, false, ◌++◌, ◌∷◌,
}
use node_celery_ts.Text.{Text, to_lower_case}
use node_celery_ts.Result.{Error, Result, ok, err}
use node_celery_ts.Uri.{
  Scheme, amqp, amqp_secure, redis, redis_secure, redis_sentinel, redis_sentinel_secure,
  redis_socket, redis_socket_secure, rpc, rpc_secure, UriJs, scheme_text,
}
use node_celery_ts.Uri.Schemes.{get_scheme-scheme_text}
use node_celery_ts.Factories.{
  attempted, conclude, with_scheme, backend_of_scheme, broker_of_scheme, create_backend,
  create_broker,
}

-- What comes of a URI with a scheme that is supported or not.
abbrev pub HasOutcome : {A : Type 0} → Bool → Result A → Type 0
HasOutcome {A = A} true r = ((a : A) × (r ≡ ok a)) ⊎ (r ≡ err Error.generic)
HasOutcome false r = r ≡ err Error.unimplemented_error

-- Redis without TLS, over TCP, a socket or sentinels.
abbrev pub is_plain_redis : Scheme → Bool
is_plain_redis redis = true
is_plain_redis redis_socket = true
is_plain_redis redis_sentinel = true
is_plain_redis _ = false

abbrev pub supports_broker : Scheme → Bool
supports_broker amqp = true
supports_broker s = is_plain_redis s

abbrev pub supports_backend : Scheme → Bool
supports_backend rpc = true
supports_backend s = is_plain_redis s

attempted-HasOutcome :
    {A B : Type 0} (f : A → B) (r : Result A) → HasOutcome true (conclude (attempted f r))
attempted-HasOutcome f (ok a) = inl (f a, refl)
attempted-HasOutcome f (err e) = inr refl

module _ (decode : Text → Option Text) (U : UriJs) (raw_uri : Text) where
  broker-HasOutcome :
      (s : Scheme) → HasOutcome (supports_broker s) (conclude (broker_of_scheme decode U raw_uri s))
  unfolding broker_of_scheme
  broker-HasOutcome amqp = attempted-HasOutcome _ _
  broker-HasOutcome amqp_secure = refl
  broker-HasOutcome redis = attempted-HasOutcome _ _
  broker-HasOutcome redis_secure = refl
  broker-HasOutcome redis_sentinel = attempted-HasOutcome _ _
  broker-HasOutcome redis_sentinel_secure = refl
  broker-HasOutcome redis_socket = attempted-HasOutcome _ _
  broker-HasOutcome redis_socket_secure = refl
  broker-HasOutcome rpc = refl
  broker-HasOutcome rpc_secure = refl

  backend-HasOutcome :
      (id : Text) (s : Scheme)
      → HasOutcome (supports_backend s) (conclude (backend_of_scheme decode U id raw_uri s))
  unfolding backend_of_scheme
  backend-HasOutcome id amqp = refl
  backend-HasOutcome id amqp_secure = refl
  backend-HasOutcome id redis = attempted-HasOutcome _ _
  backend-HasOutcome id redis_secure = refl
  backend-HasOutcome id redis_sentinel = attempted-HasOutcome _ _
  backend-HasOutcome id redis_sentinel_secure = refl
  backend-HasOutcome id redis_socket = attempted-HasOutcome _ _
  backend-HasOutcome id redis_socket_secure = refl
  backend-HasOutcome id rpc = attempted-HasOutcome _ _
  backend-HasOutcome id rpc_secure = refl

-- On a URI with one of the ten schemes, in either case: createBroker throws an UnimplementedError
-- exactly for the schemes other than amqp, redis, redis+socket and sentinel, and createBackend for
-- those other than rpc, redis, redis+socket and sentinel, so that both refuse all the secure ones;
-- for the others they return, or throw an Error of their own, never the ParseError of a parser.
pub factories-HasOutcome :
    (decode : Text → Option Text) (U : UriJs) (id : Text) (s : Scheme) (t r : Text)
    → to_lower_case t ≡ scheme_text s
    → HasOutcome (supports_broker s) (create_broker decode U (t ++ b':' ∷ r))
      × HasOutcome (supports_backend s) (create_backend decode U id (t ++ b':' ∷ r))
unfolding create_broker create_backend
factories-HasOutcome decode U id s t r e =
    let raw_uri = t ++ b':' ∷ r in
    let known = get_scheme-scheme_text s t r e in
    (
      subst (HasOutcome (supports_broker s))
          (sym
            (ap (λ x. conclude (with_scheme decode U (broker_of_scheme decode U raw_uri) x)) known))
          (broker-HasOutcome decode U raw_uri s),
      subst (HasOutcome (supports_backend s))
          (sym (
            ap (λ x. conclude (with_scheme decode U (backend_of_scheme decode U id raw_uri) x))
              known))
          (backend-HasOutcome decode U raw_uri id s),
    )
