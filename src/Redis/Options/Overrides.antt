-- ===== src/Redis/Options/Overrides.antt =====
-- Which options a client of src/redis/options.ts is made with.
use node_celery_ts.Prelude.{
  ◌≡◌, refl, ap, ◌∙◌, subst, Bool, true, false, Option, none, some, [], if◌then◌else◌,
  if◌then◌else◌,
}
use node_celery_ts.Text.{Text, codes}
use node_celery_ts.Text.Keys.{text_keys}
use node_celery_ts.JsMap
use node_celery_ts.Objects.{Value, Object, is_truthy}
use node_celery_ts.Objects.Laws.{final, get-merge}
use node_celery_ts.Redis.Options.{
  RedisOptions, single, forced_options, Client, redis_client, create_client, create_options,
  append_default_options, maybe_override, new_tcp_options, new_socket_options, new_sentinel_options,
}

-- The properties of an override that may not be there.
abbrev pub properties : Option Object → Object
properties none = []
properties (some o) = o

get-maybe_override :
    (k : Text) (o : Object) (override : Option Object)
    → JsMap.get k (maybe_override o override) ≡ final k (properties override) (JsMap.get k o)
unfolding maybe_override
get-maybe_override k o none = refl
get-maybe_override k o (some p) = get-merge k o p

-- What a client of one server has for a property.
abbrev pub HasOption : Text → Option Value → Client → Type 0
HasOption k v client = (o : Object) × (client ≡ redis_client o) × (JsMap.get k o ≡ v)

if-both : {A : Type 0} (P : A → Type 0) (b : Bool) {x y : A} → P x → P y → P (if b then x else y)
if-both P true p q = p
if-both P false p q = q

module _ (k : Text) (override : Option Object) where
  abbrev Expected : Object → Client → Type 0
  Expected o = HasOption k (final k (properties override) (final k forced_options (JsMap.get k o)))

  get-overridden :
      (o : Object)
      → JsMap.get k (maybe_override (append_default_options o) override)
        ≡ final k (properties override) (final k forced_options (JsMap.get k o))
  unfolding append_default_options
  get-overridden o =
      get-maybe_override k (append_default_options o) override
      ∙ ap (final k (properties override)) (get-merge k o forced_options)

  tcp-Expected : (o : Object) → Expected o (create_client (new_tcp_options o) override)
  unfolding create_client new_tcp_options
  tcp-Expected o = (maybe_override (append_default_options o) override, refl, get-overridden o)

  sentinel-Expected : (o : Object) → Expected o (create_client (new_sentinel_options o) override)
  unfolding create_client new_sentinel_options
  sentinel-Expected o = (maybe_override (append_default_options o) override, refl, get-overridden o)

  socket-Expected : (o : Object) → Expected o (create_client (new_socket_options o) override)
  unfolding create_client new_socket_options
  socket-Expected o = (maybe_override (append_default_options o) override, refl, get-overridden o)

  protocol-Expected :
      (v : Value) (o : Object)
      → text_keys.beq (codes "protocol") k ≡ false
      → Expected o (create_client (new_tcp_options (JsMap.set (codes "protocol") v o)) override)
  protocol-Expected v o h =
      subst
        (λ g.
          HasOption k (final k (properties override) (final k forced_options g))
            (create_client (new_tcp_options (JsMap.set (codes "protocol") v o)) override))
        (JsMap.get-set (codes "protocol") k v o ∙ ap (λ b. if b then some v else JsMap.get k o) h)
        (tcp-Expected (JsMap.set (codes "protocol") v o))

-- Of any options that are not those of a cluster, with a sentinel, a socket or neither,
-- createOptions makes options whose client has, for every property but the protocol, what the
-- override of the call has; else what is forced on every client (numbers as strings, no buffers,
-- the prefix of the keys); else what the options have.
pub create_options-HasOption :
    (k : Text) (o : Object) (override : Option Object)
    → text_keys.beq (codes "protocol") k ≡ false
    → HasOption k
        (final k (properties override) (final k forced_options (JsMap.get k o)))
        (create_client (create_options (single o)) override)
unfolding create_options
create_options-HasOption k o override h =
    let P = λ (r : RedisOptions). Expected k override o (create_client r override) in
    if-both P (is_truthy (JsMap.get (codes "sentinels") o)) (sentinel-Expected k override o) (
      if-both P (is_truthy (JsMap.get (codes "path") o)) (socket-Expected k override o)
        (protocol-Expected k override _ o h))
