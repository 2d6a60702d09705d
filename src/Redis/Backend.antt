-- ===== src/Redis/Backend.antt =====
-- src/redis/backend.ts: the result backend over Redis. A method that awaits is one function for
-- each turn of the event loop: `get`, then `get_connected` with the client that the pool gives,
-- `get_replied` with the reply to GET, and `released` when its promise has settled. The results
-- wait in a map of PromiseMap, the clients are resources of ResourcePool, and `sent` lists the
-- commands with the client of each. A string that JSON.stringify writes is a `Wire`.
pub mod Channels
pub mod Delivery
pub mod Waiting
pub mod History
pub mod Clients
use node_celery_ts.Prelude.{
  ℕ, suc, zero, ◌/◌, ◌||◌, ◌&&◌, ◌==◌, leb, if◌then◌else◌, Bool, true, false, Option, none, some,
  List, [], ◌∷◌, ◌++◌,
}
use node_celery_ts.Text.{Text, codes, is_digit}
use node_celery_ts.Text.Keys.{text_keys}
use node_celery_ts.Objects.{text}
use node_celery_ts.Result.{Result}
use node_celery_ts.Messages.{ResultMessage, Status, success}
use node_celery_ts.Deque.{Deque}
use node_celery_ts.PromiseMap
use node_celery_ts.PromiseMap.{plain, resolve}
use node_celery_ts.ResourcePool
use node_celery_ts.ResourcePool.{
  Resource, Settled, new_world, start_get, deliver, return_after, return_resource,
  start_destroy_all, finish_destroy_all,
}
use node_celery_ts.Utility.Timeouts.{Turn, Timed, create_timeout_promise}
use node_celery_ts.Redis.Options.{
  RedisOptions, Client, create_client, create_uri, default_redis_options,
}

-- In milliseconds: a day.
abbrev pub timeout : ℕ
timeout = 86400000

abbrev pub key_prefix : Text
key_prefix = codes "celery-task-meta-"

abbrev pub is_hex : ℕ → Bool
is_hex c = is_digit c || ((leb b'A' c && leb c b'F') || (leb b'a' c && leb c b'f'))

-- What stands behind a number of hexadecimal digits.
abbrev pub drop_hex : ℕ → Text → Option Text
drop_hex zero s = some s
drop_hex (suc n) [] = none
drop_hex (suc n) (c ∷ s) = let rest = drop_hex n s in if is_hex c then rest else none

-- Groups of hexadecimal digits with dashes between them, and nothing behind.
abbrev pub is_grouped : List ℕ → Option Text → Bool
is_grouped groups none = false
is_grouped [] (some []) = true
is_grouped [] (some (c ∷ s)) = false
is_grouped (n ∷ ns) (some []) = false
is_grouped (n ∷ ns) (some (c ∷ s)) = c == b'-' && is_grouped ns (drop_hex n s)

unfoldable pub is_uuid : Text → Bool
is_uuid s = is_grouped (4 ∷ 4 ∷ 4 ∷ 12 ∷ []) (drop_hex 8 s)

abbrev pub strip_prefix : Text → Text → Option Text
strip_prefix [] s = some s
strip_prefix (p ∷ ps) [] = none
strip_prefix (p ∷ ps) (c ∷ s) = let rest = strip_prefix ps s in if p == c then rest else none

abbrev pub uuid_found : Option Text → Option Text
unfolding is_uuid
uuid_found none = none
uuid_found (some id) = if is_uuid id then some id else none

-- The group of `UUID_REGEX`.
unfoldable pub match_uuid : Text → Option Text
match_uuid channel = uuid_found (strip_prefix key_prefix channel)

pub data Command (Wire : Type 0) : Type 0 where
  psubscribe punsubscribe get_key del_key : Text → Command Wire
  multi_setex_publish : Text → ℕ → Wire → Command Wire

abbrev or_default : Option RedisOptions → RedisOptions
unfolding default_redis_options
or_default none = default_redis_options
or_default (some o) = o

module _ (Wire E : Type 0) (D : Deque ℕ) where
  pub record Backend : Type 0 where
    pub options : RedisOptions
    pub pool : ResourcePool.World E D
    pub results : PromiseMap.World Text Wire E
    pub sent : List (Resource × Command Wire)

-- What the function that `create` is called in the pool makes.
unfoldable pub create_pooled_client : RedisOptions → Client
unfolding create_client
create_pooled_client options =
    create_client options (some ((codes "keyPrefix", text key_prefix) ∷ []))

-- What the inner promise of `get` is after the reply: a result, the promise that it waits for, or
-- rejected.
pub data Replied (V : Type 0) : Type 0 where
  parsed : ResultMessage V → Replied V
  listens : ℕ → Replied V
  rejects : Replied V

abbrev pub is_success : Status → Bool
is_success success = true
is_success _ = false

-- The promise of `pool.use` in `get`, from what its inner promise and the timer do.
unfoldable pub get_outcome :
    {V E : Type 0}
    → Option ℕ
    → List (Turn (Settled (ResultMessage V) E))
    → Option (Timed (Settled (ResultMessage V) E))
unfolding create_timeout_promise
get_outcome = create_timeout_promise

module _ {Wire E : Type 0} {D : Deque ℕ} where
  -- The constructor, which asks the pool for the subscriber.
  unfoldable pub new_backend : Option RedisOptions → Backend Wire E D
  unfolding or_default
  new_backend options = record {
    options = or_default options;
    pool = start_get E D (new_world E D 2);
    results = PromiseMap.new_map (some timeout);
    sent = [];
  }

  -- A client is delivered, and a command sent over it.
  abbrev pub connected : Resource → Command Wire → Backend Wire E D → Backend Wire E D
  connected r command b = record b {
    pool = deliver E D r b.pool;
    sent = b.sent ++ (r, command) ∷ [];
  }

  abbrev pub acquire : Backend Wire E D → Backend Wire E D
  acquire b = record b { pool = start_get E D b.pool }

  -- The promise of `pool.use` settles: the client is returned first.
  unfoldable pub released :
      {U : Type 0} → Settled U E → Resource → Backend Wire E D → Settled U E × Backend Wire E D
  released s r b = let (s', pool) = return_after E D s r b.pool in (s', record b { pool = pool })

  unfoldable pub subscriber_connected : Resource → Backend Wire E D → Backend Wire E D
  subscriber_connected r = connected r (psubscribe (key_prefix ++ codes "*"))

  -- `none` is a thrown Error.
  abbrev pub message_matched : Option Text → Wire → Backend Wire E D → Option (Backend Wire E D)
  message_matched none message b = none
  message_matched (some id) message b =
      some (record b { results = (resolve id (plain message) b.results).1 })

  unfoldable pub on_message : Text → Wire → Backend Wire E D → Option (Backend Wire E D)
  unfolding match_uuid
  on_message channel message = message_matched (match_uuid channel) message

  unfoldable pub delete : Text → Backend Wire E D → Backend Wire E D
  delete task_id = acquire

  unfoldable pub delete_connected : Resource → Text → Backend Wire E D → Backend Wire E D
  delete_connected r task_id b =
      let b' = connected r (del_key task_id) b in
      record b' { results = (PromiseMap.delete task_id b'.results).1 }

  -- `end()` from when there is a subscriber and `punsubscribe` has been answered; `none` is the
  -- Error that `return` throws.
  unfoldable pub end : Resource → Backend Wire E D → Backend Wire E D
  end subscriber b = record b {
    sent = b.sent ++ (subscriber, punsubscribe (key_prefix ++ codes "*")) ∷ [];
  }

  unfoldable pub disconnect : Resource → Backend Wire E D → Backend Wire E D
  unfolding end
  disconnect = end

  abbrev pub destroy_after :
      Option (ResourcePool.World E D) → Backend Wire E D → Option (Backend Wire E D)
  destroy_after none b = none
  destroy_after (some pool) b = some (record b { pool = start_destroy_all E D pool })

  unfoldable pub end_unsubscribed : Resource → Backend Wire E D → Option (Backend Wire E D)
  end_unsubscribed subscriber b = destroy_after (return_resource E D subscriber b.pool) b

  unfoldable pub end_drained : {S : Type 0} → (Resource → S) → Backend Wire E D → Backend Wire E D
  end_drained quit b = record b { pool = (finish_destroy_all E D quit b.pool).1 }

  unfoldable pub uri : Backend Wire E D → Result Text
  uri b = create_uri b.options

  -- `listen()` up to its `await`: the promise that it awaits.
  unfoldable pub listen : Text → Backend Wire E D → ℕ × Backend Wire E D
  listen task_id b =
      let (p, results) = PromiseMap.get task_id b.results in (p, record b { results = results })

  -- The promise if the result is there or under way; otherwise the pool is asked.
  unfoldable pub get : Text → Backend Wire E D → Option ℕ × Backend Wire E D
  unfolding listen
  get task_id b =
      let listening = listen task_id b in
      if PromiseMap.has task_id b.results
      then (some (listening.0), listening.1)
      else (none, acquire b)

  unfoldable pub get_connected : Resource → Text → Backend Wire E D → Backend Wire E D
  get_connected r task_id = connected r (get_key task_id)

  module _ {V : Type 0} (stringify : ResultMessage V → Wire)
      (parse : Wire → Option (ResultMessage V)) where
    unfoldable pub put : ResultMessage V → Backend Wire E D → Backend Wire E D
    put message = acquire

    unfoldable pub put_connected : Resource → ResultMessage V → Backend Wire E D → Backend Wire E D
    put_connected r message =
        connected r (multi_setex_publish message.task_id (timeout / 1000) (stringify message))

    abbrev pub listening : ℕ × Backend Wire E D → Replied V × Backend Wire E D
    listening (p, b) = (listens p, b)

    abbrev pub reply_parsed :
        Text → Option (ResultMessage V) → Backend Wire E D → Replied V × Backend Wire E D
    unfolding listen
    reply_parsed task_id none b = (rejects, b)
    reply_parsed task_id (some m) b =
        let waiting = listening (listen task_id b) in
        if is_success m.status then (parsed m, b) else waiting

    unfoldable pub get_replied :
        Text → Option Wire → Backend Wire E D → Replied V × Backend Wire E D
    unfolding reply_parsed
    get_replied task_id none b = listening (listen task_id b)
    get_replied task_id (some raw) b = reply_parsed task_id (parse raw) b
