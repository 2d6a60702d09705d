-- ===== src/Redis/Backend/Channels.antt =====
-- The channels of src/redis/backend.ts.
use node_celery_ts.Prelude.{◌≡◌, ap, true, some, ◌++◌, ℕ}
use node_celery_ts.Text.{Text}
use node_celery_ts.Text.Laws.{if-then}
use node_celery_ts.Deque.{Deque}
use node_celery_ts.PromiseMap.{plain, resolve}
use node_celery_ts.Text.Keys.{text_keys}
use node_celery_ts.Redis.Backend.{
  Backend, key_prefix, is_uuid, uuid_found, match_uuid, message_matched, on_message,
}

pub match_uuid-key_prefix :
    (id : Text) → is_uuid id ≡ true → match_uuid (key_prefix ++ id) ≡ some id
unfolding match_uuid uuid_found
match_uuid-key_prefix id h = if-then (is_uuid id) _ _ h

-- The backend when a message has come for a key.
abbrev pub resolved_by :
    {Wire E : Type 0} {D : Deque ℕ} → Text → Wire → Backend Wire E D → Backend Wire E D
resolved_by id message b = record b { results = (resolve id (plain message) b.results).1 }

pub on_message-key_prefix :
    {Wire E : Type 0} {D : Deque ℕ} (id : Text) (message : Wire) (b : Backend Wire E D)
    → is_uuid id ≡ true
    → on_message (key_prefix ++ id) message b ≡ some (resolved_by id message b)
unfolding on_message
on_message-key_prefix id message b h =
    ap (λ o. message_matched o message b) (match_uuid-key_prefix id h)
