-- ===== src/Redis/Backend/Delivery.antt =====
-- Who puts a result and who gets it, by src/redis/backend.ts.
use node_celery_ts.Prelude.{
  ◌≡◌, refl, sym, ap, ◌∙◌, true, false, Option, none, some, ◌++◌, ℕ, length, arith, ◌>>=◌, subst,
  not,
}
use node_celery_ts.Text.{Text}
use node_celery_ts.Text.Laws.{if-then, if-else}
use node_celery_ts.Text.Keys.{text_keys}
use node_celery_ts.JsMap
use node_celery_ts.Deque.{Deque}
use node_celery_ts.Messages.{ResultMessage}
use node_celery_ts.PromiseMap
use node_celery_ts.PromiseMap.{Awaited, finish_resolve}
use node_celery_ts.PromiseMap.Delivery.{value_at, get-receive, receive-get, receive-promise}
use node_celery_ts.ResourcePool.{Resource}
use node_celery_ts.Redis.Backend.{
  Backend, key_prefix, is_uuid, on_message, listen, get, get_connected, listens, is_success,
  listening, reply_parsed, get_replied, acquire,
}
use node_celery_ts.Redis.Backend.Channels.{resolved_by, on_message-key_prefix}

-- A call of `doResolve` comes back.
abbrev pub come_back :
    {Wire E : Type 0} {D : Deque ℕ} → ℕ → Awaited Wire E → Backend Wire E D → Backend Wire E D
come_back i a b = record b { results = finish_resolve i a b.results }

-- What is parsed from the string that a promise has.
abbrev pub message_at :
    {Wire E V : Type 0} {D : Deque ℕ}
    → (Wire → Option (ResultMessage V))
    → ℕ
    → Backend Wire E D
    → Option (ResultMessage V)
message_at parse p b = value_at b.results.states p >>= parse

-- A reply to GET that is no result yet: none, or one that is not a success.
abbrev pub IsUnsuccessful :
    {Wire V : Type 0} → (Wire → Option (ResultMessage V)) → Option Wire → Type 0
IsUnsuccessful parse none = Unit {0}
IsUnsuccessful {V = V} parse (some raw) =
    (m : ResultMessage V) × (parse raw ≡ some m) × (is_success m.status ≡ false)

get_replied-listening :
    {Wire E V : Type 0} {D : Deque ℕ} (stringify : ResultMessage V → Wire)
    (parse : Wire → Option (ResultMessage V)) (id : Text) (reply : Option Wire)
    (b : Backend Wire E D)
    → IsUnsuccessful parse reply
    → get_replied stringify parse id reply b ≡ listening stringify parse (listen id b)
unfolding get_replied
get_replied-listening stringify parse id none b h = refl
get_replied-listening stringify parse id (some raw) b (m, e, f) =
    ap (λ o. reply_parsed stringify parse id o b) e ∙ if-else (is_success m.status) _ _ (ap not f)

module _ {Wire E : Type 0} {D : Deque ℕ} where
  get-acquire :
      (id : Text) (b : Backend Wire E D)
      → JsMap.get id b.results.promises ≡ none
      → get id b ≡ (none, acquire b)
  unfolding get PromiseMap.has
  get-acquire id b absent =
      if-else (JsMap.has id b.results.promises) _ _
        (ground (arith, JsMap.has-get id b.results.promises))

  get-listen :
      (id : Text) (p : ℕ) (b : Backend Wire E D)
      → JsMap.get id b.results.promises ≡ some p
      → get id b ≡ (some ((listen id b).0), (listen id b).1)
  unfolding get PromiseMap.has
  get-listen id p b at =
      if-then (JsMap.has id b.results.promises) _ _
        (ground (arith, JsMap.has-get id b.results.promises))

module _ {Wire E V : Type 0} {D : Deque ℕ} (stringify : ResultMessage V → Wire)
    (parse : Wire → Option (ResultMessage V)) (m : ResultMessage V) (a : Awaited Wire E)
    (b : Backend Wire E D) where
  -- A backend publishes the message, and this one hears of it and goes on.
  abbrev pub Heard : Backend Wire E D → (Backend Wire E D → Type 0) → Type 0
  Heard before P =
      (after : Backend Wire E D) × (on_message (key_prefix ++ m.task_id) (stringify m) before
        ≡ some after)
      × P (come_back (length before.results.resolving) a after)

  -- The message comes before `get` is called.
  abbrev pub HeardFirst : Type 0
  HeardFirst = Heard b (λ b₁.
      (p : ℕ) × ((get m.task_id b₁).0 ≡ some p)
      × (message_at parse p (get m.task_id b₁).1 ≡ some m))

  -- It comes while GET is under way.
  abbrev pub HeardBetween : Resource → Option Wire → Type 0
  HeardBetween r reply =
      let (waiting, b₁) = get m.task_id b in
      (waiting ≡ none)
      × Heard (get_connected r m.task_id b₁) (λ b₂.
        let (replied, b₃) = get_replied stringify parse m.task_id reply b₂ in
        (p : ℕ) × (replied ≡ listens p) × (message_at parse p b₃ ≡ some m))

  -- It comes after the reply.
  abbrev pub HeardLast : Resource → Option Wire → Type 0
  HeardLast r reply =
      let (replied, b₂) =
        get_replied stringify parse m.task_id reply
          (get_connected r m.task_id (get m.task_id b).1) in
      (p : ℕ) × (replied ≡ listens p) × Heard b₂ (λ b₃. message_at parse p b₃ ≡ some m)

  abbrev pub HeardInAnyOrder : Resource → Option Wire → Type 0
  HeardInAnyOrder r reply = HeardFirst × HeardBetween r reply × HeardLast r reply

  module _ (round : parse (stringify m) ≡ some m) (uuid : is_uuid m.task_id ≡ true)
      (absent : JsMap.get m.task_id b.results.entries ≡ none) where
    heard_first : HeardFirst
    unfolding listen
    heard_first =
        let id = m.task_id in
        let raw = stringify m in
        let b₁ = come_back (length b.results.resolving) a (resolved_by id raw b) in
        let g = get-listen id b.results.fresh b₁ (receive-promise id raw a b.results absent) in
        let p = (listen id b₁).0 in
        (
          resolved_by id raw b,
          on_message-key_prefix id raw b uuid,
          (
            p,
            ap (λ t. t.0) g,
            ap (λ t. message_at parse p t.1) g
                ∙ ap (λ o. o >>= parse) (receive-get id raw a b.results absent)
                ∙ round,
          ),
        )

    module _ (r : Resource) (reply : Option Wire) (unsuccessful : IsUnsuccessful parse reply)
        (free : JsMap.get m.task_id b.results.promises ≡ none) where
      -- The backend when GET is under way.
      abbrev asking : Backend Wire E D
      unfolding get_connected
      asking = get_connected r m.task_id (acquire b)

      heard_between : HeardBetween r reply
      unfolding listen asking
      heard_between =
          let id = m.task_id in
          let raw = stringify m in
          let b₂ = come_back (length b.results.resolving) a (resolved_by id raw asking) in
          let g = get_replied-listening stringify parse id reply b₂ unsuccessful in
          let p = (listen id b₂).0 in
          subst
            (λ t.
              (t.0 ≡ none)
              × Heard (get_connected r id t.1) (λ b₂.
                let (replied, b₃) = get_replied stringify parse id reply b₂ in
                (p : ℕ) × (replied ≡ listens p) × (message_at parse p b₃ ≡ some m)))
            (sym (get-acquire id b free))
            (
              refl,
              (
                resolved_by id raw asking,
                on_message-key_prefix id raw asking uuid,
                (
                  p,
                  ap (λ t. t.0) g,
                  ap (λ t. message_at parse p t.1) g
                      ∙ ap (λ o. o >>= parse) (receive-get id raw a b.results absent)
                      ∙ round,
                ),
              ),
            )

      heard_last : HeardLast r reply
      unfolding listen asking
      heard_last =
          let id = m.task_id in
          let raw = stringify m in
          let p = (listen id asking).0 in
          let b₂ = (listen id asking).1 in
          subst
            (λ t.
              let (replied, b₂) = get_replied stringify parse id reply (get_connected r id t.1) in
              (p : ℕ) × (replied ≡ listens p) × Heard b₂ (λ b₃. message_at parse p b₃ ≡ some m))
            (sym (get-acquire id b free))
            (subst
              (λ t. (p : ℕ) × (t.0 ≡ listens p) × Heard t.1 (λ b₃. message_at parse p b₃ ≡ some m))
              (sym (get_replied-listening stringify parse id reply asking unsuccessful))
              (
                p,
                refl,
                (
                  resolved_by id raw b₂,
                  on_message-key_prefix id raw b₂ uuid,
                  ap (λ o. o >>= parse) (get-receive id raw a b.results free) ∙ round,
                ),
              ))

-- A backend that knows nothing of a task gets the message of its result, of any status, that
-- another one publishes on the channel of the task, whether that comes before `get` is called,
-- while its GET is under way, or after a reply to GET without a successful result: `get` then waits
-- for a promise that has the message in the end, when JSON.parse reads what JSON.stringify writes
-- and the id of the task is a UUID.
pub get-HeardInAnyOrder :
    {Wire E V : Type 0} {D : Deque ℕ} (stringify : ResultMessage V → Wire)
    (parse : Wire → Option (ResultMessage V)) (m : ResultMessage V) (a : Awaited Wire E)
    (b : Backend Wire E D) (r : Resource) (reply : Option Wire)
    → parse (stringify m) ≡ some m
    → is_uuid m.task_id ≡ true
    → JsMap.get m.task_id b.results.entries ≡ none
    → JsMap.get m.task_id b.results.promises ≡ none
    → IsUnsuccessful parse reply
    → HeardInAnyOrder stringify parse m a b r reply
get-HeardInAnyOrder stringify parse m a b r reply round uuid absent free unsuccessful = (
  heard_first stringify parse m a b round uuid absent,
  heard_between stringify parse m a b round uuid absent r reply unsuccessful free,
  heard_last stringify parse m a b round uuid absent r reply unsuccessful free,
)
