-- ===== src/Task/Asking.antt =====
-- The `get` of a Result of src/result.ts, over the backend that applyAsync of src/task.ts gives it:
-- the RPC backend of src/amqp/backend.ts, or the NullBackend of src/null_backend.ts.
use node_celery_ts.Prelude.{
  if◌then◌else◌, ◌⊎◌, inl, inr, Bool-cases, ◌≡◌, ap, ◌∙◌, Bool, true, false, Option, none, some,
  List, [], ◌∷◌, ℕ, length, ◌>>=◌,
}
use node_celery_ts.Text.{Text}
use node_celery_ts.Text.Keys.{text_keys}
use node_celery_ts.Deque.{Deque}
use node_celery_ts.Messages.{ResultMessage}
use node_celery_ts.PromiseMap.{Awaited, finish_resolve}
use node_celery_ts.PromiseMap.Delivery.{value_at}
use node_celery_ts.Utility.Timeouts.{
  Turn, promise_settles, Timed, settles, timed_out, create_timeout_promise,
}
use node_celery_ts.Amqp.Backend.{Failure, Message, Codec, Backend, get, get_received, on_message}
use node_celery_ts.Task.{Task, TaskApplyOptions, or_default}
use node_celery_ts.Task.Publish
use node_celery_ts.Task.Publish.{ResultBackend, null_backend, result_of}
use node_celery_ts.NullBackend
use node_celery_ts.NullBackend.{Call, throws, rejected, fulfilled}
use node_celery_ts.Task.Results
use node_celery_ts.Task.Results.{Fetched, result_turn, get_result}

-- Why the `get` of a Result is rejected: by the backend, or because it is a NullBackend.
pub data Refusal : Type 0 where
  of_backend : Failure → Refusal
  without_backend : Refusal

-- What the promise of the backend's `get` does, when it has settled so.
abbrev pub turns_of :
    {V : Type 0}
    → Option (Timed (ResultMessage V))
    → List (Turn (Fetched (ResultMessage V) Refusal))
turns_of none = []
turns_of (some (settles m)) = promise_settles (Fetched.fulfilled m) ∷ []
turns_of (some timed_out) = []

-- What the promise of the `get` of a NullBackend does.
abbrev pub turns_of_null : {M : Type 0} → Call M → List (Turn (Fetched M Refusal))
turns_of_null (throws e) = []
turns_of_null rejected = promise_settles (Fetched.rejected without_backend) ∷ []
turns_of_null fulfilled = []

-- The backend of a client, which is a NullBackend or the RPC backend in its present state.
abbrev pub ClientBackend : (Buffer : Type 0) → Deque ℕ → Type 0
ClientBackend Buffer D = ResultBackend (Backend Buffer D)

-- A Result whose backend is chosen as `ignored` says.
unfoldable pub choosing :
    {Buffer : Type 0} {D : Deque ℕ}
    → Text
    → ClientBackend Buffer D
    → Bool
    → Publish.Result (ClientBackend Buffer D)
choosing id b ignored = record {
  task_id = id;
  result_backend = if ignored then null_backend else ResultBackend.backend b;
}

module _ {V Buffer : Type 0} {D : Deque ℕ} (C : Codec V Buffer) where
  abbrev pub hears :
      Awaited (Message Buffer) Failure → Message Buffer → Backend Buffer D → Backend Buffer D
  hears a message b =
      let b' = on_message (some message) b in
      record b' { promises = finish_resolve (length b.promises.resolving) a b'.promises }

  -- What the promise does that the backend of a Result returns from `get`, which is called after
  -- `before` has happened to an RPC backend and before `after` has.
  abbrev pub asked :
      (Backend Buffer D → Backend Buffer D)
      → (Backend Buffer D → Backend Buffer D)
      → Text
      → ResultBackend (ClientBackend Buffer D)
      → List (Turn (Fetched (ResultMessage V) Refusal))
  asked before after id (ResultBackend.backend (ResultBackend.backend b)) =
      let (p, b₁) = get id (before b) in
      turns_of (value_at (after b₁).promises.states p >>= get_received C none)
  asked before after id (ResultBackend.backend null_backend) = turns_of_null NullBackend.get
  asked before after id null_backend = turns_of_null NullBackend.get

  -- How the promise of the `get` of a Result settles, with a time limit that has not passed.
  abbrev pub fetched :
      Option ℕ
      → (Backend Buffer D → Backend Buffer D)
      → (Backend Buffer D → Backend Buffer D)
      → Publish.Result (ClientBackend Buffer D)
      → Option (Timed (Fetched V Refusal))
  fetched timeout before after result =
      Results.get timeout (asked before after result.task_id result.result_backend)

  -- The `get` of the Result gives the value, if its backend hears the answer after it is asked, or
  -- before.
  abbrev pub AnsweredInAnyOrder :
      V
      → Option ℕ
      → Awaited (Message Buffer) Failure
      → Message Buffer
      → Publish.Result (ClientBackend Buffer D)
      → Type 0
  AnsweredInAnyOrder v timeout a message result =
      (fetched timeout (λ b. b) (hears a message) result ≡ some (settles (Fetched.fulfilled v)))
      × (fetched timeout (hears a message) (λ b. b) result ≡ some (settles (Fetched.fulfilled v)))

  -- A Result of a call that ignores it, or of a task without a backend, is rejected, whatever the
  -- time limit and whatever an RPC backend hears before it is asked and after.
  pub get-Refused :
      {TaskBroker Date : Type 0} (o : TaskApplyOptions Date) (id : Text)
      (t : Task TaskBroker (ClientBackend Buffer D)) (timeout : Option ℕ)
      (before after : Backend Buffer D → Backend Buffer D)
      → (or_default o.ignore_result false ≡ true) ⊎ (t.backend ≡ null_backend)
      → fetched timeout before after (result_of o id t)
        ≡ some (settles (Fetched.rejected without_backend))
  unfolding result_of choosing Results.get result_turn get_result create_timeout_promise
      NullBackend.get
  get-Refused o id t timeout before after (inl e) =
      ap (λ x. fetched timeout before after (choosing id t.backend x)) e
  get-Refused o id t timeout before after (inr e) =
      ap (λ b. fetched timeout before after (choosing id b (or_default o.ignore_result false))) e
      ∙ elim (Bool-cases (or_default o.ignore_result false)) [
        | inl h ↦ ap (λ x. fetched timeout before after (choosing id null_backend x)) h
        | inr h ↦ ap (λ x. fetched timeout before after (choosing id null_backend x)) h
      ]
