-- ===== src/Task/Results.antt =====
-- src/result.ts: the result of a task. `fetched` is the promise of what the backend's `get` gives;
-- the calls of the backend are listed in order.
use node_celery_ts.Prelude.{ℕ, Option, none, List, [], ◌∷◌, ◌++◌, map}
use node_celery_ts.Text.{Text}
use node_celery_ts.Messages.{ResultMessage}
use node_celery_ts.Utility.Timeouts.{
  Turn, promise_settles, timer_fires, Timed, create_timeout_promise,
}

pub data BackendCall : Type 0 where
  gets : Text → Option ℕ → BackendCall
  deletes : Text → BackendCall

pub record TaskResult : Type 0 where
  pub task_id : Text
  pub calls : List BackendCall

-- A message, or the reason for which the promise of the backend is rejected.
pub data Fetched (A E : Type 0) : Type 0 where
  fulfilled : A → Fetched A E
  rejected : E → Fetched A E

-- The constructor, which calls `getResult` up to its `await`.
unfoldable pub new_result : Text → TaskResult
new_result task_id = record { task_id = task_id; calls = gets task_id none ∷ [] }

-- `getResult` behind its `await`.
unfoldable pub get_result : {T E : Type 0} → Fetched (ResultMessage T) E → Fetched T E
get_result (fulfilled message) = fulfilled message.result
get_result (rejected e) = rejected e

unfoldable pub result_turn :
    {T E : Type 0} → Turn (Fetched (ResultMessage T) E) → Turn (Fetched T E)
unfolding get_result
result_turn (promise_settles f) = promise_settles (get_result f)
result_turn timer_fires = timer_fires

-- How the promise of `get` settles, from what the backend's promise and the timer do, `none` if it
-- is pending.
unfoldable pub get :
    {T E : Type 0}
    → Option ℕ
    → List (Turn (Fetched (ResultMessage T) E))
    → Option (Timed (Fetched T E))
unfolding create_timeout_promise result_turn
get timeout turns = create_timeout_promise timeout (map result_turn turns)

unfoldable pub delete : TaskResult → TaskResult
delete r = record r { calls = r.calls ++ deletes r.task_id ∷ [] }
