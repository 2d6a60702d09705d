-- ===== src/Utility/Timeouts.antt =====
-- The promises with a time limit, and of an event, of src/utility.ts.
use node_celery_ts.Prelude.{ℕ, Option, none, some, List, [], ◌∷◌}

-- What happens to the promises that createTimeoutPromise races, in order.
pub data Turn (A : Type 0) : Type 0 where
  promise_settles : A → Turn A
  timer_fires : Turn A

pub data Timed (A : Type 0) : Type 0 where
  settles : A → Timed A
  timed_out : Timed A

-- What the promise that createTimeoutPromise returns settles as, `none` if it is pending. There is
-- a timer only if there is a time limit.
unfoldable pub create_timeout_promise : {A : Type 0} → Option ℕ → List (Turn A) → Option (Timed A)
create_timeout_promise timeout [] = none
create_timeout_promise timeout (promise_settles a ∷ turns) = some (settles a)
create_timeout_promise none (timer_fires ∷ turns) = create_timeout_promise none turns
create_timeout_promise (some t) (timer_fires ∷ turns) = some timed_out

-- The promise of promisifyEvent after the events that are emitted: `once` takes the first.
unfoldable pub promisify_event : {V : Type 0} → List V → Option V
promisify_event [] = none
promisify_event (v ∷ vs) = some v
