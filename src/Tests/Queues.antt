-- ===== src/Tests/Queues.antt =====
-- src/containers/promise_queue.ts at concrete inputs.
use node_celery_ts.Prelude.{ℕ, ◌≡◌, some, arith, length}
use node_celery_ts.Deque.{Deque, list_deque}
use node_celery_ts.PromiseQueue.{PromiseQueue, resolved, new_queue, push, resolve_all}
use node_celery_ts.PromiseQueue.Settling.{IsValid, push-IsValid, new_queue-IsValid}
use node_celery_ts.PromiseQueue.Draining.{Drained, resolve_all-Drained}

abbrev D : Deque ℕ
D = list_deque ℕ

abbrev empty : PromiseQueue ℕ ℕ D
empty = new_queue ℕ ℕ D

-- Two callers wait.
abbrev two : PromiseQueue ℕ ℕ D
two = (push ℕ ℕ D (push ℕ ℕ D empty).1).1

two-IsValid : IsValid D two
two-IsValid = (push-IsValid D (push ℕ ℕ D empty).1 (push-IsValid D empty (new_queue-IsValid D)).0).0

resolve_all-Drained_example :
    (q' : PromiseQueue ℕ ℕ D) × (resolve_all ℕ ℕ D 3 9 two ≡ some (length (D.view two.queue), q'))
    × Drained D (resolved 9) two (D.view two.queue) q'
unfolding push new_queue
resolve_all-Drained_example = resolve_all-Drained D 9 3 two two-IsValid (omega arith)
