-- ===== src/PromiseQueue.antt =====
-- src/containers/promise_queue.ts, over any queue object with the laws of `Deque`.
-- A promise is a number, and `promises` holds the state of each. The pair of functions that the
-- queue holds for a promise is the number of that promise. `resolved v` is a promise on which
-- `resolve(v)` was called, `rejected e` one on which `reject(e)` was; a call on a promise that is
-- no longer pending does nothing, as the language has it.
pub mod Settling
pub mod Draining
use node_celery_ts.Prelude.{
  ℕ, zero, suc, ◌+◌, ◌==◌, if◌then◌else◌, Bool, true, false, Option, none, some,
}
use node_celery_ts.Deque.{Deque}

pub data Promise (V E : Type 0) : Type 0 where
  pending : Promise V E
  resolved : V → Promise V E
  rejected : E → Promise V E

-- A method name with its argument, as `settleOne` takes them.
pub data Settlement (V E : Type 0) : Type 0 where
  resolve : V → Settlement V E
  reject : E → Settlement V E

module _ {V E : Type 0} where
  abbrev pub outcome : Settlement V E → Promise V E
  outcome (resolve v) = resolved v
  outcome (reject e) = rejected e

  abbrev settle_state : Settlement V E → Promise V E → Promise V E
  settle_state s pending = outcome s
  settle_state s (resolved v) = resolved v
  settle_state s (rejected e) = rejected e

  -- The call `toSettle.resolve(argument)` or `toSettle.reject(argument)` on promise `p`.
  pub settle : Settlement V E → ℕ → (ℕ → Promise V E) → ℕ → Promise V E
  settle s p promises q = if q == p then settle_state s (promises p) else promises q

-- `while (condition()) { ++numTrue; }`; `none` if the fuel runs out.
pub invoke_while : {S : Type 0} → ℕ → (S → Bool × S) → S → Option (ℕ × S)
invoke_while zero condition s = none
invoke_while (suc fuel) condition s =
    let (more, s') = condition s in
    elim more [
      | false ↦ some (0, s')
      | true ↦ elim (invoke_while fuel condition s') [ none ↦ none | some (n, t) ↦ some (n + 1, t) ]
    ]

module _ (V E : Type 0) (D : Deque ℕ) where
  pub record PromiseQueue : Type 0 where
    pub queue : D.Carrier
    pub promises : ℕ → Promise V E
    pub created : ℕ

  unfoldable pub new_queue : PromiseQueue
  new_queue = record { queue = D.empty; promises = λ _. pending; created = 0 }

  -- Returns the new promise.
  unfoldable pub push : PromiseQueue → ℕ × PromiseQueue
  push q = (q.created, record q { queue = D.push q.created q.queue; created = q.created + 1 })

  unfoldable pub settle_one : Settlement V E → PromiseQueue → Bool × PromiseQueue
  settle_one s q =
      let (maybe_head, rest) = D.shift q.queue in
      elim maybe_head [
        | none ↦ (false, record q { queue = rest })
        | some p ↦ (true, record q { queue = rest; promises = settle s p q.promises })
      ]

  unfoldable pub resolve_one : V → PromiseQueue → Bool × PromiseQueue
  unfolding settle_one
  resolve_one v = settle_one (resolve v)

  pub reject_one : E → PromiseQueue → Bool × PromiseQueue
  unfolding settle_one
  reject_one e = settle_one (reject e)

  pub resolve_all : ℕ → V → PromiseQueue → Option (ℕ × PromiseQueue)
  resolve_all fuel v = invoke_while fuel (resolve_one v)

  pub reject_all : ℕ → E → PromiseQueue → Option (ℕ × PromiseQueue)
  reject_all fuel e = invoke_while fuel (reject_one e)
